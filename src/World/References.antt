-- ===== src/World/References.antt =====
-- The row that a transaction reference names: the instance of `IsSoleRow` for the ledger.
use nfc_payment_api.Prelude.{String, ◌≡◌, refl, true, false, some, is_some, str_eq, eq_iff, Bool}
use nfc_payment_api.Schema.{Transaction}
use nfc_payment_api.External.{Env, IsLawful}
use nfc_payment_api.External.Rows.{
  IsSoleRow, IsSoleRow-find_first, IsSoleRow-at, IsSoleRow-write, IsSoleRow-new,
}
use nfc_payment_api.World.{World, find_reference}

pub str_eq_refl : (s : String) → str_eq s s ≡ true
str_eq_refl s = (eq_iff s s).1 refl

abbrev pub carries : String → Transaction → Bool
carries ref t = str_eq t.transaction_reference ref

module _ (env : Env) where
  -- The row of a reference that no other row carries: references are unique in the ledger.
  abbrev pub IsSole : World env → String → Transaction → Type 0
  IsSole w ref t = IsSoleRow env (carries ref) w.transactions t.id t

module _ (env : Env) (law : IsLawful env) where
  pub IsSole-find_reference :
      (w : World env) (ref : String) (t : Transaction)
      → IsSole env w ref t
      → find_reference env w ref ≡ some t
  IsSole-find_reference w ref t s =
      IsSoleRow-find_first env law (carries ref) w.transactions t.id t s

  -- It stays so when the row is updated and keeps its reference.
  pub IsSole-write :
      (w w' : World env) (ref : String) (t t' : Transaction)
      → IsSole env w ref t
      → t'.id ≡ t.id
      → t'.transaction_reference ≡ t.transaction_reference
      → w'.transactions ≡ env.write t.id t' w.transactions
      → IsSole env w' ref t'
  IsSole-write w w' ref t t' s same_id same_ref written =
      IsSoleRow-at env law (carries ref) (env.write t.id t' w.transactions) w'.transactions t.id
        t'.id t'
        (IsSoleRow-write env law (carries ref) w.transactions t.id t t' s (rw same_ref s.meets))
        written same_id

  -- It is so for a row that was added under a new reference.
  pub IsSole-create :
      (w w' : World env) (row : Transaction)
      → row.id ≡ env.new_id w.transactions
      → is_some (find_reference env w row.transaction_reference) ≡ false
      → w'.transactions ≡ env.write (env.new_id w.transactions) row w.transactions
      → IsSole env w' row.transaction_reference row
  IsSole-create w w' row new fresh written =
      IsSoleRow-at env law (carries row.transaction_reference)
        (env.write (env.new_id w.transactions) row w.transactions) w'.transactions
        (env.new_id w.transactions) row.id row
        (IsSoleRow-new env law (carries row.transaction_reference) w.transactions row fresh
          (str_eq_refl row.transaction_reference))
        written new
