-- ===== src/Webhook/Credits.antt =====
-- How often a charge is credited: `BANK_TRANSFER_TRANSACTION` in src/webhooks/webhooks.service.ts, and the
-- listener of the event that they emit, src/webhooks/events/bank-transfer.event.ts.
use mathlib.Core.Option
use nfc_payment_api.Prelude.{
  ℕ, String, ◌≡◌, refl, true, Option, some, [], ◌∷◌, ◌==◌, arith, str_eq, is_some, if◌then◌else◌,
  ap, ◌∙◌,
}
use nfc_payment_api.Prelude.Int.{◌+ℤ◌}
use nfc_payment_api.Schema.{Wallet, Transaction}
use nfc_payment_api.External.{Env, IsLawful}
use nfc_payment_api.Response.{UserWithWallet}
use nfc_payment_api.WebhookPayload.{FlutterwaveData}
use nfc_payment_api.World.{World, Event, wallet_funded, find_reference}
use nfc_payment_api.World.Balances.{balance_at, add_balance}
use nfc_payment_api.World.References.{str_eq_refl, IsSole, IsSole-find_reference, IsSole-write}
use nfc_payment_api.Webhook.{mark_charged, listen}
use nfc_payment_api.Webhook.Charges.{
  settled, charged, run_each, IsExpected, expected_event, charged-expected_event, listened,
  replayed_charge,
}

module _ (env : Env) (law : IsLawful env) where
  -- One delivery, and its listener, from a state with no event pending.
  module _ (d : FlutterwaveData) (w : World env) (ref : String) (t : Transaction)
      (u : UserWithWallet) (wallet b : Wallet) (x : IsExpected env d w ref t u wallet b)
      (quiet : w.events ≡ []) where
    abbrev delivered : World env
    delivered = charged env "charge.completed" d w

    one_event : delivered.events ≡ expected_event env d ref t u ∷ []
    one_event =
        let (events, _, _, _) = charged-expected_event env law d w ref t u wallet b x in
        ground (arith, events)

    settled-listen :
        settled env delivered
        ≡ (listen env (expected_event env d ref t u) (record delivered { events = [] })).1
    settled-listen = ap (λ es. run_each env es (record delivered { events = [] })) one_event

    settled_writes :
        ((settled env delivered).wallets ≡ env.write wallet.id (add_balance d.amount b) w.wallets)
        × ((settled env delivered).transactions
            ≡ env.write t.id (mark_charged d.status t) w.transactions)
        × ((row : Option Transaction) × ((settled env delivered).events
              ≡ wallet_funded d.amount u.user.id row wallet.balance ∷ []))
    settled_writes =
        let (_, wallets, rows, _) = charged-expected_event env law d w ref t u wallet b x in
        let (paid, marked, (row, funded)) =
          listened env law d (record delivered { events = [] }) ref t t u wallet b x.holds
            (rw wallets x.listed) (rw rows x.sole.listed) in
        (
          ground (arith, settled-listen, paid, wallets),
          ground (arith, settled-listen, marked, rows),
          (row, ground (arith, settled-listen, funded)),
        )

    settled-IsSole : IsSole env (settled env delivered) ref (mark_charged d.status t)
    settled-IsSole =
        let (_, marked, _) = settled_writes in
        IsSole-write env law w (settled env delivered) ref t (mark_charged d.status t) x.sole refl
          refl marked

    -- A verified charge for which a row waits credits the user's wallet with the amount, changes
    -- no other balance and marks the row as processed.
    pub charge_credits :
        (j : ℕ)
        → (balance_at env (settled env delivered) j ≡ (
            if wallet.id == j
            then Option.map (λ y. y +ℤ d.amount) (balance_at env w j)
            else balance_at env w j))
          × (find_reference env (settled env delivered) ref ≡ some (mark_charged d.status t))
    charge_credits j =
        let (paid, _, _) = settled_writes in
        (
          ground (
            arith,
            paid,
            x.listed,
            law.find-write wallet.id (add_balance d.amount b) w.wallets j,
          ),
          IsSole-find_reference env law (settled env delivered) ref (mark_charged d.status t)
              settled-IsSole,
        )

    -- Delivered again after its listener has run, such a charge is not credited again, whatever
    -- the second delivery calls its event: with every listener that is then pending it leaves the
    -- wallets and the ledger of the first.
    pub charge_credited_once :
        (event : String)
        → ((settled env (charged env event d (settled env delivered))).wallets
            ≡ (settled env delivered).wallets)
          × ((settled env (charged env event d (settled env delivered))).transactions
              ≡ (settled env delivered).transactions)
    unfolding listen
    charge_credited_once event =
        let s : World env = settled env delivered in
        let v : World env = charged env event d s in
        let t' : Transaction = mark_charged d.status t in
        let found : find_reference env s ref ≡ some t' =
          IsSole-find_reference env law s ref t' settled-IsSole in
        let same : str_eq d.status t'.processor_status ≡ true = str_eq_refl d.status in
        let (wallets, rows, _) =
          replayed_charge env event d s s ref t' x.named found same (ground (arith, found)) in
        let still : is_some (find_reference env (record v { events = [] }) ref) ≡ true =
          ground (arith, found, rows) in
        let (_, _, (es, events, idle)) =
          replayed_charge env event d s (record v { events = [] }) ref t' x.named found same
            still in
        let (_, _, (row, funded)) = settled_writes in
        let pending : v.events ≡ wallet_funded d.amount u.user.id row wallet.balance ∷ es =
          ground (arith, events, funded) in
        let over : settled env v ≡ record v { events = [] } =
          ap (λ q. run_each env q (record v { events = [] })) pending ∙ idle in
        (ground (arith, over, wallets), ground (arith, over, rows))

    -- Delivered again before its listener has run, such a charge is credited twice.
    pub charge_credited_twice :
        balance_at env (settled env (charged env "charge.completed" d delivered)) wallet.id
        ≡ some (b.balance +ℤ d.amount +ℤ d.amount)
    unfolding listen
    charge_credited_twice =
        let (_, wallets, rows, users) = charged-expected_event env law d w ref t u wallet b x in
        let again : IsExpected env d delivered ref t u wallet b = record {
          email = x.email;
          verified = x.verified;
          completed = x.completed;
          named = x.named;
          sole = record {
            listed = rw rows x.sole.listed;
            meets = x.sole.meets;
            sole = λ j a listed named. x.sole.sole j a (rw (← rows) listed) named;
          };
          new = x.new;
          given = x.given;
          known = ground (arith, x.known, wallets, users);
          holds = x.holds;
          listed = rw wallets x.listed;
        } in
        let v : World env = charged env "charge.completed" d delivered in
        let (events, wallets', rows', _) =
          charged-expected_event env law d delivered ref t u wallet b again in
        let e : Event = expected_event env d ref t u in
        let pending : v.events ≡ e ∷ e ∷ [] = ground (arith, events, one_event) in
        let v₁ : World env = record v { events = [] } in
        let (paid, marked, _) =
          listened env law d v₁ ref t t u wallet b x.holds
            (ground (arith, wallets', wallets, x.listed))
            (ground (arith, rows', rows, x.sole.listed)) in
        let v₂ : World env = (listen env e v₁).1 in
        let (paid', _, _) =
          listened env law d v₂ ref t (mark_charged d.status t) u wallet (add_balance d.amount b)
            x.holds
            (ground
              (arith, paid, law.find-write wallet.id (add_balance d.amount b) v.wallets wallet.id))
            (ground
              (arith, marked, law.find-write t.id (mark_charged d.status t) v.transactions t.id)) in
        let over : settled env v ≡ (listen env e v₂).1 = ap (λ q. run_each env q v₁) pending in
        ground (
          arith,
          over,
          paid',
          law.find-write wallet.id (add_balance d.amount (add_balance d.amount b)) v₂.wallets
              wallet.id,
        )
