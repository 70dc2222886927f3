-- ===== src/Profile/Deletion/Tests.antt =====
-- A deletion on the database of `Samples`, src/user/user.service.ts.
use mathlib.Core.List.{mem-cons_self}
use nfc_payment_api.Prelude.{String, ◌≡◌, refl, inl, inr, none, some, [], ◌∷◌}
use nfc_payment_api.Prelude.Int.{naira}
use nfc_payment_api.Schema.{Transaction, Report}
use nfc_payment_api.External.Memory.{memory, memory-IsLawful}
use nfc_payment_api.Exec.{ok, err, http, not_existing}
use nfc_payment_api.Response.{null, succeeded}
use nfc_payment_api.World.{World}
use nfc_payment_api.Registration.Referral.{bonus_row}
use nfc_payment_api.Profile.Deletion.{any_of, cleared_row, delete_user}
use nfc_payment_api.Profile.Deletion.Laws.{deleted_user_erases_cards, reported_user_is_kept}
use nfc_payment_api.Samples.{start, merchant, merchant_wallet, prepaid_card}

abbrev bonus : Transaction
bonus = bonus_row "bonus" (naira 50) 1

abbrev rewarded : World memory
rewarded = record start { transactions = some bonus ∷ [] }

-- The merchant created the first customer's prepaid card.
deleted_user_erases_cards_example :
    let r = delete_user memory 1 rewarded in
    (r.0 ≡ ok (succeeded "User deleted successfully" null))
    × (memory.find 1 r.1.users ≡ none)
    × (memory.find 1 r.1.wallets ≡ none)
    × (memory.find 1 r.1.cards ≡ none)
    × (memory.find 0 r.1.transactions ≡ some (cleared_row memory 1 rewarded bonus))
    × ((cleared_row memory 1 rewarded bonus).amount ≡ bonus.amount)
unfolding any_of
deleted_user_erases_cards_example =
    deleted_user_erases_cards memory memory-IsLawful rewarded 1 merchant refl merchant_wallet
      prepaid_card bonus 1 1 0 refl refl refl refl (inr refl) refl

-- The merchant reported the first customer.
abbrev complaint : Report
complaint = record { created_by_id = 1; user_id = 0 }

abbrev reported : World memory
reported = record start { reports = complaint ∷ [] }

reported_user_is_kept_example :
    (column : String) × (delete_user memory 1 reported
      ≡ (err (http 400 (not_existing column 1)), reported))
reported_user_is_kept_example =
    reported_user_is_kept memory memory-IsLawful reported 1 merchant refl complaint mem-cons_self
      (inl refl)
