-- ===== src/Reference.antt =====
-- TransactionReferenceHelper, src/common/helpers/transaction-reference.helper.ts.
use Prim.Native.String.{◌++◌ as append}
use nfc_payment_api.Prelude.{String, Bool, ◌||◌, str_eq, if◌then◌else◌}
use nfc_payment_api.Schema.{
  TransactionType, fund_wallet, fund_card, withdrawal, payment, transfer, referral_bonus,
}
use nfc_payment_api.External.{Env}

-- The enum's name with `_` replaced by `-`, in lower case.
abbrev pub type_words : TransactionType → String
type_words fund_wallet = "fund-wallet"
type_words fund_card = "fund-card"
type_words withdrawal = "withdrawal"
type_words payment = "payment"
type_words transfer = "transfer"
type_words referral_bonus = "referral-bonus"

abbrev is_production : String → Bool
is_production e = str_eq e "prod" || (str_eq e "live" || str_eq e "production")

unfoldable pub generate : Env → TransactionType → String
generate env t =
    if is_production env.node_env
    then append "stark-pay-" (append (type_words t) (append "-" env.printed_now))
    else append "stark-pay-"
        (append env.node_env (append "-" (append (type_words t) (append "-" env.printed_now))))
