-- ===== src/WebhookPayload.antt =====
-- The payloads that src/webhooks/webhooks.service.ts receives: the fields that it reads, of which
-- those that it may find undefined are options.
use nfc_payment_api.Prelude.{ℕ, String, Option}
use nfc_payment_api.Prelude.Int.{ℤ}

-- `payload.data` of Flutterwave
pub record FlutterwaveData : Type 0 where
  pub id : ℕ
  pub amount : ℤ
  pub status : String
  pub customer_email : Option String
  pub trx_ref : Option String
  pub reference : Option String
  pub fee : ℤ

-- `data.data` of Paystack, with its amount in kobo
pub record PaystackData : Type 0 where
  pub id : ℕ
  pub kobo : ℕ
  pub status : String
  pub customer_email : Option String
  pub reference : Option String

-- A row of `Webhooks`: its source and its data.
pub data WebhookPayload : Type 0 where
  -- event, event.type, data
  from_flutterwave : String → String → Option FlutterwaveData → WebhookPayload
  -- event, data
  from_paystack : String → Option PaystackData → WebhookPayload
