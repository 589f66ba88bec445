-- ===== src/Provider/Midtrans/Laws.antt =====
-- What a notification of Midtrans must carry.
use wanpay.Base.{ℤ, ◌⊎◌, inl, inr, String, some, ◌≡◌, ==_iff, arith, Option-cases}
use wanpay.Entity.Payment.{PaymentStatus}
use wanpay.Db.Error.{ok}
use wanpay.Db.Monad.{Env}
use wanpay.Payment.Types.{WebhookEvent, Headers}
use wanpay.Provider.Http.{Ports}
use wanpay.Provider.Midtrans.Types.{
  MidtransGateway, MidtransJson, MidtransNotification, midtrans_status,
}
use wanpay.Provider.Midtrans.Defs.{midtrans_signature, midtrans_parse_webhook}

paid_when :
    (tx fraud : String)
    → midtrans_status tx fraud ≡ PaymentStatus.paid
    → ((tx ≡ "settlement") ⊎ (tx ≡ "capture")) × ((fraud ≡ "accept") ⊎ (fraud ≡ ""))
unfolding midtrans_status
paid_when tx fraud h =
    ground
      (arith, ==_iff tx "settlement", ==_iff tx "capture", ==_iff fraud "accept", ==_iff fraud "")

module _ (ports : Ports) (json : MidtransJson) (sha512 : String → String) where
  module _ (parse_int : String → ℤ) (env : Env) (g : MidtransGateway) where
    -- A webhook reports a payment as paid only for a notification whose key is the hash of its order,
    -- status code, amount and the server's key, which is settled or captured and not in doubt of fraud;
    -- the event has the notification's order and amount.
    pub midtrans_parse_webhook-paid :
        (headers : Headers) (body : String) (event : WebhookEvent)
        → midtrans_parse_webhook ports json sha512 parse_int env g headers body ≡ ok event
        → event.status ≡ PaymentStatus.paid
        → (n : MidtransNotification) × (json.notification body ≡ some n)
          × (n.signature_key
              ≡ midtrans_signature ports json sha512 parse_int env g n.order_id n.status_code
                  n.gross_amount)
          × ((n.transaction_status ≡ "settlement") ⊎ (n.transaction_status ≡ "capture"))
          × ((n.fraud_status ≡ "accept") ⊎ (n.fraud_status ≡ ""))
          × (event.external_id ≡ n.order_id)
          × (event.amount ≡ parse_int n.gross_amount)
    unfolding midtrans_parse_webhook
    midtrans_parse_webhook-paid headers body event h paid =
        elim (Option-cases (json.notification body)) [
          | inl bad ↦ absurd (ground arith)
          | inr (n, e) ↦
              let key =
                midtrans_signature ports json sha512 parse_int env g n.order_id n.status_code
                  n.gross_amount in
              let (state, fraud) =
                paid_when n.transaction_status n.fraud_status (ground (arith, e)) in
              (
                n,
                e,
                ground (arith, e, ==_iff key n.signature_key),
                state,
                fraud,
                ground (arith, e),
                ground (arith, e),
              )
        ]
