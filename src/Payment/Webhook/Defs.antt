-- ===== src/Payment/Webhook/Defs.antt =====
-- HandleWebhook: the provider's event is found, and recorded in one transaction.
use Prim.Native.String.{◌++◌ as append_text}
use wanpay.Base.{ℤ, pos, sub64, String, Option, none, some, ◌==◌, if◌then◌else◌}
use wanpay.Entity.Merchant.{Merchant}
use wanpay.Entity.Payment.{
  Payment, is_final, is_paid_status, status_text, method_text, metadata_string,
}
use wanpay.Entity.Mutation.{Mutation, MutationType, MutationReferenceType}
use wanpay.Entity.Audit.{AuditEventType}
use wanpay.Db.Error.{Result, ok, err}
use wanpay.Db.Payload.{Payload, EventData}
use wanpay.Db.Monad.{Env, M, ◌>>=◌, pure, lift, attempt, wrapped, run_in_tx}
use wanpay.Db.Payments.{find_by_id_for_update, find_by_external_id, update_payment}
use wanpay.Db.Audits.{save_audit}
use wanpay.Db.Mutations.{save_mutation}
use wanpay.Db.Merchants.{find_merchant_by_id}
use wanpay.Db.Outbox.{insert_event}
use wanpay.Fee.{FloatOps, FeeResolution, resolve}
use wanpay.Payment.Types.{WebhookEvent, Headers, Gateways, gateway}
use wanpay.Payment.Cancel.{status_audit}

-- `p` after the event: `PaidAt` is set by a paid event alone.
unfoldable pub apply_event : Payment → WebhookEvent → Payment
apply_event p event = record p {
  status = event.status;
  paid_at = if is_paid_status event.status then event.paid_at else p.paid_at;
}

abbrev pub cash_in : Payment → ℤ → Mutation
cash_in p fee = record {
  id = "";
  reference_id = p.id;
  reference_type = MutationReferenceType.payment;
  merchant_id = p.merchant_id;
  type = MutationType.cash_in;
  amount = p.amount;
  fee_amount = fee;
  currency = p.currency;
  description =
      append_text "Payment " (append_text (method_text p.method) (append_text " via " p.provider));
  created_at = 0;
}

abbrev callback_or : String → Option String → String
callback_or url none = url
callback_or url (some cb) = if cb == "" then url else cb

-- The payment's own callback URL, or the merchant's.
unfoldable pub callback_url : Payment → Merchant → String
callback_url p merchant =
    callback_or merchant.webhook_url (metadata_string "callback_url" p.metadata)

abbrev pub event_name : Payment → String
event_name p = append_text "payment." (status_text p.status)

abbrev pub payment_payload : Env → Payment → ℤ → Payload
payment_payload env p fee = record {
  event_type = event_name p;
  delivery_id = "";
  created_at = env.now;
  event_data = EventData.payment (record {
    payment_id = p.id;
    external_id = p.external_id;
    merchant_id = p.merchant_id;
    status = status_text p.status;
    method = method_text p.method;
    provider = p.provider;
    amount = p.amount;
    fee_amount = fee;
    net_amount = sub64 p.amount fee;
    currency = p.currency;
    customer_name = p.customer_name;
    customer_email = p.customer_email;
    paid_at = p.paid_at;
    created_at = p.created_at;
  });
}

abbrev pub fee_or_zero : Result FeeResolution → ℤ
fee_or_zero (ok res) = res.total_fee
fee_or_zero (err _) = pos 0

unfoldable pub notify : Env → Payment → Merchant → ℤ → M (Unit {0})
notify env p merchant fee = if callback_url p merchant == "" then pure tt else (do
  _ ←
      insert_event env (event_name p) (callback_url p merchant) merchant.id
        (payment_payload env p fee)
  pure tt)

module _ (ops : FloatOps) (env : Env) where
  -- A paid payment is credited: the fee, and the ledger's record.
  credit : Payment → Merchant → M ℤ
  credit p merchant = do
    res ← attempt (resolve ops env merchant p.method p.amount)
    _ ← save_mutation env (cash_in p (fee_or_zero res))
    pure (fee_or_zero res)

  unfoldable pub credit_if_paid : Payment → Merchant → M ℤ
  unfolding credit
  credit_if_paid p merchant = if is_paid_status p.status then credit p merchant else pure (pos 0)

  -- The body of the transaction once the row is locked and not final.
  unfoldable pub record_event : String → Payment → Payment → Merchant → M (Unit {0})
  record_event provider fresh p merchant = do
    _ ← update_payment env p
    _ ← save_audit env (
        status_audit p AuditEventType.webhook_received (some fresh.status) p.status
          (append_text "webhook:" provider))
    fee ← credit_if_paid p merchant
    notify env p merchant fee

  unfoldable pub process_event : String → WebhookEvent → Payment → Merchant → M (Unit {0})
  process_event provider event p merchant = run_in_tx env (do
    fresh ← find_by_id_for_update env p.id
    (if is_final fresh
        then pure tt
        else record_event provider fresh (apply_event p event) merchant))

  module _ (gateways : Gateways) where
    unfoldable pub handle_webhook : String → Headers → String → M (Unit {0})
    handle_webhook provider headers body = do
      gw ← gateway gateways provider
      event ← wrapped "parse webhook" (lift (gw.parse_webhook headers body))
      p ← wrapped "find payment" (find_by_external_id env provider event.external_id)
      (if is_final p then pure tt else (do
        merchant ← wrapped "find merchant" (find_merchant_by_id env p.merchant_id)
        process_event provider event p merchant))
