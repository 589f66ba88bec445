-- ===== src/Provider/Xendit/Laws.antt =====
-- What the adapter of Xendit promises the use cases.
use wanpay.Base.{true, false, String, some, ◌≡◌, ◌==◌, ==_iff, arith, [], Option-cases, inl, inr}
use wanpay.Entity.Payment.{PaymentStatus}
use wanpay.Db.Error.{ok, is_ok}
use wanpay.Db.Monad.{Env, World}
use wanpay.Payment.Types.{
  CreateVaRequest, CreateVaResponse, WebhookEvent, Headers, Gateways, gateway,
}
use wanpay.Payment.Webhook.{handle_webhook}
use wanpay.Fee.{FloatOps}
use wanpay.Provider.Http.{Ports, header}
use wanpay.Provider.Xendit.Types.{
  XenditGateway, XenditJson, PaymentNotification, va_channel_code, payment_status_of,
}
use wanpay.Provider.Xendit.Client.{map_payment_status}
use wanpay.Provider.Xendit.Defs.{xendit_create_va, xendit_parse_webhook, xendit_payments}

paid_iff_succeeded : (s : String) → payment_status_of s ≡ PaymentStatus.paid → s ≡ "SUCCEEDED"
unfolding payment_status_of
paid_iff_succeeded s h = ground (arith, ==_iff s "SUCCEEDED")

module _ (ports : Ports) (json : XenditJson) (g : XenditGateway) where
  -- A webhook reports a payment as paid only with the token of the configuration in its header, and a
  -- body whose status is SUCCEEDED in any case of letters; the reference and the amount of the event
  -- are those of the body.
  pub xendit_parse_webhook-paid :
      (headers : Headers) (body : String) (event : WebhookEvent)
      → xendit_parse_webhook ports json g headers body ≡ ok event
      → event.status ≡ PaymentStatus.paid
      → (header "x-callback-token" headers ≡ g.webhook_token)
        × ((n : PaymentNotification) × (json.payment_notification body ≡ some n)
            × (ports.to_upper n.status ≡ "SUCCEEDED")
            × (event.external_id ≡ n.reference_id)
            × (event.amount ≡ n.amount))
  unfolding xendit_parse_webhook map_payment_status
  xendit_parse_webhook-paid headers body event h paid =
      elim (Option-cases (json.payment_notification body)) [
        | inl bad ↦ absurd (ground arith)
        | inr (n, e) ↦ (
          ground (arith, ==_iff (header "x-callback-token" headers) g.webhook_token),
          (
            n,
            e,
            paid_iff_succeeded (ports.to_upper n.status) (ground arith),
            ground arith,
            ground arith,
          ),
        )
      ]

  -- Where no token is configured, a notification without the header is taken for Xendit's.
  pub xendit_parse_webhook-no_token :
      (body : String) (n : PaymentNotification)
      → g.webhook_token ≡ ""
      → json.payment_notification body ≡ some n
      → is_ok (xendit_parse_webhook ports json g [] body) ≡ true
  unfolding xendit_parse_webhook header
  xendit_parse_webhook-no_token body n unset e = ground (arith, ==_iff "" g.webhook_token)

  -- A webhook of Xendit whose header does not have the configured token is refused, and changes
  -- nothing.
  pub handle_webhook-xendit_forged :
      (ops : FloatOps) (env : Env) (gateways : Gateways) (headers : Headers) (body : String)
      (w : World)
      → gateways "xendit" ≡ some (xendit_payments ports json g)
      → (header "x-callback-token" headers == g.webhook_token) ≡ false
      → (is_ok (handle_webhook ops env gateways "xendit" headers body w).0 ≡ false)
        × ((handle_webhook ops env gateways "xendit" headers body w).1 ≡ w)
  unfolding handle_webhook gateway xendit_parse_webhook
  handle_webhook-xendit_forged ops env gateways headers body w e bad = ground (arith, e)

  -- A virtual account that Xendit has opened has a number, is for the bank, the amount and the
  -- reference that were asked for, and its bank is one that the adapter knows.
  pub xendit_create_va-Opened :
      (req : CreateVaRequest) (out : CreateVaResponse) (w : World)
      → (xendit_create_va ports json g req w).0 ≡ ok out
      → (out.external_id ≡ req.external_id)
        × (out.bank_code ≡ req.bank_code)
        × (out.amount ≡ req.amount)
        × ((out.va_number == "") ≡ false)
        × ((code : String) × (va_channel_code req.bank_code ≡ some code))
  unfolding xendit_create_va
  xendit_create_va-Opened req out w h = elim (Option-cases (va_channel_code req.bank_code)) [
    | inl unknown ↦ absurd (ground arith)
    | inr (code, e) ↦ (ground arith, ground arith, ground arith, ground arith, (code, e))
  ]
