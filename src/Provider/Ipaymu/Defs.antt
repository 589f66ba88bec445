-- ===== src/Provider/Ipaymu/Defs.antt =====
-- ipaymu/ipaymu.go: the direct payment API v2. `sha256` and `hmac` (key, text) give hexadecimal digits.
use Prim.Native.String.{◌++◌ as append_text}
use wanpay.Base.{nat_eq, not, ◌&&◌, String, Option, none, some, [], ◌∷◌, ◌==◌, if◌then◌else◌}
use wanpay.Entity.Fee.{Time}
use wanpay.Entity.Payment.{PaymentStatus}
use wanpay.Db.Error.{external, wrap, Result, ok, err}
use wanpay.Db.Monad.{Env, M, ◌>>=◌, ◌>>◌, pure, throw, throw_if, lift, wrapped}
use wanpay.Payment.Types.{
  CreateVaRequest, CreateVaResponse, CreateQrisRequest, CreateQrisResponse, WebhookEvent, Headers,
  PaymentGateway,
}
use wanpay.Provider.Http.{Json, text, obj, end, field, Ports, header, unmarshalled}
use wanpay.Provider.Ipaymu.Types.{
  IpaymuGateway, va_channel, IpaymuNotification, IpaymuJson, ipaymu_status_of, build_body,
}

module _ (ports : Ports) (json : IpaymuJson) (sha256 : String → String) where
  module _ (hmac : String → String → String) (timestamp : Time → String) (env : Env) where
    module _ (g : IpaymuGateway) where
      unfoldable pub map_ipaymu_status : String → PaymentStatus
      map_ipaymu_status s = ipaymu_status_of (ports.to_lower s)

      unfoldable pub ipaymu_signature : String → String
      ipaymu_signature body = hmac g.api_key (
          append_text "POST:" (
            append_text g.va (
              append_text ":"
                (append_text (ports.to_lower (sha256 body)) (append_text ":" g.api_key)))))

      abbrev pub ipaymu_post : {A : Type 0} → (String → Option A) → String → Json → M A
      ipaymu_post decode path j = do
        let body = ports.marshal j
        answer ← wrapped "ipaymu http" (
            ports.send (record {
              method = "POST";
              url = append_text g.base_url path;
              headers =
                  ("Content-Type", "application/json")
                  ∷ ("Accept", "application/json")
                  ∷ ("va", g.va)
                  ∷ ("signature", ipaymu_signature body)
                  ∷ ("timestamp", timestamp env.now)
                  ∷ [];
              body = some body;
            }))
        lift (unmarshalled (decode answer.body))

      abbrev with_channel : Option String → M String
      with_channel none = throw (external "ipaymu: unsupported bank code %s")
      with_channel (some c) = pure c

      unfoldable pub ipaymu_create_va : CreateVaRequest → M CreateVaResponse
      ipaymu_create_va req = do
        channel ← with_channel (va_channel req.bank_code)
        resp ← wrapped "ipaymu create_va" (
            ipaymu_post json.payment "/payment/direct" (
              build_body ports.date_time req.description req.amount req.customer_name
                req.customer_email req.customer_phone req.external_id req.expiry_at "va" channel
                g.notify_url))
        throw_if (not (nat_eq resp.status 200)) (external "ipaymu create_va: %s")
        pure (record {
          external_id = resp.reference_id;
          provider_payment_id = resp.session_id;
          va_number = resp.payment_no;
          biller_code = "";
          bank_code = req.bank_code;
          amount = req.amount;
          expiry_at = req.expiry_at;
        })

      unfoldable pub ipaymu_create_qris : CreateQrisRequest → M CreateQrisResponse
      ipaymu_create_qris req = do
        resp ← wrapped "ipaymu create_qris" (
            ipaymu_post json.payment "/payment/direct" (
              build_body ports.date_time req.description req.amount req.customer_name
                req.customer_email req.customer_phone req.external_id req.expiry_at "qris" "qris"
                g.notify_url))
        throw_if (not (nat_eq resp.status 200)) (external "ipaymu create_qris: %s")
        pure (record {
          external_id = resp.reference_id;
          provider_payment_id = resp.session_id;
          qr_string = resp.qr_string;
          qr_image_url = resp.qr_image;
          amount = req.amount;
          expiry_at = req.expiry_at;
        })

      unfoldable pub ipaymu_cancel_payment : String → M (Unit {0})
      ipaymu_cancel_payment id = throw (external "ipaymu: cancel payment not supported")

      unfoldable pub ipaymu_get_status : String → M PaymentStatus
      ipaymu_get_status id = do
        paid_status ← wrapped "ipaymu get_status" (
            ipaymu_post json.paid_status "/transaction" (obj (field "transactionId" (text id) end)))
        pure (map_ipaymu_status paid_status)

      abbrev ipaymu_event : String → Option IpaymuNotification → Result WebhookEvent
      ipaymu_event body none = err (wrap "ipaymu webhook: unmarshal" (external "json"))
      ipaymu_event body (some n) = ok (record {
        external_id = n.reference_id;
        status = map_ipaymu_status n.status_code;
        paid_at = none;
        amount = n.amount;
        raw_payload = body;
      })

      -- Without a secret nothing is verified.
      unfoldable pub ipaymu_parse_webhook : Headers → String → Result WebhookEvent
      ipaymu_parse_webhook headers body =
          if not (g.webhook_secret == "") && not (header "x-wt" headers == g.webhook_secret)
          then err (external "ipaymu webhook: invalid token")
          else ipaymu_event body (json.notification body)

      abbrev pub ipaymu_payments : PaymentGateway
      ipaymu_payments = record {
        create_va = ipaymu_create_va;
        create_qris = ipaymu_create_qris;
        cancel_payment = ipaymu_cancel_payment;
        parse_webhook = ipaymu_parse_webhook;
      }
