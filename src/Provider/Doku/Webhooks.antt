-- ===== src/Provider/Doku/Webhooks.antt =====
-- doku/doku.go: the notifications, which are signed with the access token.
use wanpay.Base.{Bool, not, String, Option, none, some, [], ◌∷◌, ◌==◌, if◌then◌else◌}
use wanpay.Db.Error.{external, wrap, Result, ok, err}
use wanpay.Db.Monad.{Env, M, ◌>>=◌, pure}
use wanpay.Payment.Types.{WebhookEvent, Headers}
use wanpay.Disbursement.Types.{DisbursementWebhookEvent}
use wanpay.Provider.Http.{Ports, header}
use wanpay.Provider.Doku.Types.{
  DokuPorts, DokuGateway, AccessToken, VaNotification, DokuDisbNotification, DokuJson, doku_status,
  doku_disb_status,
}
use wanpay.Provider.Doku.Token.{joined, access_token}

module _ {Key : Type 0} (ports : Ports) (doku : DokuPorts Key) (json : DokuJson) (env : Env) where
  module _ (g : DokuGateway Key) where
    abbrev pub token_or_empty : Result String → String
    token_or_empty (ok token) = token
    token_or_empty (err e) = ""

    unfoldable pub webhook_signature : Headers → String → String → String
    webhook_signature headers token body = doku.hmac_base64 g.secret_key (
        joined (
          header "x-http-method" headers
          ∷ ":"
          ∷ header "x-endpoint-url" headers
          ∷ ":"
          ∷ token
          ∷ ":"
          ∷ ports.to_lower (doku.sha256_hex body)
          ∷ ":"
          ∷ header "x-timestamp" headers
          ∷ []))

    unfoldable pub verify_webhook_signature :
        Headers → String → AccessToken → M (Bool × AccessToken)
    verify_webhook_signature headers body t = do
      (token, t') ← access_token ports doku json env g t
      pure (
        webhook_signature headers (token_or_empty token) body == header "x-signature" headers,
        t',
      )

    abbrev pub va_event : String → Option VaNotification → Result WebhookEvent
    va_event body none = err (wrap "doku webhook: unmarshal" (external "json"))
    va_event body (some n) = ok (record {
      external_id = n.trx_id;
      status = doku_status n.response_code;
      paid_at = none;
      amount = n.amount;
      raw_payload = body;
    })

    unfoldable pub doku_parse_webhook :
        Headers → String → AccessToken → M (Result WebhookEvent × AccessToken)
    doku_parse_webhook headers body t = do
      (genuine, t') ← verify_webhook_signature headers body t
      pure (
        if not genuine
            then err (external "doku webhook: invalid signature")
            else va_event body (json.va_notification body),
        t',
      )

    abbrev disb_event : String → Option DokuDisbNotification → Result DisbursementWebhookEvent
    disb_event body none = err (wrap "doku disbursement webhook: unmarshal" (external "json"))
    disb_event body (some n) = ok (record {
      external_id = n.partner_reference_no;
      status = doku_disb_status n.response_code;
      failure_reason = n.failure_code;
      amount = n.amount;
      raw_payload = body;
    })

    unfoldable pub doku_parse_disbursement_webhook :
        Headers → String → AccessToken → M (Result DisbursementWebhookEvent × AccessToken)
    doku_parse_disbursement_webhook headers body t = do
      (genuine, t') ← verify_webhook_signature headers body t
      pure (
        if not genuine
            then err (external "doku disbursement webhook: invalid signature")
            else disb_event body (json.disb_notification body),
        t',
      )
