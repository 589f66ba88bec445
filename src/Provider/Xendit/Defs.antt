-- ===== src/Provider/Xendit/Defs.antt =====
-- xendit/xendit.go: the Payment Request API v3 and the Payouts API v2.
use Prim.Native.String.{◌++◌ as append_text}
use wanpay.Base.{Bool, not, String, Option, none, some, ◌==◌, if◌then◌else◌}
use wanpay.Entity.Payment.{PaymentStatus}
use wanpay.Db.Error.{external, wrap, Result, ok, err}
use wanpay.Db.Monad.{M, ◌>>=◌, ◌>>◌, pure, throw, throw_if, wrapped}
use wanpay.Payment.Types.{
  CreateVaRequest, CreateVaResponse, CreateQrisRequest, CreateQrisResponse, WebhookEvent, Headers,
  PaymentGateway,
}
use wanpay.Disbursement.Types.{
  DisburseRequest, DisburseResponse, DisbursementWebhookEvent, DisbursementGateway,
}
use wanpay.Provider.Http.{text, num, obj, end, field, Ports, header}
use wanpay.Provider.Xendit.Types.{
  va_channel_code, disb_channel_code, XenditGateway, PaymentNotification, DisbNotification,
  XenditJson, find_action,
}
use wanpay.Provider.Xendit.Client.{
  map_payment_status, map_disb_status, request_v3, request_v2, do_request, expires, payment_body,
}

module _ (ports : Ports) (json : XenditJson) (g : XenditGateway) where
  abbrev with_channel : String → Option String → M String
  with_channel message none = throw (external message)
  with_channel message (some code) = pure code

  unfoldable pub xendit_create_va : CreateVaRequest → M CreateVaResponse
  xendit_create_va req = do
    channel_code ←
        with_channel "xendit: unsupported bank code %s for VA" (va_channel_code req.bank_code)
    resp ← wrapped "xendit create_va" (
        do_request ports json g json.payment_request (
          request_v3 ports json g "POST" "/v3/payment_requests" (
            some (
              payment_body ports json g req.external_id req.amount channel_code
                (field "display_name" (text req.customer_name)
                  (expires ports json g req.expiry_at end))
                req.description))))
    let va_number = find_action "VIRTUAL_ACCOUNT_NUMBER" resp.actions
    throw_if (va_number == "")
        (external "xendit create_va: VIRTUAL_ACCOUNT_NUMBER not found in actions")
    pure (record {
      external_id = req.external_id;
      provider_payment_id = resp.payment_request_id;
      va_number = va_number;
      biller_code = "";
      bank_code = req.bank_code;
      amount = req.amount;
      expiry_at = req.expiry_at;
    })

  unfoldable pub xendit_create_qris : CreateQrisRequest → M CreateQrisResponse
  xendit_create_qris req = do
    resp ← wrapped "xendit create_qris" (
        do_request ports json g json.payment_request (
          request_v3 ports json g "POST" "/v3/payment_requests" (
            some (
              payment_body ports json g req.external_id req.amount "QRIS"
                (field "qr_string_type" (text "DYNAMIC") (expires ports json g req.expiry_at end))
                req.description))))
    let qr_string = find_action "QR_STRING" resp.actions
    throw_if (qr_string == "") (external "xendit create_qris: QR_STRING not found in actions")
    pure (record {
      external_id = req.external_id;
      provider_payment_id = resp.payment_request_id;
      qr_string = qr_string;
      qr_image_url = "";
      amount = req.amount;
      expiry_at = req.expiry_at;
    })

  unfoldable pub xendit_cancel_payment : String → M (Unit {0})
  xendit_cancel_payment id = do
    _ ← wrapped "xendit cancel" (
        do_request ports json g json.payment_request (
          request_v3 ports json g "POST"
            (append_text "/v3/payment_requests/" (append_text id "/cancel")) none))
    pure tt

  unfoldable pub xendit_get_status : String → M PaymentStatus
  xendit_get_status id = do
    resp ← wrapped "xendit get_status" (
        do_request ports json g json.payment_request
          (request_v3 ports json g "GET" (append_text "/v3/payment_requests/" id) none))
    pure (map_payment_status ports json g resp.status)

  abbrev pub has_token : Headers → Bool
  has_token headers = header "x-callback-token" headers == g.webhook_token

  abbrev event_of : String → PaymentNotification → WebhookEvent
  event_of body n = record {
    external_id = n.reference_id;
    status = map_payment_status ports json g n.status;
    paid_at = none;
    amount = n.amount;
    raw_payload = body;
  }

  abbrev read_event : String → Option PaymentNotification → Result WebhookEvent
  read_event body none = err (wrap "xendit webhook: unmarshal" (external "json"))
  read_event body (some n) = ok (event_of body n)

  unfoldable pub xendit_parse_webhook : Headers → String → Result WebhookEvent
  xendit_parse_webhook headers body =
      if not (has_token headers)
      then err (external "xendit webhook: invalid callback token")
      else read_event body (json.payment_notification body)

  unfoldable pub xendit_disburse : DisburseRequest → M DisburseResponse
  xendit_disburse req = do
    channel_code ←
        with_channel "xendit disburse: unsupported bank code %s" (disb_channel_code req.bank_code)
    resp ← wrapped "xendit disburse" (
        do_request ports json g json.disb_response (
          request_v2 ports json g "POST" "/v2/payouts" req.external_id (
            some (
              obj (
                field "reference_id" (text req.external_id) (
                  field "channel_code" (text channel_code) (
                    field "channel_properties"
                      (obj (
                        field "account_holder_name" (text req.account_name)
                          (field "account_number" (text req.account_number) end)))
                      (field "amount" (num req.amount) (
                        field "currency" (text "IDR")
                          (field "description" (text req.description) end))))))))))
    pure (record {
      external_id = resp.id;
      status = map_disb_status ports json g resp.status;
      amount = req.amount;
    })

  unfoldable pub xendit_get_disbursement_status : String → M DisburseResponse
  xendit_get_disbursement_status id = do
    resp ← wrapped "xendit get_disbursement_status" (
        do_request ports json g json.disb_response
          (request_v2 ports json g "GET" (append_text "/v2/payouts/" id) "" none))
    pure (record {
      external_id = resp.id;
      status = map_disb_status ports json g resp.status;
      amount = resp.amount;
    })

  abbrev disbursement_event_of : String → DisbNotification → DisbursementWebhookEvent
  disbursement_event_of body n = record {
    external_id = n.id;
    status = map_disb_status ports json g n.status;
    failure_reason = n.failure_code;
    amount = n.amount;
    raw_payload = body;
  }

  abbrev read_disbursement_event :
      String → Option DisbNotification → Result DisbursementWebhookEvent
  read_disbursement_event body none =
      err (wrap "xendit disbursement webhook: unmarshal" (external "json"))
  read_disbursement_event body (some n) = ok (disbursement_event_of body n)

  unfoldable pub xendit_parse_disbursement_webhook :
      Headers → String → Result DisbursementWebhookEvent
  xendit_parse_disbursement_webhook headers body =
      if not (has_token headers)
      then err (external "xendit disbursement webhook: invalid callback token")
      else read_disbursement_event body (json.disb_notification body)

  -- The adapter behind the two ports.
  abbrev pub xendit_payments : PaymentGateway
  xendit_payments = record {
    create_va = xendit_create_va;
    create_qris = xendit_create_qris;
    cancel_payment = xendit_cancel_payment;
    parse_webhook = xendit_parse_webhook;
  }

  abbrev pub xendit_disbursements : DisbursementGateway
  xendit_disbursements = record {
    disburse = xendit_disburse;
    parse_disbursement_webhook = xendit_parse_disbursement_webhook;
  }
