-- ===== src/Examples/Providers.antt =====
-- The adapters of the providers, with a server that answers each request in the same way.
use wanpay.Base.{ℤ, pos, false, String, none, some, [], ◌∷◌, ◌≡◌, refl, ◌==◌, ◌⊎◌, if◌then◌else◌}
use wanpay.Entity.Payment.{PaymentStatus}
use wanpay.Db.Error.{ok, is_ok}
use wanpay.Payment.Types.{CreateVaRequest, CreateVaResponse, WebhookEvent, Gateways}
use wanpay.Payment.Webhook.{handle_webhook}
use wanpay.Provider.Http.{Ports, header}
use wanpay.Provider.Xendit.{
  XenditGateway, XenditJson, va_channel_code, find_action, xendit_create_va, xendit_payments,
  handle_webhook-xendit_forged,
}
use wanpay.Provider.Midtrans.{
  MidtransGateway, MidtransJson, MidtransNotification, midtrans_parse_webhook, midtrans_signature,
  midtrans_status, midtrans_parse_webhook-paid,
}
use wanpay.Examples.Data.{env, whole}
use wanpay.Examples.Ports.{start}

abbrev pub ports : Ports
ports = record {
  send = λ req w. (ok (record { status_code = 200; body = "accepted" }), w);
  marshal = λ j. "{}";
  base64 = λ s. s;
  rfc3339 = λ t. "";
  date_time = λ t. "";
  parse_date_time = λ s. none;
  to_upper = λ s. s;
  to_lower = λ s. s;
}

abbrev xendit_json : XenditJson
xendit_json = record {
  payment_request = λ s. some (record {
    payment_request_id = "pr-1";
    reference_id = "wpay-9";
    status = "REQUIRES_ACTION";
    request_amount = pos 5000;
    channel_code = "BCA_VIRTUAL_ACCOUNT";
    actions =
        record {
          type = "PRESENT_TO_CUSTOMER";
          descriptor = "VIRTUAL_ACCOUNT_NUMBER";
          value = "777";
        }
        ∷ [];
  });
  payment_notification = λ s. none;
  disb_response = λ s. none;
  disb_notification = λ s. none;
  api_error = λ s. none;
}

abbrev adapter : XenditGateway
adapter = record { secret_key = "key"; webhook_token = "token" }

abbrev adapters : Gateways
adapters provider =
    if provider == "xendit" then some (xendit_payments ports xendit_json adapter) else none

abbrev va_request : CreateVaRequest
va_request = record {
  external_id = "wpay-9";
  amount = pos 5000;
  currency = "IDR";
  bank_code = "BCA";
  customer_name = "Ani";
  customer_email = "";
  customer_phone = "";
  description = "";
  expiry_at = 20;
}

abbrev opened : CreateVaResponse
opened = record {
  external_id = "wpay-9";
  provider_payment_id = "pr-1";
  va_number = "777";
  biller_code = "";
  bank_code = "BCA";
  amount = pos 5000;
  expiry_at = 20;
}

va_is_opened : (xendit_create_va ports xendit_json adapter va_request start).0 ≡ ok opened
unfolding xendit_create_va va_channel_code find_action
va_is_opened = refl

handle_webhook-xendit_forged_example :
    (is_ok
        (handle_webhook whole env adapters "xendit"
          (("x-callback-token", "guess") ∷ [])
          "{}"
          start).0
      ≡ false)
    × ((handle_webhook whole env adapters "xendit"
          (("x-callback-token", "guess") ∷ [])
          "{}"
          start).1
        ≡ start)
unfolding header
handle_webhook-xendit_forged_example =
    handle_webhook-xendit_forged ports xendit_json adapter whole env adapters
      (("x-callback-token", "guess") ∷ []) "{}" start refl refl

abbrev notification : MidtransNotification
notification = record {
  order_id = "wpay-1";
  transaction_status = "settlement";
  fraud_status = "accept";
  gross_amount = "10000.00";
  status_code = "200";
  signature_key = "wpay-120010000.00key";
  settlement_time = "";
}

abbrev midtrans_json : MidtransJson
midtrans_json = record {
  charge = λ s. none;
  status = λ s. none;
  notification = λ s. some notification;
  qr = λ s. none;
}

abbrev settled : WebhookEvent
settled = record {
  external_id = "wpay-1";
  status = PaymentStatus.paid;
  paid_at = none;
  amount = pos 10000;
  raw_payload = "{}";
}

abbrev midtrans_adapter : MidtransGateway
midtrans_adapter = record { server_key = "key"; base_url = "" }

-- A hash that keeps the whole text.
abbrev hash : String → String
hash s = s

abbrev amount_of : String → ℤ
amount_of s = pos 10000

midtrans_parse_webhook-paid_example :
    (n : MidtransNotification) × (midtrans_json.notification "{}" ≡ some n)
    × (n.signature_key
        ≡ midtrans_signature ports midtrans_json hash amount_of env midtrans_adapter n.order_id
            n.status_code n.gross_amount)
    × ((n.transaction_status ≡ "settlement") ⊎ (n.transaction_status ≡ "capture"))
    × ((n.fraud_status ≡ "accept") ⊎ (n.fraud_status ≡ ""))
    × (settled.external_id ≡ n.order_id)
    × (settled.amount ≡ amount_of n.gross_amount)
unfolding midtrans_parse_webhook midtrans_signature midtrans_status
midtrans_parse_webhook-paid_example =
    midtrans_parse_webhook-paid ports midtrans_json hash amount_of env midtrans_adapter [] "{}"
      settled refl refl
