-- ===== src/Provider/Midtrans/Defs.antt =====
-- midtrans/midtrans.go: the core API v2. `sha512` is the hash in hexadecimal, and `parse_int` what
-- strconv.ParseInt gives of the text before the first dot.
use Prim.Native.String.{◌++◌ as append_text}
use wanpay.Base.{ℤ, pos, not, ◌&&◌, String, Option, none, some, [], ◌∷◌, ◌==◌, if◌then◌else◌}
use wanpay.Entity.Fee.{Time}
use wanpay.Entity.Payment.{PaymentStatus, is_paid_status}
use wanpay.Db.Error.{external, wrap, Result, ok, err}
use wanpay.Db.Monad.{Env, M, ◌>>=◌, ◌>>◌, pure, attempt, lift, wrapped}
use wanpay.Payment.Types.{
  CreateVaRequest, CreateVaResponse, CreateQrisRequest, CreateQrisResponse, WebhookEvent, Headers,
  PaymentGateway,
}
use wanpay.Provider.Http.{
  Json, Fields, text, num, obj, end, field, HttpRequest, HttpAnswer, Ports, unmarshalled,
}
use wanpay.Provider.Midtrans.Types.{
  MidtransGateway, MidtransNotification, MidtransJson, midtrans_status, assert_success,
  extract_va_number, find_action_url, expiry_minutes, or_time,
}

module _ (ports : Ports) (json : MidtransJson) (sha512 : String → String) where
  module _ (parse_int : String → ℤ) (env : Env) (g : MidtransGateway) where
    abbrev authorization : String
    authorization = append_text "Basic " (ports.base64 (append_text g.server_key ":"))

    abbrev pub midtrans_do : {A : Type 0} → (String → Option A) → HttpRequest → M A
    midtrans_do decode req = do
      answer ← wrapped "midtrans http" (ports.send req)
      lift (unmarshalled (decode answer.body))

    abbrev pub midtrans_post : {A : Type 0} → (String → Option A) → String → Option Json → M A
    midtrans_post decode path body = midtrans_do decode (record {
      method = "POST";
      url = append_text g.base_url path;
      headers =
          ("Content-Type", "application/json")
          ∷ ("Accept", "application/json")
          ∷ ("Authorization", authorization)
          ∷ [];
      body = elim body [ none ↦ none | some j ↦ some (ports.marshal j) ];
    })

    abbrev pub midtrans_get : {A : Type 0} → (String → Option A) → String → M A
    midtrans_get decode path = midtrans_do decode (record {
      method = "GET";
      url = append_text g.base_url path;
      headers = ("Accept", "application/json") ∷ ("Authorization", authorization) ∷ [];
      body = none;
    })

    abbrev customer : String → String → String → Json
    customer name email phone = obj (
        field "first_name" (text name)
          (field "email" (text email) (field "phone" (text phone) end)))

    abbrev transaction : String → ℤ → Json
    transaction order_id amount =
        obj (field "order_id" (text order_id) (field "gross_amount" (num amount) end))

    -- What depends on the bank.
    abbrev bank_fields : CreateVaRequest → Fields
    bank_fields req =
        if req.bank_code == "MANDIRI"
        then field "payment_type" (text "echannel") (
            field "echannel"
              (obj (
                field "bill_info1" (text req.description)
                  (field "bill_info2" (text "Payment") end)))
              end)
        else field "payment_type" (text "bank_transfer") (
            field "bank_transfer" (obj (field "bank" (text (ports.to_lower req.bank_code)) end))
              end)

    unfoldable pub build_va_request : CreateVaRequest → Json
    build_va_request req = obj (
        field "transaction_details" (transaction req.external_id req.amount) (
          field "customer_details"
            (customer req.customer_name req.customer_email req.customer_phone)
            (field "custom_expiry"
              (obj (
                field "expiry_duration" (num (pos (expiry_minutes env.now req.expiry_at)))
                  (field "unit" (text "minute") end)))
              (bank_fields req))))

    unfoldable pub midtrans_create_va : CreateVaRequest → M CreateVaResponse
    midtrans_create_va req = do
      resp ← midtrans_post json.charge "/v2/charge" (some (build_va_request req))
      wrapped "midtrans create_va" (lift (assert_success resp))
      let (va_number, biller_code) = extract_va_number resp req.bank_code
      pure (record {
        external_id = resp.order_id;
        provider_payment_id = resp.order_id;
        va_number = va_number;
        biller_code = biller_code;
        bank_code = req.bank_code;
        amount = req.amount;
        expiry_at = or_time (ports.parse_date_time resp.expiry_time) req.expiry_at;
      })

    abbrev qr_of : Result HttpAnswer → String
    qr_of (err e) = ""
    qr_of (ok answer) = elim (json.qr answer.body) [ none ↦ "" | some s ↦ s ]

    -- What fails here is only logged.
    unfoldable pub fetch_qr_string : String → M String
    fetch_qr_string url = do
      answer ← attempt (
          ports.send (record {
            method = "GET";
            url = url;
            headers = ("Authorization", authorization) ∷ [];
            body = none;
          }))
      pure (qr_of answer)

    abbrev qr_or_fetched : String → String → M String
    qr_or_fetched qr_string url w =
        if qr_string == "" && not (url == "") then fetch_qr_string url w else (ok qr_string, w)

    unfoldable pub midtrans_create_qris : CreateQrisRequest → M CreateQrisResponse
    midtrans_create_qris req = do
      resp ← midtrans_post json.charge "/v2/charge" (
          some (
            obj (
              field "payment_type" (text "qris") (
                field "transaction_details" (transaction req.external_id req.amount) (
                  field "customer_details"
                    (customer req.customer_name req.customer_email req.customer_phone)
                    (field "qris" (obj (field "acquirer" (text "gopay") end)) end))))))
      wrapped "midtrans create_qris" (lift (assert_success resp))
      qr_string ← qr_or_fetched resp.qr_string (find_action_url "generate-qr-code" resp.actions)
      pure (record {
        external_id = resp.order_id;
        provider_payment_id = resp.order_id;
        qr_string = qr_string;
        qr_image_url = find_action_url "generate-qr-code" resp.actions;
        amount = req.amount;
        expiry_at = req.expiry_at;
      })

    unfoldable pub midtrans_cancel_payment : String → M (Unit {0})
    midtrans_cancel_payment id = do
      resp ← midtrans_post json.charge (append_text "/v2/" (append_text id "/cancel")) none
      wrapped "midtrans cancel" (lift (assert_success resp))

    unfoldable pub midtrans_get_status : String → M PaymentStatus
    midtrans_get_status id = do
      resp ← midtrans_get json.status (append_text "/v2/" (append_text id "/status"))
      pure (midtrans_status resp.transaction_status resp.fraud_status)

    unfoldable pub midtrans_signature : String → String → String → String
    midtrans_signature order_id status_code gross_amount =
        sha512
          (append_text order_id (append_text status_code (append_text gross_amount g.server_key)))

    abbrev paid_time : PaymentStatus → String → Option Time
    paid_time status settlement_time =
        if is_paid_status status && not (settlement_time == "")
        then ports.parse_date_time settlement_time
        else none

    abbrev midtrans_event : String → MidtransNotification → WebhookEvent
    midtrans_event body n = record {
      external_id = n.order_id;
      status = midtrans_status n.transaction_status n.fraud_status;
      paid_at = paid_time (midtrans_status n.transaction_status n.fraud_status) n.settlement_time;
      amount = parse_int n.gross_amount;
      raw_payload = body;
    }

    abbrev signed_event : String → Option MidtransNotification → Result WebhookEvent
    signed_event body none = err (wrap "midtrans webhook: unmarshal" (external "json"))
    signed_event body (some n) =
        if not (midtrans_signature n.order_id n.status_code n.gross_amount == n.signature_key)
        then err (external "midtrans webhook: invalid signature")
        else ok (midtrans_event body n)

    unfoldable pub midtrans_parse_webhook : Headers → String → Result WebhookEvent
    midtrans_parse_webhook headers body = signed_event body (json.notification body)

    abbrev pub midtrans_payments : PaymentGateway
    midtrans_payments = record {
      create_va = midtrans_create_va;
      create_qris = midtrans_create_qris;
      cancel_payment = midtrans_cancel_payment;
      parse_webhook = midtrans_parse_webhook;
    }
