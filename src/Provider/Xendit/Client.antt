-- ===== src/Provider/Xendit/Client.antt =====
-- xendit/xendit.go: the requests, and the reading of answers.
use Prim.Native.String.{◌++◌ as append_text}
use wanpay.Base.{leb, nat_eq, ℤ, String, Option, none, some, List, [], ◌∷◌, ◌==◌, if◌then◌else◌}
use wanpay.Entity.Fee.{Time}
use wanpay.Entity.Payment.{PaymentStatus}
use wanpay.Entity.Disbursement.{DisbursementStatus}
use wanpay.Db.Error.{external, Result, err}
use wanpay.Db.Monad.{M, ◌>>=◌, lift, wrapped}
use wanpay.Provider.Http.{
  Json, Fields, text, num, obj, end, field, field_if, HttpRequest, HttpAnswer, Ports, unmarshalled,
}
use wanpay.Provider.Xendit.Types.{
  ApiError, XenditGateway, XenditJson, payment_status_of, disb_status_of,
}

module _ (ports : Ports) (json : XenditJson) (g : XenditGateway) where
  unfoldable pub map_payment_status : String → PaymentStatus
  map_payment_status s = payment_status_of (ports.to_upper s)

  unfoldable pub map_disb_status : String → DisbursementStatus
  map_disb_status s = disb_status_of (ports.to_upper s)

  abbrev authorization : String
  authorization = append_text "Basic " (ports.base64 (append_text g.secret_key ":"))

  abbrev base_url : String
  base_url = "https://api.xendit.co"

  abbrev pub request_v3 : String → String → Option Json → HttpRequest
  request_v3 method path body = record {
    method = method;
    url = append_text base_url path;
    headers =
        ("Content-Type", "application/json")
        ∷ ("Accept", "application/json")
        ∷ ("Authorization", authorization)
        ∷ ("api-version", "2024-11-11")
        ∷ [];
    body = elim body [ none ↦ none | some j ↦ some (ports.marshal j) ];
  }

  abbrev pub request_v2 : String → String → String → Option Json → HttpRequest
  request_v2 method path idempotency_key body = record {
    method = method;
    url = append_text base_url path;
    headers =
        ("Content-Type", "application/json")
        ∷ ("Accept", "application/json")
        ∷ ("Authorization", authorization)
        ∷ (if idempotency_key == "" then [] else ("Idempotency-key", idempotency_key) ∷ []);
    body = elim body [ none ↦ none | some j ↦ some (ports.marshal j) ];
  }

  abbrev format_of : List String → String
  format_of [] = "%s: %s"
  format_of (e ∷ rest) = "%s: %s — %v"

  -- An answer from 400 on is an error, with the API's message where it has one.
  abbrev refusal : Option ApiError → String
  refusal none = "HTTP %d: %s"
  refusal (some e) = if e.message == "" then "HTTP %d: %s" else format_of e.errors

  abbrev pub read_answer : {A : Type 0} → (String → Option A) → HttpAnswer → Result A
  read_answer decode answer =
      let read = unmarshalled (decode answer.body) in
      if leb 400 answer.status_code
      then err (external (refusal (json.api_error answer.body)))
      else read

  abbrev pub do_request : {A : Type 0} → (String → Option A) → HttpRequest → M A
  do_request decode req = do
    answer ← wrapped "xendit http" (ports.send req)
    lift (read_answer decode answer)

  -- 0 stands for the zero time.
  abbrev pub expires : Time → Fields → Fields
  expires t rest = if nat_eq t 0 then rest else field "expires_at" (text (ports.rfc3339 t)) rest

  abbrev pub payment_body : String → ℤ → String → Fields → String → Json
  payment_body reference_id amount channel_code channel_properties description = obj (
      field "reference_id" (text reference_id) (
        field "type" (text "PAY") (
          field "country" (text "ID") (
            field "currency" (text "IDR") (
              field "request_amount" (num amount) (
                field "channel_code" (text channel_code) (
                  field "channel_properties" (obj channel_properties)
                    (field_if "description" description end))))))))
