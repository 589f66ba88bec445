-- ===== src/Provider/Midtrans/Types.antt =====
-- midtrans/midtrans.go: the adapter's data, and what it reads from answers.
use wanpay.Base.{
  ℕ, ◌/◌, ◌-◌, leb, nat_eq, Bool, not, ◌&&◌, ◌||◌, String, Option, none, some, List, [], ◌∷◌, ◌==◌,
  if◌then◌else◌,
}
use wanpay.Entity.Fee.{Time}
use wanpay.Entity.Payment.{PaymentStatus}
use wanpay.Db.Error.{external, Result, ok, err}

pub record MidtransGateway : Type 0 where
  pub server_key : String
  pub base_url : String

pub record MidtransConfig : Type 0 where
  pub enabled : Bool
  pub server_key : String
  pub is_production : Bool

-- `none` where the provider is not enabled.
unfoldable pub new_midtrans : MidtransConfig → Result (Option MidtransGateway)
new_midtrans cfg =
    if not cfg.enabled
    then ok none
    else if cfg.server_key == ""
    then err (external "midtrans: server_key is required when enabled")
    else ok (
        some (record {
          server_key = cfg.server_key;
          base_url =
              if cfg.is_production
              then "https://api.midtrans.com"
              else "https://api.sandbox.midtrans.com";
        }))

pub record VaNum : Type 0 where
  pub bank : String
  pub va_number : String

pub record Action : Type 0 where
  pub name : String
  pub url : String

pub record ChargeResponse : Type 0 where
  pub status_code : String
  pub status_message : String
  pub order_id : String
  pub transaction_status : String
  pub gross_amount : String
  pub expiry_time : String
  pub va_numbers : List VaNum
  pub permata_va_number : String
  pub bill_key : String
  pub biller_code : String
  pub qr_string : String
  pub actions : List Action

pub record StatusResponse : Type 0 where
  pub transaction_status : String
  pub fraud_status : String
  pub status_code : String
  pub status_message : String

pub record MidtransNotification : Type 0 where
  pub order_id : String
  pub transaction_status : String
  pub fraud_status : String
  pub gross_amount : String
  pub status_code : String
  pub signature_key : String
  pub settlement_time : String

pub record MidtransJson : Type 0 where
  pub charge : String → Option ChargeResponse
  pub status : String → Option StatusResponse
  pub notification : String → Option MidtransNotification
  pub qr : String → Option String

unfoldable pub midtrans_status : String → String → PaymentStatus
midtrans_status tx_status fraud_status =
    if tx_status == "settlement" || tx_status == "capture"
    then (if fraud_status == "accept" || fraud_status == ""
        then PaymentStatus.paid
        else PaymentStatus.failed)
    else if tx_status == "pending"
    then PaymentStatus.pending
    else if tx_status == "expire"
    then PaymentStatus.expired
    else if tx_status == "cancel"
    then PaymentStatus.cancelled
    else PaymentStatus.failed

unfoldable pub assert_success : ChargeResponse → Result (Unit {0})
assert_success r =
    if not (r.status_code == "200") && not (r.status_code == "201")
    then err (external "status %s: %s")
    else ok tt

abbrev first_va : List VaNum → String
first_va [] = ""
first_va (v ∷ vs) = v.va_number

-- The number and the biller's code.
unfoldable pub extract_va_number : ChargeResponse → String → String × String
extract_va_number resp bank =
    if bank == "MANDIRI"
    then (resp.bill_key, resp.biller_code)
    else if bank == "PERMATA"
    then (resp.permata_va_number, "")
    else (first_va resp.va_numbers, "")

unfoldable pub find_action_url : String → List Action → String
find_action_url name [] = ""
find_action_url name (a ∷ rest) =
    let later = find_action_url name rest in if a.name == name then a.url else later

-- `int(time.Until(t).Minutes())`, with 1440 for less than one minute.
abbrev pub expiry_minutes : Time → Time → ℕ
expiry_minutes now t =
    let minutes = (t - now) / 60000000000 in if leb minutes 0 then 1440 else minutes

-- A time that does not parse, or is zero, gives way to that of the request.
abbrev pub or_time : Option Time → Time → Time
or_time none t = t
or_time (some e) t = if nat_eq e 0 then t else e
