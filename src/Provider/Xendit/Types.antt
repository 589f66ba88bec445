-- ===== src/Provider/Xendit/Types.antt =====
-- xendit/xendit.go: the adapter's data, and the tables of channels and statuses.
use wanpay.Base.{ℤ, Bool, not, ◌||◌, String, Option, none, some, List, [], ◌∷◌, ◌==◌, if◌then◌else◌}
use wanpay.Entity.Payment.{PaymentStatus}
use wanpay.Entity.Disbursement.{DisbursementStatus}
use wanpay.Db.Error.{external, Result, ok, err}

abbrev either : Bool → String → Option String → Option String
either here code rest = if here then some code else rest

unfoldable pub va_channel_code : String → Option String
va_channel_code bank = either (bank == "BCA") "BCA_VIRTUAL_ACCOUNT" (
    either (bank == "BNI") "BNI_VIRTUAL_ACCOUNT" (
      either (bank == "BRI") "BRI_VIRTUAL_ACCOUNT" (
        either (bank == "BSI") "BSI_VIRTUAL_ACCOUNT" (
          either (bank == "MANDIRI") "MANDIRI_VIRTUAL_ACCOUNT" (
            either (bank == "PERMATA") "PERMATA_VIRTUAL_ACCOUNT"
              (either (bank == "CIMB") "CIMB_VIRTUAL_ACCOUNT" none))))))

unfoldable pub disb_channel_code : String → Option String
disb_channel_code bank = either (bank == "BCA") "ID_BCA" (
    either (bank == "BNI") "ID_BNI" (
      either (bank == "BRI") "ID_BRI" (
        either (bank == "BSI") "ID_BSI" (
          either (bank == "MANDIRI") "ID_MANDIRI"
            (either (bank == "PERMATA") "ID_PERMATA" (either (bank == "CIMB") "ID_CIMB" none))))))

pub record XenditGateway : Type 0 where
  pub secret_key : String
  pub webhook_token : String

pub record XenditConfig : Type 0 where
  pub enabled : Bool
  pub secret_key : String
  pub webhook_token : String

-- `none` where the provider is not enabled.
unfoldable pub new_xendit : XenditConfig → Result (Option XenditGateway)
new_xendit cfg =
    if not cfg.enabled
    then ok none
    else if cfg.secret_key == ""
    then err (external "xendit: secret_key is required when enabled")
    else ok (some (record { secret_key = cfg.secret_key; webhook_token = cfg.webhook_token }))

pub record PaymentRequestAction : Type 0 where
  pub type : String
  pub descriptor : String
  pub value : String

pub record PaymentRequestResponse : Type 0 where
  pub payment_request_id : String
  pub reference_id : String
  pub status : String
  pub request_amount : ℤ
  pub channel_code : String
  pub actions : List PaymentRequestAction

pub record PaymentNotification : Type 0 where
  pub event : String
  pub payment_request_id : String
  pub reference_id : String
  pub status : String
  pub amount : ℤ
  pub channel_code : String

pub record DisbResponse : Type 0 where
  pub id : String
  pub status : String
  pub amount : ℤ

pub record DisbNotification : Type 0 where
  pub event : String
  pub id : String
  pub reference_id : String
  pub status : String
  pub amount : ℤ
  pub failure_code : String

pub record ApiError : Type 0 where
  pub message : String
  pub errors : List String

-- `json.Unmarshal` into each of these types.
pub record XenditJson : Type 0 where
  pub payment_request : String → Option PaymentRequestResponse
  pub payment_notification : String → Option PaymentNotification
  pub disb_response : String → Option DisbResponse
  pub disb_notification : String → Option DisbNotification
  pub api_error : String → Option ApiError

unfoldable pub find_action : String → List PaymentRequestAction → String
find_action descriptor [] = ""
find_action descriptor (a ∷ rest) =
    let later = find_action descriptor rest in if a.descriptor == descriptor then a.value else later

unfoldable pub payment_status_of : String → PaymentStatus
payment_status_of s =
    if s == "SUCCEEDED"
    then PaymentStatus.paid
    else if s == "REQUIRES_ACTION" || s == "ACCEPTING_PAYMENTS" || s == "AUTHORIZED"
    then PaymentStatus.pending
    else if s == "EXPIRED"
    then PaymentStatus.expired
    else if s == "CANCELED"
    then PaymentStatus.cancelled
    else PaymentStatus.failed

unfoldable pub disb_status_of : String → DisbursementStatus
disb_status_of s =
    if s == "ACCEPTED" || s == "REQUESTED"
    then DisbursementStatus.processing
    else if s == "SUCCEEDED"
    then DisbursementStatus.completed
    else if s == "FAILED" || s == "CANCELLED" || s == "REVERSED"
    then DisbursementStatus.failed
    else DisbursementStatus.pending
