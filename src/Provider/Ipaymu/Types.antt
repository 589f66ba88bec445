-- ===== src/Provider/Ipaymu/Types.antt =====
-- ipaymu/ipaymu.go: the adapter's data, the bodies of its requests, and its statuses.
use Prim.Native.String.{◌++◌ as append_text}
use wanpay.Base.{ℕ, ℤ, pos, Bool, not, ◌||◌, String, Option, none, some, ◌==◌, if◌then◌else◌}
use wanpay.Entity.Fee.{Time}
use wanpay.Entity.Payment.{PaymentStatus}
use wanpay.Db.Error.{external, Result, ok, err}
use wanpay.Provider.Http.{Json, text, num, arr, obj, nil, cons, end, field, field_if}

pub record IpaymuConfig : Type 0 where
  pub enabled : Bool
  pub api_key : String
  pub va : String
  pub notify_url : String
  pub webhook_secret : String
  pub is_production : Bool

pub record IpaymuGateway : Type 0 where
  pub api_key : String
  pub va : String
  pub base_url : String
  pub notify_url : String
  pub webhook_secret : String

abbrev base_url_of : IpaymuConfig → String
base_url_of cfg =
    if cfg.is_production
    then "https://my.ipaymu.com/api/v2"
    else "https://sandbox.ipaymu.com/api/v2"

-- The webhook's secret is appended to the address that is notified.
abbrev notify_url_of : IpaymuConfig → String
notify_url_of cfg =
    let url =
      if cfg.notify_url == "" then append_text (base_url_of cfg) "/notify" else cfg.notify_url in
    if cfg.webhook_secret == ""
    then url
    else append_text url (append_text "?wt=" cfg.webhook_secret)

-- `none` where the provider is not enabled.
unfoldable pub new_ipaymu : IpaymuConfig → Result (Option IpaymuGateway)
new_ipaymu cfg =
    if not cfg.enabled
    then ok none
    else if cfg.api_key == "" || cfg.va == ""
    then err (external "ipaymu: api_key and va are required when enabled")
    else ok (
        some (record {
          api_key = cfg.api_key;
          va = cfg.va;
          base_url = base_url_of cfg;
          notify_url = notify_url_of cfg;
          webhook_secret = cfg.webhook_secret;
        }))

abbrev either : Bool → String → Option String → Option String
either here code rest = if here then some code else rest

unfoldable pub va_channel : String → Option String
va_channel bank = either (bank == "BCA") "bca" (
    either (bank == "BNI") "bni" (
      either (bank == "BRI") "bri" (
        either (bank == "BSI") "bsi" (
          either (bank == "MANDIRI") "mandiri"
            (either (bank == "PERMATA") "permata" (either (bank == "CIMB") "cimb" none))))))

pub record IpaymuPayment : Type 0 where
  pub status : ℕ
  pub message : String
  pub session_id : String
  pub reference_id : String
  pub payment_no : String
  pub qr_string : String
  pub qr_image : String

pub record IpaymuNotification : Type 0 where
  pub reference_id : String
  pub status_code : String
  pub status : String
  pub amount : ℤ
  pub created_at : String

-- `json.Unmarshal` into the answers and the notification; of a transaction only PaidStatus is read.
pub record IpaymuJson : Type 0 where
  pub payment : String → Option IpaymuPayment
  pub paid_status : String → Option String
  pub notification : String → Option IpaymuNotification

unfoldable pub ipaymu_status_of : String → PaymentStatus
ipaymu_status_of s =
    if s == "paid" || s == "settled" || s == "1"
    then PaymentStatus.paid
    else if s == "pending" || s == "waiting" || s == "0"
    then PaymentStatus.pending
    else if s == "expired" || s == "2"
    then PaymentStatus.expired
    else if s == "cancelled" || s == "3"
    then PaymentStatus.cancelled
    else PaymentStatus.failed

abbrev one : Json → Json
one j = arr (cons j nil)

unfoldable pub build_body :
    (Time → String)
    → String
    → ℤ
    → String
    → String
    → String
    → String
    → Time
    → String
    → String
    → String
    → Json
build_body date_time description amount name email phone reference_id expiry_at method channel
      notify_url =
    let shown = if description == "" then reference_id else description in
    obj (
      field "product" (one (text shown)) (
        field "qty" (one (num (pos 1))) (
          field "price" (one (num amount)) (
            field "amount" (num amount) (
              field "description" (one (text shown)) (
                field "referenceId" (text reference_id) (
                  field "expiredDate" (text (date_time expiry_at)) (
                    field "paymentMethod" (text method) (
                      field "paymentChannel" (text channel) (
                        field "notifyUrl" (text notify_url) (
                          field_if "name" name
                            (field_if "email" email (field_if "phone" phone end)))))))))))))
