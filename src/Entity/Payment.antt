-- ===== src/Entity/Payment.antt =====
-- internal/domain/entity/payment.go.
use wanpay.Base.{
  ℤ, Bool, true, false, String, Option, none, some, List, [], ◌∷◌, ◌==◌, if◌then◌else◌,
}
use wanpay.Entity.Fee.{Time}

pub data PaymentStatus : Type 0 where
  pending cancelling paid expired failed cancelled : PaymentStatus

pub data PaymentMethod : Type 0 where
  va qris cc : PaymentMethod

-- `string(p.Status)` and `string(p.Method)`.
unfoldable pub status_text : PaymentStatus → String
status_text PaymentStatus.pending = "pending"
status_text PaymentStatus.cancelling = "cancelling"
status_text PaymentStatus.paid = "paid"
status_text PaymentStatus.expired = "expired"
status_text PaymentStatus.failed = "failed"
status_text PaymentStatus.cancelled = "cancelled"

unfoldable pub method_text : PaymentMethod → String
method_text PaymentMethod.va = "va"
method_text PaymentMethod.qris = "qris"
method_text PaymentMethod.cc = "cc"

-- A value of the `map[string]any`: a string, or something that is none.
pub data MetaValue : Type 0 where
  text : String → MetaValue
  other : MetaValue

pub record Payment : Type 0 where
  pub id : String
  pub merchant_id : String
  pub external_id : String
  pub provider_payment_id : String
  pub method : PaymentMethod
  pub provider : String
  pub status : PaymentStatus
  pub amount : ℤ
  pub fee_amount : ℤ
  pub currency : String
  pub description : String
  pub customer_name : String
  pub customer_email : String
  pub customer_phone : String
  pub va_number : String
  pub bank_code : String
  pub qr_string : String
  pub qr_image_url : String
  pub expiry_at : Time
  pub paid_at : Option Time
  pub failed_at : Option Time
  pub cancelled_at : Option Time
  pub created_at : Time
  pub updated_at : Time
  pub metadata : List (String × MetaValue)

abbrev pub is_final_status : PaymentStatus → Bool
is_final_status PaymentStatus.paid = true
is_final_status PaymentStatus.expired = true
is_final_status PaymentStatus.failed = true
is_final_status PaymentStatus.cancelled = true
is_final_status PaymentStatus.pending = false
is_final_status PaymentStatus.cancelling = false

abbrev pub is_pending_status : PaymentStatus → Bool
is_pending_status PaymentStatus.pending = true
is_pending_status _ = false

abbrev pub is_paid_status : PaymentStatus → Bool
is_paid_status PaymentStatus.paid = true
is_paid_status _ = false

unfoldable pub is_final : Payment → Bool
is_final p = is_final_status p.status

unfoldable pub can_cancel : Payment → Bool
can_cancel p = is_pending_status p.status

-- `p.Metadata["callback_url"].(string)`, with `none` where the map has no string there.
unfoldable pub metadata_string : String → List (String × MetaValue) → Option String
metadata_string key [] = none
metadata_string key ((k, MetaValue.text s) ∷ m) =
    let rest = metadata_string key m in if k == key then some s else rest
metadata_string key ((k, MetaValue.other) ∷ m) =
    let rest = metadata_string key m in if k == key then none else rest
