-- ===== src/Entity/Fee.antt =====
-- internal/domain/entity/merchant.go (fees) and fee.go. A percentage is a float64: its bit pattern,
-- with the arithmetic of IEEE 754 as a parameter of what computes with it.
use wanpay.Base.{ℕ, ℤ, Bool, String}

-- Nanoseconds since the epoch.
abbrev pub Time : Type 0
Time = ℕ

abbrev pub Float64 : Type 0
Float64 = ℕ

-- `unset` is the empty string of a zero-initialised struct, `other` any other text in the JSON.
pub data FeeType : Type 0 where
  unset flat percentage : FeeType
  other : String → FeeType

pub record MethodFee : Type 0 where
  pub type : FeeType
  pub amount : ℤ
  pub percentage : Float64

pub record FeeConfig : Type 0 where
  pub va : MethodFee
  pub qris : MethodFee
  pub disbursement : MethodFee

pub record FeeDefault : Type 0 where
  pub id : String
  pub va : MethodFee
  pub qris : MethodFee
  pub disbursement : MethodFee
  pub updated_by : String
  pub updated_at : Time
  pub created_at : Time

pub record PlatformMargin : Type 0 where
  pub id : String
  pub enabled : Bool
  pub va : MethodFee
  pub qris : MethodFee
  pub disbursement : MethodFee
  pub updated_by : String
  pub updated_at : Time
  pub created_at : Time

pub data HolidayType : Type 0 where
  national custom : HolidayType

-- `date` counts days: a DATE has no time of day.
pub record FeeHoliday : Type 0 where
  pub id : String
  pub name : String
  pub date : ℕ
  pub type : HolidayType
  pub surcharge : MethodFee
  pub is_active : Bool
  pub created_by : String
  pub updated_by : String
  pub created_at : Time
  pub updated_at : Time
