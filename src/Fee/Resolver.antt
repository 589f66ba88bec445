-- ===== src/Fee/Resolver.antt =====
-- The fee of one transaction: the merchant's contract or the global default, the platform's margin,
-- and a surcharge on holidays.
use wanpay.Base.{
  ℤ, pos, add64, ltb_ℤ, is_zero_ℤ, Bool, true, false, ◌&&◌, ◌||◌, String, if◌then◌else◌,
}
use wanpay.Entity.Fee.{
  Float64, FeeType, MethodFee, FeeConfig, FeeDefault, PlatformMargin, FeeHoliday,
}
use wanpay.Entity.Merchant.{Merchant}
use wanpay.Entity.Payment.{PaymentMethod}
use wanpay.Db.Error.{Result, ok, err}
use wanpay.Db.Monad.{Env, M, ◌>>=◌, pure, attempt, wrapped}
use wanpay.Db.Fees.{get_default, get_margin, get_holiday_by_date}

-- The operations of Go's float64 that the code uses, on bit patterns; `to_int64` is the conversion
-- `int64(x)`, and `is_zero` the comparison with the constant 0.
pub record FloatOps : Type 0 where
  pub of_int64 : ℤ → Float64
  pub mul : Float64 → Float64 → Float64
  pub div : Float64 → Float64 → Float64
  pub to_int64 : Float64 → ℤ
  pub is_zero : Float64 → Bool

-- The bit pattern of 100.
abbrev pub hundred : Float64
hundred = 0x4059000000000000

abbrev pub zero_fee : MethodFee
zero_fee = record { type = FeeType.unset; amount = pos 0; percentage = 0 }

pub data FeeSource : Type 0 where
  no_source merchant_contract global_default : FeeSource

pub record FeeResolution : Type 0 where
  pub base_fee : ℤ
  pub platform_margin : ℤ
  pub holiday_surcharge : ℤ
  pub total_fee : ℤ
  pub source : FeeSource
  pub holiday_name : String

-- `FeeResolution{}`
abbrev pub no_resolution : FeeResolution
no_resolution = record {
  base_fee = pos 0;
  platform_margin = pos 0;
  holiday_surcharge = pos 0;
  total_fee = pos 0;
  source = FeeSource.no_source;
  holiday_name = "";
}

abbrev is_unset : FeeType → Bool
is_unset FeeType.unset = true
is_unset _ = false

module _ (ops : FloatOps) where
  fee_of_type : FeeType → MethodFee → ℤ → ℤ
  fee_of_type FeeType.flat mf amount = if ltb_ℤ amount mf.amount then amount else mf.amount
  fee_of_type FeeType.percentage mf amount =
      ops.to_int64 (ops.div (ops.mul (ops.of_int64 amount) mf.percentage) hundred)
  fee_of_type FeeType.unset mf amount = pos 0
  fee_of_type (FeeType.other t) mf amount = pos 0

  unfoldable pub compute_method_fee : MethodFee → ℤ → ℤ
  unfolding fee_of_type
  compute_method_fee mf amount = fee_of_type mf.type mf amount

  unfoldable pub is_zero_fee : MethodFee → Bool
  is_zero_fee f = is_unset f.type || (is_zero_ℤ f.amount && ops.is_zero f.percentage)

  abbrev contracted : PaymentMethod → FeeConfig → MethodFee
  contracted PaymentMethod.va c = c.va
  contracted PaymentMethod.qris c = c.qris
  contracted PaymentMethod.cc c = zero_fee

  abbrev defaulted : PaymentMethod → FeeDefault → MethodFee
  defaulted PaymentMethod.va d = d.va
  defaulted PaymentMethod.qris d = d.qris
  defaulted PaymentMethod.cc d = zero_fee

  -- The first `switch` of `merchantFee`: no contract is looked at for a card.
  has_contract : PaymentMethod → Merchant → Bool
  unfolding is_zero_fee
  has_contract PaymentMethod.va m = if is_zero_fee m.fee_config.va then false else true
  has_contract PaymentMethod.qris m = if is_zero_fee m.fee_config.qris then false else true
  has_contract PaymentMethod.cc m = false

  unfoldable pub margin_fee : PlatformMargin → PaymentMethod → MethodFee
  margin_fee m PaymentMethod.va = m.va
  margin_fee m PaymentMethod.qris = m.qris
  margin_fee m PaymentMethod.cc = zero_fee

  -- The holiday's surcharge and its name; any error, no row too, means that there is none.
  holiday_part : Result FeeHoliday → ℤ → ℤ × String
  unfolding compute_method_fee
  holiday_part (ok h) amount =
      if h.is_active then (compute_method_fee h.surcharge amount, h.name) else (pos 0, "")
  holiday_part (err e) amount = (pos 0, "")

  -- `BaseFee + PlatformMargin + HolidaySurcharge` on int64.
  unfoldable pub compose : FeeSource → ℤ → ℤ → ℤ × String → FeeResolution
  compose source base margin (surcharge, name) = record {
    base_fee = base;
    platform_margin = margin;
    holiday_surcharge = surcharge;
    total_fee = add64 (add64 base margin) surcharge;
    source = source;
    holiday_name = name;
  }

  module _ (env : Env) where
    unfoldable pub merchant_fee : Merchant → PaymentMethod → M (MethodFee × FeeSource)
    unfolding has_contract
    merchant_fee m method =
        if has_contract method m
        then pure (contracted method m.fee_config, FeeSource.merchant_contract)
        else (do
          def ← wrapped "get fee default" (get_default env)
          pure (defaulted method def, FeeSource.global_default))

    unfoldable pub resolve : Merchant → PaymentMethod → ℤ → M FeeResolution
    unfolding holiday_part
    resolve m method amount = do
      (fee, source) ← merchant_fee m method
      margin ← wrapped "get platform margin" (get_margin env)
      holiday ← attempt (get_holiday_by_date env env.today)
      pure (
          compose source (compute_method_fee fee amount)
            (if margin.enabled then compute_method_fee (margin_fee margin method) amount else pos 0)
            (holiday_part holiday amount))

    disbursement_fee : Merchant → M (MethodFee × FeeSource)
    disbursement_fee m =
        if is_zero_fee m.fee_config.disbursement
        then (do
          def ← wrapped "get fee default" (get_default env)
          pure (def.disbursement, FeeSource.global_default))
        else pure (m.fee_config.disbursement, FeeSource.merchant_contract)

    unfoldable pub resolve_disbursement : Merchant → ℤ → M FeeResolution
    unfolding disbursement_fee holiday_part
    resolve_disbursement m amount = do
      (fee, source) ← disbursement_fee m
      margin ← wrapped "get platform margin" (get_margin env)
      holiday ← attempt (get_holiday_by_date env env.today)
      pure (
          compose source (compute_method_fee fee amount)
            (if margin.enabled then compute_method_fee margin.disbursement amount else pos 0)
            (holiday_part holiday amount))
