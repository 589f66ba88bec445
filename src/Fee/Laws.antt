-- ===== src/Fee/Laws.antt =====
-- What a resolved fee is made of.
use wanpay.Base.{
  ℕ, ℤ, pos, ◌≤ℤ◌, add64, ◌≡◌, inl, inr, false, arith, Option-cases, Option, none, some, find,
  find_sound, suc, if◌then◌else◌,
}
use wanpay.Entity.Fee.{FeeType, MethodFee, PlatformMargin, FeeHoliday}
use wanpay.Entity.Merchant.{Merchant}
use wanpay.Entity.Payment.{PaymentMethod}
use wanpay.Db.Error.{ok}
use wanpay.Db.Monad.{Env, World, statement, query}
use wanpay.Db.Fees.{get_default, get_margin, get_holiday_by_date, active_on}
use wanpay.Fee.Resolver.{
  FloatOps, FeeSource, FeeResolution, compute_method_fee, is_zero_fee, margin_fee, compose,
  merchant_fee, resolve,
}

module _ (ops : FloatOps) where
  -- A flat fee that is not negative takes at most the amount itself.
  pub flat_fee_bounds :
      (mf : MethodFee) (amount : ℤ)
      → mf.type ≡ FeeType.flat
      → pos 0 ≤ℤ mf.amount
      → pos 0 ≤ℤ amount
      → (pos 0 ≤ℤ compute_method_fee ops mf amount)
        × (compute_method_fee ops mf amount ≤ℤ amount)
        × (compute_method_fee ops mf amount ≤ℤ mf.amount)
  unfolding compute_method_fee
  flat_fee_bounds mf amount t h k = ground arith

  module _ (env : Env) where
    -- Resolving a fee only reads.
    pub resolve-db :
        (m : Merchant) (method : PaymentMethod) (amount : ℤ) (w : World)
        → (resolve ops env m method amount w).1.db ≡ w.db
    unfolding resolve merchant_fee get_default get_margin get_holiday_by_date query
    resolve-db m method amount w = ground arith

module _ (ops : FloatOps) (env : Env) where
  -- What a day's holiday adds.
  abbrev pub surcharge_of : Option FeeHoliday → ℤ → ℤ
  surcharge_of none amount = pos 0
  surcharge_of (some h) amount = compute_method_fee ops h.surcharge amount

  -- A resolved fee is the sum of its parts on int64: the base, the platform's margin if that is
  -- enabled, and the surcharge of the day's active holiday. The premise: no statement fails.
  pub resolve-parts :
      (m : Merchant) (method : PaymentMethod) (amount : ℤ) (margin : PlatformMargin)
      → (res : FeeResolution) (w : World) → w.db.platform_margin ≡ some margin
      → ((n : ℕ) → env.statement_fails n ≡ false)
      → (resolve ops env m method amount w).0 ≡ ok res
      → (res.total_fee ≡ add64 (add64 res.base_fee res.platform_margin) res.holiday_surcharge)
        × (res.platform_margin ≡ (
            if margin.enabled
            then compute_method_fee ops (margin_fee ops margin method) amount
            else pos 0))
        × (res.holiday_surcharge
            ≡ surcharge_of (find (active_on env.today) w.db.fee_holidays) amount)
  unfolding resolve merchant_fee get_default get_margin get_holiday_by_date query statement compose
  resolve-parts m method amount margin res w e up h =
      elim (Option-cases (find (active_on env.today) w.db.fee_holidays)) [
        | inl no_holiday ↦ ground (arith, up w.clock, up (suc w.clock), up (suc (suc w.clock)))
        | inr (x, day) ↦ ground (
          arith,
          up w.clock,
          up (suc w.clock),
          up (suc (suc w.clock)),
          find_sound (active_on env.today) w.db.fee_holidays x day,
        )
      ]

  -- A merchant's own contract for virtual accounts comes before the global default, which is not even
  -- read.
  pub resolve-contract :
      (m : Merchant) (amount : ℤ) (res : FeeResolution) (w : World)
      → is_zero_fee ops m.fee_config.va ≡ false
      → (resolve ops env m PaymentMethod.va amount w).0 ≡ ok res
      → (res.source ≡ FeeSource.merchant_contract)
        × (res.base_fee ≡ compute_method_fee ops m.fee_config.va amount)
  unfolding resolve merchant_fee get_default get_margin get_holiday_by_date query compose
  resolve-contract m amount res w c h = ground arith

  -- A resolution reads the fee tables alone.
  pub resolve-frame :
      (m : Merchant) (method : PaymentMethod) (amount : ℤ) (w v : World)
      → v.db.fee_default ≡ w.db.fee_default
      → v.db.platform_margin ≡ w.db.platform_margin
      → v.db.fee_holidays ≡ w.db.fee_holidays
      → v.clock ≡ w.clock
      → (resolve ops env m method amount v).0 ≡ (resolve ops env m method amount w).0
  unfolding resolve merchant_fee get_default get_margin get_holiday_by_date query statement
  resolve-frame m method amount w v a b c e = ground (arith, a, b, c, e)
