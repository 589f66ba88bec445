-- ===== src/Db/Fees.antt =====
-- internal/infrastructure/database/postgres/fee_repo.go: what the fee resolver reads.
use wanpay.Base.{ℕ, Bool, ◌&&◌, nat_eq, find}
use wanpay.Entity.Fee.{FeeDefault, PlatformMargin, FeeHoliday}
use wanpay.Db.Error.{row_or_none}
use wanpay.Db.Monad.{Env, M, query, wrapped}

unfoldable pub get_default : Env → M FeeDefault
get_default env = wrapped "get fee default" (query env (λ d. row_or_none d.fee_default))

unfoldable pub get_margin : Env → M PlatformMargin
get_margin env = wrapped "get platform margin" (query env (λ d. row_or_none d.platform_margin))

-- `date = $1 AND is_active = TRUE`
abbrev pub active_on : ℕ → FeeHoliday → Bool
active_on day h = nat_eq h.date day && h.is_active

unfoldable pub get_holiday_by_date : Env → ℕ → M FeeHoliday
get_holiday_by_date env day =
    wrapped "get holiday by date"
      (query env (λ d. row_or_none (find (active_on day) d.fee_holidays)))
