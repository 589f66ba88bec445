-- ===== src/Admin/Fees/Defs.antt =====
-- UpdateMerchantFee, UpdateFeeDefault, UpdatePlatformMargin, CreateHoliday, UpdateHoliday, and what
-- they read back. No transaction is opened: each statement is committed by itself.
use wanpay.Base.{Bool, String, Option, none, some, [], ◌∷◌}
use wanpay.Entity.Fee.{FeeConfig, MethodFee, FeeDefault, PlatformMargin, FeeHoliday}
use wanpay.Entity.Admin.{
  AuditValue, AuditValues, FeeAuditLog, audit_global_default, audit_merchant_fee,
  audit_platform_margin, audit_holiday_surcharge,
}
use wanpay.Db.Monad.{Env, M, ◌>>=◌, wrapped}
use wanpay.Db.Merchants.{find_merchant_by_id}
use wanpay.Db.Accounts.{update_merchant}
use wanpay.Db.Fees.{get_default, get_margin}
use wanpay.Db.Admins.{find_admin_by_id}
use wanpay.Db.FeeWrites.{
  update_default, update_margin, create_holiday, update_holiday, write_audit_log,
}
use wanpay.Admin.Types.{SetMerchantFeeInput}

abbrev pub fee_values : MethodFee → MethodFee → MethodFee → AuditValues
fee_values va qris disbursement =
    ("va", AuditValue.fee va)
    ∷ ("qris", AuditValue.fee qris)
    ∷ ("disbursement", AuditValue.fee disbursement)
    ∷ []

abbrev pub audit_log :
    String → String → String → String → Option AuditValues → AuditValues → String → FeeAuditLog
audit_log entity_type entity_id admin_id admin_email old_value new_value reason = record {
  id = "";
  entity_type = entity_type;
  entity_id = entity_id;
  admin_id = admin_id;
  admin_email = admin_email;
  old_value = old_value;
  new_value = new_value;
  reason = reason;
  created_at = 0;
}

abbrev pub default_with : FeeDefault → FeeConfig → String → FeeDefault
default_with f fee admin_id = record f {
  va = fee.va;
  qris = fee.qris;
  disbursement = fee.disbursement;
  updated_by = admin_id;
}

abbrev pub margin_with : PlatformMargin → Bool → FeeConfig → String → PlatformMargin
margin_with m enabled margin admin_id = record m {
  enabled = enabled;
  va = margin.va;
  qris = margin.qris;
  disbursement = margin.disbursement;
  updated_by = admin_id;
}

module _ (env : Env) where
  unfoldable pub update_merchant_fee : SetMerchantFeeInput → M (Unit {0})
  update_merchant_fee input = do
    a ← find_admin_by_id env input.admin_id
    m ← find_merchant_by_id env input.merchant_id
    _ ←
        wrapped "update merchant fee"
          (update_merchant env (record m { fee_config = input.fee_config }))
    write_audit_log env (
        audit_log audit_merchant_fee input.merchant_id input.admin_id a.email
          (some (fee_values m.fee_config.va m.fee_config.qris m.fee_config.disbursement))
          (fee_values input.fee_config.va input.fee_config.qris input.fee_config.disbursement)
          input.reason)

  unfoldable pub update_fee_default : String → String → FeeConfig → M (Unit {0})
  update_fee_default admin_id reason fee = do
    a ← find_admin_by_id env admin_id
    f ← get_default env
    _ ← update_default env (default_with f fee admin_id)
    write_audit_log env (
        audit_log audit_global_default "singleton" admin_id a.email
          (some (fee_values f.va f.qris f.disbursement))
          (fee_values fee.va fee.qris fee.disbursement) reason)

  unfoldable pub update_platform_margin : String → String → Bool → FeeConfig → M (Unit {0})
  update_platform_margin admin_id reason enabled margin = do
    a ← find_admin_by_id env admin_id
    m ← get_margin env
    _ ← update_margin env (margin_with m enabled margin admin_id)
    write_audit_log env (
        audit_log audit_platform_margin "singleton" admin_id a.email
          (some (("enabled", AuditValue.flag m.enabled) ∷ fee_values m.va m.qris m.disbursement))
          (("enabled", AuditValue.flag enabled)
            ∷ fee_values margin.va margin.qris margin.disbursement)
          reason)

  unfoldable pub add_holiday : String → FeeHoliday → M (Unit {0})
  add_holiday admin_id h = do
    h' ← create_holiday env (record h { created_by = admin_id; updated_by = admin_id })
    write_audit_log env (
        audit_log audit_holiday_surcharge h'.id admin_id "" none
          (("name", AuditValue.text h.name)
            ∷ ("date", AuditValue.day h.date)
            ∷ ("surcharge", AuditValue.fee h.surcharge)
            ∷ [])
          "holiday created")

  unfoldable pub change_holiday : String → FeeHoliday → M (Unit {0})
  change_holiday admin_id h = do
    _ ← update_holiday env (record h { updated_by = admin_id })
    write_audit_log env (
        audit_log audit_holiday_surcharge h.id admin_id "" none
          (("name", AuditValue.text h.name)
            ∷ ("date", AuditValue.day h.date)
            ∷ ("is_active", AuditValue.flag h.is_active)
            ∷ ("surcharge", AuditValue.fee h.surcharge)
            ∷ [])
          "holiday updated")
