-- ===== src/Entity/Admin.antt =====
-- internal/domain/entity/admin.go, provider_balance.go and the audit log of fee.go. A role is a
-- string: the table allows three of them.
use wanpay.Base.{ℕ, ℤ, Bool, String, Option, List, ◌==◌}
use wanpay.Entity.Fee.{Time, MethodFee}

abbrev pub role_super_admin : String
role_super_admin = "super_admin"

abbrev pub role_ops : String
role_ops = "ops"

abbrev pub role_finance : String
role_finance = "finance"

pub record Admin : Type 0 where
  pub id : String
  pub email : String
  pub password_hash : String
  pub role : String
  pub is_active : Bool
  pub last_login_at : Option Time
  pub created_at : Time
  pub updated_at : Time

unfoldable pub is_super_admin : Admin → Bool
is_super_admin a = a.role == role_super_admin

pub record ProviderBalance : Type 0 where
  pub id : String
  pub provider : String
  pub balance_idr : ℤ
  pub last_reconciled_at : Option Time
  pub note : String
  pub created_at : Time
  pub updated_at : Time

-- A value of the `map[string]any` that a fee change is recorded with.
pub data AuditValue : Type 0 where
  fee : MethodFee → AuditValue
  flag : Bool → AuditValue
  text : String → AuditValue
  day : ℕ → AuditValue

abbrev pub AuditValues : Type 0
AuditValues = List (String × AuditValue)

pub record FeeAuditLog : Type 0 where
  pub id : String
  pub entity_type : String
  pub entity_id : String
  pub admin_id : String
  pub admin_email : String
  pub old_value : Option AuditValues
  pub new_value : AuditValues
  pub reason : String
  pub created_at : Time

abbrev pub audit_global_default : String
audit_global_default = "global_default"

abbrev pub audit_merchant_fee : String
audit_merchant_fee = "merchant_fee"

abbrev pub audit_platform_margin : String
audit_platform_margin = "platform_margin"

abbrev pub audit_holiday_surcharge : String
audit_holiday_surcharge = "holiday_surcharge"
