-- ===== src/Admin/Types.antt =====
-- internal/usecase/admin.go (inputs and outputs) and toAdminOutput.
use wanpay.Base.{ℕ, ℤ, Bool, String, Option, List}
use wanpay.Entity.Fee.{Time, FeeConfig}
use wanpay.Entity.Admin.{Admin}
use wanpay.Merchant.{MerchantOutput}

pub record AdminLoginInput : Type 0 where
  pub email : String
  pub password : String

-- `expires_at` counts nanoseconds, as `Time` does; a lifetime may be negative.
pub record AdminTokenOutput : Type 0 where
  pub access_token : String
  pub refresh_token : String
  pub expires_at : ℤ

pub record CreateAdminInput : Type 0 where
  pub requester_id : String
  pub email : String
  pub password : String
  pub role : String

pub record AdminOutput : Type 0 where
  pub id : String
  pub email : String
  pub role : String
  pub is_active : Bool
  pub last_login_at : Option Time
  pub created_at : Time

pub record SetMerchantFeeInput : Type 0 where
  pub merchant_id : String
  pub admin_id : String
  pub fee_config : FeeConfig
  pub reason : String

pub record AdminListMerchantsFilter : Type 0 where
  pub status : String
  pub search : String
  pub page : ℤ
  pub limit : ℤ

pub record AdminPaymentFilter : Type 0 where
  pub merchant_id : String
  pub status : String
  pub provider : String
  pub start : String
  pub end : String
  pub page : ℤ
  pub limit : ℤ

pub record AdminDisbursementFilter : Type 0 where
  pub merchant_id : String
  pub status : String
  pub provider : String
  pub start : String
  pub end : String
  pub page : ℤ
  pub limit : ℤ

pub record AdminMutationFilter : Type 0 where
  pub merchant_id : String
  pub type : String
  pub start : String
  pub end : String
  pub page : ℤ
  pub limit : ℤ

pub record MerchantListOutput : Type 0 where
  pub items : List MerchantOutput
  pub total : ℕ
  pub page : ℤ
  pub limit : ℤ

-- internal/infrastructure/config: what the use case reads of AdminConfig.
pub record AdminConfig : Type 0 where
  pub jwt_secret : String
  pub access_token_ttl_hours : ℤ
  pub refresh_token_ttl_hours : ℤ

unfoldable pub to_admin_output : Admin → AdminOutput
to_admin_output a = record {
  id = a.id;
  email = a.email;
  role = a.role;
  is_active = a.is_active;
  last_login_at = a.last_login_at;
  created_at = a.created_at;
}
