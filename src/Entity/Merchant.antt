-- ===== src/Entity/Merchant.antt =====
-- internal/domain/entity/merchant.go: merchants and their bank accounts.
use wanpay.Base.{ℕ, ℤ, Bool, true, false, String, Option, not, ◌&&◌, ◌==◌}
use wanpay.Entity.Fee.{Time, FeeConfig}

pub data MerchantStatus : Type 0 where
  pending active suspended inactive : MerchantStatus

abbrev pub max_bank_accounts : ℕ
max_bank_accounts = 3

pub record MerchantBankAccount : Type 0 where
  pub id : String
  pub merchant_id : String
  pub bank_code : String
  pub account_number : String
  pub account_name : String
  pub is_primary : Bool
  pub is_verified : Bool
  pub created_at : Time
  pub updated_at : Time

pub record Merchant : Type 0 where
  pub id : String
  pub name : String
  pub email : String
  pub phone : String
  pub status : MerchantStatus
  pub api_key : String
  pub webhook_url : String
  pub webhook_secret : String
  pub webhook_signing_key : String
  pub fee_config : FeeConfig
  pub is_production : Bool
  pub daily_cashout_limit : ℤ
  pub deleted_at : Option Time
  pub created_at : Time
  pub updated_at : Time

abbrev pub is_active_status : MerchantStatus → Bool
is_active_status MerchantStatus.active = true
is_active_status _ = false

unfoldable pub is_active : Merchant → Bool
is_active m = is_active_status m.status

unfoldable pub can_transact : Merchant → Bool
can_transact m = is_active_status m.status && not (m.webhook_url == "")
