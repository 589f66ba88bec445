-- ===== src/Merchant/Types.antt =====
-- internal/usecase/merchant.go (inputs and outputs), with toMerchantOutput and toBankAccountOutput.
use wanpay.Base.{ℤ, Bool, String}
use wanpay.Entity.Fee.{Time, FeeConfig}
use wanpay.Entity.Merchant.{Merchant, MerchantStatus, MerchantBankAccount}

pub record CreateMerchantInput : Type 0 where
  pub name : String
  pub email : String
  pub phone : String
  pub webhook_url : String
  pub is_production : Bool
  pub fee_config : FeeConfig

pub record UpdateMerchantInput : Type 0 where
  pub merchant_id : String
  pub name : String
  pub email : String
  pub phone : String
  pub webhook_url : String

pub record AddBankAccountInput : Type 0 where
  pub merchant_id : String
  pub bank_code : String
  pub account_number : String
  pub account_name : String
  pub set_as_primary : Bool

pub record CreateMerchantOutput : Type 0 where
  pub id : String
  pub name : String
  pub status : MerchantStatus
  pub api_key : String
  pub webhook_secret : String
  pub created_at : Time

pub record MerchantOutput : Type 0 where
  pub id : String
  pub name : String
  pub email : String
  pub phone : String
  pub status : MerchantStatus
  pub fee_config : FeeConfig
  pub webhook_url : String
  pub balance : ℤ
  pub created_at : Time
  pub updated_at : Time

pub record BankAccountOutput : Type 0 where
  pub id : String
  pub bank_code : String
  pub account_number : String
  pub account_name : String
  pub is_primary : Bool
  pub is_verified : Bool
  pub created_at : Time

unfoldable pub to_merchant_output : Merchant → ℤ → MerchantOutput
to_merchant_output m balance = record {
  id = m.id;
  name = m.name;
  email = m.email;
  phone = m.phone;
  status = m.status;
  fee_config = m.fee_config;
  webhook_url = m.webhook_url;
  balance = balance;
  created_at = m.created_at;
  updated_at = m.updated_at;
}

unfoldable pub to_bank_account_output : MerchantBankAccount → BankAccountOutput
to_bank_account_output a = record {
  id = a.id;
  bank_code = a.bank_code;
  account_number = a.account_number;
  account_name = a.account_name;
  is_primary = a.is_primary;
  is_verified = a.is_verified;
  created_at = a.created_at;
}
