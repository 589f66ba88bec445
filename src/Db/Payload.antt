-- ===== src/Db/Payload.antt =====
-- pkg/webhook/payload.go. The outbox holds the payload itself, not its JSON text.
use wanpay.Base.{ℤ, String, Option}
use wanpay.Entity.Fee.{Time}

pub record PaymentData : Type 0 where
  pub payment_id : String
  pub external_id : String
  pub merchant_id : String
  pub status : String
  pub method : String
  pub provider : String
  pub amount : ℤ
  pub fee_amount : ℤ
  pub net_amount : ℤ
  pub currency : String
  pub customer_name : String
  pub customer_email : String
  pub paid_at : Option Time
  pub created_at : Time

pub record DisbursementData : Type 0 where
  pub disbursement_id : String
  pub merchant_id : String
  pub status : String
  pub provider : String
  pub bank_code : String
  pub account_number : String
  pub account_name : String
  pub amount : ℤ
  pub fee_amount : ℤ
  pub currency : String
  pub completed_at : Option Time
  pub failed_at : Option Time
  pub failure_reason : String
  pub created_at : Time

pub data EventData : Type 0 where
  payment : PaymentData → EventData
  disbursement : DisbursementData → EventData

pub record Payload : Type 0 where
  pub event_type : String
  pub delivery_id : String
  pub created_at : Time
  pub event_data : EventData
