-- ===== src/Entity/Disbursement.antt =====
-- internal/domain/entity/disbursement.go.
use wanpay.Base.{ℤ, Bool, true, false, String, Option}
use wanpay.Entity.Fee.{Time}

pub data DisbursementStatus : Type 0 where
  pending processing completed failed : DisbursementStatus

unfoldable pub disbursement_status_text : DisbursementStatus → String
disbursement_status_text DisbursementStatus.pending = "pending"
disbursement_status_text DisbursementStatus.processing = "processing"
disbursement_status_text DisbursementStatus.completed = "completed"
disbursement_status_text DisbursementStatus.failed = "failed"

pub record Disbursement : Type 0 where
  pub id : String
  pub merchant_id : String
  pub external_id : String
  pub provider : String
  pub status : DisbursementStatus
  pub bank_code : String
  pub account_number : String
  pub account_name : String
  pub amount : ℤ
  pub fee_amount : ℤ
  pub currency : String
  pub description : String
  pub failure_reason : String
  pub completed_at : Option Time
  pub failed_at : Option Time
  pub created_at : Time
  pub updated_at : Time

abbrev pub is_completed : DisbursementStatus → Bool
is_completed DisbursementStatus.completed = true
is_completed _ = false

abbrev pub is_failed : DisbursementStatus → Bool
is_failed DisbursementStatus.failed = true
is_failed _ = false

abbrev pub is_final_disbursement_status : DisbursementStatus → Bool
is_final_disbursement_status DisbursementStatus.completed = true
is_final_disbursement_status DisbursementStatus.failed = true
is_final_disbursement_status _ = false

unfoldable pub is_final_disbursement : Disbursement → Bool
is_final_disbursement d = is_final_disbursement_status d.status
