-- ===== src/Disbursement/Types.antt =====
-- internal/usecase/disbursement.go (inputs and outputs), and the port of a provider that pays out, of
-- internal/domain/gateway/gateway.go.
use wanpay.Base.{ℤ, String, Option, none, some, List}
use wanpay.Entity.Fee.{Time}
use wanpay.Entity.Disbursement.{Disbursement, DisbursementStatus}
use wanpay.Db.Error.{bad_request, Result}
use wanpay.Db.Monad.{M, pure, throw}

pub record DisburseInput : Type 0 where
  pub merchant_id : String
  pub provider : String
  pub bank_account_id : String
  pub amount : ℤ
  pub currency : String
  pub description : String

pub record DisbursementOutput : Type 0 where
  pub id : String
  pub external_id : String
  pub provider : String
  pub status : DisbursementStatus
  pub bank_code : String
  pub account_number : String
  pub account_name : String
  pub amount : ℤ
  pub fee_amount : ℤ
  pub currency : String
  pub description : String
  pub failure_reason : String
  pub completed_at : Option Time
  pub created_at : Time

unfoldable pub to_disbursement_output : Disbursement → DisbursementOutput
to_disbursement_output d = record {
  id = d.id;
  external_id = d.external_id;
  provider = d.provider;
  status = d.status;
  bank_code = d.bank_code;
  account_number = d.account_number;
  account_name = d.account_name;
  amount = d.amount;
  fee_amount = d.fee_amount;
  currency = d.currency;
  description = d.description;
  failure_reason = d.failure_reason;
  completed_at = d.completed_at;
  created_at = d.created_at;
}

pub record DisburseRequest : Type 0 where
  pub external_id : String
  pub bank_code : String
  pub account_number : String
  pub account_name : String
  pub amount : ℤ
  pub currency : String
  pub description : String

pub record DisburseResponse : Type 0 where
  pub external_id : String
  pub status : DisbursementStatus
  pub amount : ℤ

pub record DisbursementWebhookEvent : Type 0 where
  pub external_id : String
  pub status : DisbursementStatus
  pub failure_reason : String
  pub amount : ℤ
  pub raw_payload : String

-- As for payments, other requests may be served while the provider is asked.
pub record DisbursementGateway : Type 0 where
  pub disburse : DisburseRequest → M DisburseResponse
  pub parse_disbursement_webhook : List (String × String) → String → Result DisbursementWebhookEvent

abbrev pub DisbursementGateways : Type 0
DisbursementGateways = String → Option DisbursementGateway

abbrev enabled : Option DisbursementGateway → M DisbursementGateway
enabled none = throw (bad_request "provider %s does not support disbursement or is not enabled")
enabled (some gw) = pure gw

unfoldable pub disb_gateway : DisbursementGateways → String → M DisbursementGateway
disb_gateway gateways provider = enabled (gateways provider)
