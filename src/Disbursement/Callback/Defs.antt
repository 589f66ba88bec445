-- ===== src/Disbursement/Callback/Defs.antt =====
-- HandleDisbursementCallback and GetDisbursement.
use Prim.Native.String.{◌++◌ as append_text}
use wanpay.Base.{pos, add64, not, String, List, ◌==◌, if◌then◌else◌}
use wanpay.Entity.Merchant.{Merchant}
use wanpay.Entity.Disbursement.{
  Disbursement, is_completed, is_final_disbursement, disbursement_status_text,
}
use wanpay.Entity.Mutation.{Mutation, MutationType, MutationReferenceType}
use wanpay.Db.Error.{not_found}
use wanpay.Db.Payload.{Payload, EventData}
use wanpay.Db.Monad.{Env, M, ◌>>=◌, ◌>>◌, pure, lift, throw_if, wrapped, run_in_tx}
use wanpay.Db.Merchants.{find_merchant_by_id}
use wanpay.Db.Mutations.{save_mutation}
use wanpay.Db.Disbursements.{
  find_disbursement_by_id, find_disbursement_by_external_id, update_disbursement,
}
use wanpay.Db.Outbox.{insert_event}
use wanpay.Disbursement.Types.{
  DisbursementWebhookEvent, DisbursementOutput, DisbursementGateways, disb_gateway,
  to_disbursement_output,
}

unfoldable pub apply_callback : Disbursement → DisbursementWebhookEvent → Disbursement
apply_callback d event = record d { status = event.status; failure_reason = event.failure_reason }

-- The debit of a completed disbursement includes its fee.
abbrev pub cash_out : Disbursement → Mutation
cash_out d = record {
  id = "";
  reference_id = d.id;
  reference_type = MutationReferenceType.disbursement;
  merchant_id = d.merchant_id;
  type = MutationType.cash_out;
  amount = add64 d.amount d.fee_amount;
  fee_amount = pos 0;
  currency = d.currency;
  description =
      append_text "Disbursement to " (append_text d.bank_code (append_text " " d.account_number));
  created_at = 0;
}

abbrev pub event_name : Disbursement → String
event_name d = append_text "disbursement." (disbursement_status_text d.status)

abbrev pub disbursement_payload : Env → Disbursement → Payload
disbursement_payload env d = record {
  event_type = event_name d;
  delivery_id = "";
  created_at = env.now;
  event_data = EventData.disbursement (record {
    disbursement_id = d.id;
    merchant_id = d.merchant_id;
    status = disbursement_status_text d.status;
    provider = d.provider;
    bank_code = d.bank_code;
    account_number = d.account_number;
    account_name = d.account_name;
    amount = d.amount;
    fee_amount = d.fee_amount;
    currency = d.currency;
    completed_at = d.completed_at;
    failed_at = d.failed_at;
    failure_reason = d.failure_reason;
    created_at = d.created_at;
  });
}

module _ (env : Env) where
  unfoldable pub debit_if_completed : Disbursement → M (Unit {0})
  debit_if_completed d =
      if is_completed d.status then (do _ ← save_mutation env (cash_out d); pure tt) else pure tt

  unfoldable pub notify_merchant : Disbursement → Merchant → M (Unit {0})
  notify_merchant d merchant = if merchant.webhook_url == "" then pure tt else (do
    _ ←
        insert_event env (event_name d) merchant.webhook_url merchant.id
          (disbursement_payload env d)
    pure tt)

  unfoldable pub record_callback : Disbursement → Merchant → M (Unit {0})
  record_callback d merchant =
      run_in_tx env
        (do _ ← update_disbursement env d; debit_if_completed d; notify_merchant d merchant)

  module _ (gateways : DisbursementGateways) where
    unfoldable pub handle_disbursement_callback :
        String → List (String × String) → String → M (Unit {0})
    handle_disbursement_callback provider headers body = do
      gw ← disb_gateway gateways provider
      event ←
          wrapped "parse disbursement webhook" (lift (gw.parse_disbursement_webhook headers body))
      d ←
          wrapped "find disbursement"
            (find_disbursement_by_external_id env provider event.external_id)
      (if is_final_disbursement d then pure tt else (do
        merchant ← wrapped "find merchant" (find_merchant_by_id env d.merchant_id)
        record_callback (apply_callback d event) merchant))

  unfoldable pub get_disbursement : String → String → M DisbursementOutput
  get_disbursement merchant_id disbursement_id = do
    d ← find_disbursement_by_id env disbursement_id
    throw_if (not (d.merchant_id == merchant_id)) (not_found "disbursement %s not found")
    pure (to_disbursement_output d)
