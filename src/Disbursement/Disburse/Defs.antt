-- ===== src/Disbursement/Disburse/Defs.antt =====
-- Disburse: the funds are reserved in a transaction, then the provider is asked to pay.
use wanpay.Base.{ℤ, pos, add64, sub64, ltb_ℤ, not, String, none, ◌==◌, if◌then◌else◌}
use wanpay.Entity.Merchant.{Merchant, MerchantBankAccount, can_transact}
use wanpay.Entity.Disbursement.{Disbursement, DisbursementStatus}
use wanpay.Db.Error.{forbidden, not_found, unprocessable_entity, wrap, Result, ok, err}
use wanpay.Db.Monad.{Env, M, ◌>>=◌, ◌>>◌, pure, throw, throw_if, attempt, wrapped, run_in_tx}
use wanpay.Db.Merchants.{find_merchant_by_id, find_bank_account_by_id, lock_merchant}
use wanpay.Db.Mutations.{get_balance}
use wanpay.Db.Disbursements.{
  save_disbursement, update_disbursement, sum_pending_disbursements, sum_disbursements_today,
}
use wanpay.Fee.{FloatOps, FeeResolution, no_resolution, resolve_disbursement}
use wanpay.Payment.Types.{external_id}
use wanpay.Disbursement.Types.{
  DisburseInput, DisburseRequest, DisburseResponse, DisbursementOutput, DisbursementGateways,
  disb_gateway, to_disbursement_output,
}

-- The pending record, before it is saved.
unfoldable pub reservation : DisburseInput → MerchantBankAccount → ℤ → Disbursement
reservation input account fee = record {
  id = "";
  merchant_id = input.merchant_id;
  external_id = "";
  provider = input.provider;
  status = DisbursementStatus.pending;
  bank_code = account.bank_code;
  account_number = account.account_number;
  account_name = account.account_name;
  amount = input.amount;
  fee_amount = fee;
  currency = input.currency;
  description = input.description;
  failure_reason = "";
  completed_at = none;
  failed_at = none;
  created_at = 0;
  updated_at = 0;
}

unfoldable pub disburse_request : String → DisburseInput → MerchantBankAccount → DisburseRequest
disburse_request reference input account = record {
  external_id = reference;
  bank_code = account.bank_code;
  account_number = account.account_number;
  account_name = account.account_name;
  amount = input.amount;
  currency = input.currency;
  description = input.description;
}

-- An error of the resolver leaves the zero resolution.
abbrev pub resolved_or_zero : Result FeeResolution → FeeResolution
resolved_or_zero (ok res) = res
resolved_or_zero (err _) = no_resolution

module _ (env : Env) where
  unfoldable pub check_daily_limit : Merchant → DisburseInput → M (Unit {0})
  check_daily_limit merchant input =
      if ltb_ℤ (pos 0) merchant.daily_cashout_limit
      then (do
        today_total ← wrapped "check daily limit" (sum_disbursements_today env input.merchant_id)
        throw_if (ltb_ℤ merchant.daily_cashout_limit (add64 today_total input.amount))
            (unprocessable_entity "daily cashout limit exceeded"))
      else pure tt

  -- The body of the transaction that reserves the funds.
  unfoldable pub reserve : Merchant → MerchantBankAccount → DisburseInput → ℤ → M Disbursement
  unfolding check_daily_limit
  reserve merchant account input fee = do
    _ ← lock_merchant env input.merchant_id
    balance ← wrapped "get balance" (get_balance env input.merchant_id)
    pending ← wrapped "sum pending disbursements" (sum_pending_disbursements env input.merchant_id)
    throw_if (ltb_ℤ (sub64 balance pending) input.amount)
        (unprocessable_entity "insufficient balance")
    check_daily_limit merchant input
    save_disbursement env (reservation input account fee)

  -- The provider's answer: a failure releases the funds, a success is stored.
  unfoldable pub conclude : Disbursement → Result DisburseResponse → M DisbursementOutput
  conclude d (err e) = do
    _ ← attempt (
        update_disbursement env
          (record d { status = DisbursementStatus.failed; failure_reason = env.error_text e }))
    throw (wrap "disburse via %s" e)
  conclude d (ok resp) =
      let d' = record d { external_id = resp.external_id; status = resp.status } in
      (do
        _ ← wrapped "update disbursement after provider" (update_disbursement env d')
        pure (to_disbursement_output d'))

  module _ (ops : FloatOps) (gateways : DisbursementGateways) where
    unfoldable pub disburse : DisburseInput → M DisbursementOutput
    disburse input = do
      merchant ← find_merchant_by_id env input.merchant_id
      throw_if (not (can_transact merchant)) (forbidden "merchant account is not active")
      account ← find_bank_account_by_id env input.bank_account_id
      throw_if (not (account.merchant_id == input.merchant_id))
          (not_found "bank account %s not found")
      throw_if (not account.is_verified)
          (unprocessable_entity "bank account %s is not verified — contact admin to verify")
      gw ← disb_gateway gateways input.provider
      fee_res ← attempt (resolve_disbursement ops env merchant input.amount)
      d ← run_in_tx env (reserve merchant account input (resolved_or_zero fee_res).total_fee)
      ext_id ← external_id env
      answer ← attempt (gw.disburse (disburse_request ext_id input account))
      conclude d answer
