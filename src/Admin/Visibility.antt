-- ===== src/Admin/Visibility.antt =====
-- ListAllPayments, GetPayment, ListAllDisbursements, GetDisbursement and ListAllMutations: the lists of
-- all merchants. `time.Parse(time.RFC3339, …)` is a parameter.
use wanpay.Base.{String, Option, none, map}
use wanpay.Entity.Fee.{Time}
use wanpay.Db.Monad.{Env, M, ◌>>=◌, pure, wrapped}
use wanpay.Db.Payments.{ListPaymentFilter, find_by_id, list}
use wanpay.Db.Disbursements.{
  ListDisbursementFilter, find_disbursement_by_id, list_disbursement_rows,
}
use wanpay.Db.Mutations.{ListMutationFilter, list_mutation_rows}
use wanpay.Payment.Types.{PaymentOutput, to_payment_output}
use wanpay.Payment.Read.{PaymentListOutput, given, parsed}
use wanpay.Disbursement.Types.{DisbursementOutput, to_disbursement_output}
use wanpay.Disbursement.Listing.{DisbursementListOutput}
use wanpay.Mutation.{MutationListOutput, to_mutation_output}
use wanpay.Admin.Types.{AdminPaymentFilter, AdminDisbursementFilter, AdminMutationFilter}
use wanpay.Admin.Shops.{normalize_pagination}

module _ (parse_time : String → Option Time) where
  unfoldable pub all_payments_filter : AdminPaymentFilter → ListPaymentFilter
  all_payments_filter filter = record {
    merchant_id = filter.merchant_id;
    status = given filter.status;
    method = none;
    provider = given filter.provider;
    start_date = parsed parse_time filter.start;
    end_date = parsed parse_time filter.end;
    page = filter.page;
    limit = filter.limit;
  }

  unfoldable pub all_disbursements_filter : AdminDisbursementFilter → ListDisbursementFilter
  all_disbursements_filter filter = record {
    merchant_id = filter.merchant_id;
    status = given filter.status;
    provider = given filter.provider;
    start_date = parsed parse_time filter.start;
    end_date = parsed parse_time filter.end;
    page = filter.page;
    limit = filter.limit;
  }

  unfoldable pub all_mutations_filter : AdminMutationFilter → ListMutationFilter
  all_mutations_filter filter = record {
    merchant_id = filter.merchant_id;
    type = given filter.type;
    start_date = parsed parse_time filter.start;
    end_date = parsed parse_time filter.end;
    page = filter.page;
    limit = filter.limit;
  }

  module _ (env : Env) where
    unfoldable pub list_all_payments : AdminPaymentFilter → M PaymentListOutput
    list_all_payments filter = do
      (payments, total) ← wrapped "list payments" (list env (all_payments_filter filter))
      let (page, limit) = normalize_pagination filter.page filter.limit
      pure (record {
        items = map to_payment_output payments;
        total = total;
        page = page;
        limit = limit;
      })

    unfoldable pub list_all_disbursements : AdminDisbursementFilter → M DisbursementListOutput
    list_all_disbursements filter = do
      (disbursements, total) ←
          wrapped "list disbursements"
            (list_disbursement_rows env (all_disbursements_filter filter))
      let (page, limit) = normalize_pagination filter.page filter.limit
      pure (record {
        items = map to_disbursement_output disbursements;
        total = total;
        page = page;
        limit = limit;
      })

    unfoldable pub list_all_mutations : AdminMutationFilter → M MutationListOutput
    list_all_mutations filter = do
      (mutations, total) ←
          wrapped "list mutations" (list_mutation_rows env (all_mutations_filter filter))
      let (page, limit) = normalize_pagination filter.page filter.limit
      pure (record {
        items = map to_mutation_output mutations;
        total = total;
        page = page;
        limit = limit;
      })

unfoldable pub admin_get_payment : Env → String → M PaymentOutput
admin_get_payment env payment_id = do p ← find_by_id env payment_id; pure (to_payment_output p)

unfoldable pub admin_get_disbursement : Env → String → M DisbursementOutput
admin_get_disbursement env disbursement_id = do
  d ← find_disbursement_by_id env disbursement_id
  pure (to_disbursement_output d)
