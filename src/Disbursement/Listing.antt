-- ===== src/Disbursement/Listing.antt =====
-- ListDisbursements of internal/usecase/impl/disbursement.go.
use wanpay.Base.{ℕ, ℤ, String, Option, none, List, map}
use wanpay.Entity.Fee.{Time}
use wanpay.Db.Monad.{Env, M, ◌>>=◌, pure}
use wanpay.Db.Disbursements.{ListDisbursementFilter, list_disbursement_rows}
use wanpay.Payment.Read.{given, parsed, safe_page, safe_limit}
use wanpay.Disbursement.Types.{DisbursementOutput, to_disbursement_output}

pub record ListDisbursementsInput : Type 0 where
  pub merchant_id : String
  pub status : String
  pub start_date : String
  pub end_date : String
  pub page : ℤ
  pub limit : ℤ

pub record DisbursementListOutput : Type 0 where
  pub items : List DisbursementOutput
  pub total : ℕ
  pub page : ℤ
  pub limit : ℤ

-- `time.Parse("2006-01-02", …)` is a parameter.
module _ (parse_date : String → Option Time) where
  unfoldable pub disbursement_filter : ListDisbursementsInput → ListDisbursementFilter
  disbursement_filter input = record {
    merchant_id = input.merchant_id;
    status = given input.status;
    provider = none;
    start_date = parsed parse_date input.start_date;
    end_date = parsed parse_date input.end_date;
    page = safe_page input.page;
    limit = safe_limit input.limit;
  }

  unfoldable pub list_disbursements : Env → ListDisbursementsInput → M DisbursementListOutput
  list_disbursements env input = do
    (disbursements, total) ← list_disbursement_rows env (disbursement_filter input)
    pure (record {
      items = map to_disbursement_output disbursements;
      total = total;
      page = safe_page input.page;
      limit = safe_limit input.limit;
    })
