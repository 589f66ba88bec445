-- ===== src/Payment/Read/Defs.antt =====
-- GetPayment and ListPayments.
use wanpay.Base.{ℕ, ℤ, pos, leb_ℤ, not, String, Option, none, some, List, map, ◌==◌, if◌then◌else◌}
use wanpay.Entity.Fee.{Time}
use wanpay.Db.Error.{not_found}
use wanpay.Db.Monad.{Env, M, ◌>>=◌, ◌>>◌, pure, throw_if}
use wanpay.Db.Payments.{ListPaymentFilter, find_by_id, list}
use wanpay.Payment.Types.{PaymentOutput, to_payment_output}

pub record ListPaymentsInput : Type 0 where
  pub merchant_id : String
  pub status : String
  pub provider : String
  pub method : String
  pub start_date : String
  pub end_date : String
  pub page : ℤ
  pub limit : ℤ

pub record PaymentListOutput : Type 0 where
  pub items : List PaymentOutput
  pub total : ℕ
  pub page : ℤ
  pub limit : ℤ

-- The empty text is no filter.
abbrev pub given : String → Option String
given s = if s == "" then none else some s

abbrev pub safe_page : ℤ → ℤ
safe_page page = if leb_ℤ page (pos 0) then pos 1 else page

abbrev pub safe_limit : ℤ → ℤ
safe_limit limit =
    let l = if leb_ℤ limit (pos 0) then pos 20 else limit in
    if leb_ℤ l (pos 100) then l else pos 100

-- `time.Parse("2006-01-02", …)` is a parameter; a date that does not parse is no filter.
module _ (parse_date : String → Option Time) where
  abbrev pub parsed : String → Option Time
  parsed s = if s == "" then none else parse_date s

  unfoldable pub payment_filter : ListPaymentsInput → ListPaymentFilter
  payment_filter input = record {
    merchant_id = input.merchant_id;
    status = given input.status;
    method = given input.method;
    provider = given input.provider;
    start_date = parsed input.start_date;
    end_date = parsed input.end_date;
    page = safe_page input.page;
    limit = safe_limit input.limit;
  }

  module _ (env : Env) where
    unfoldable pub list_payments : ListPaymentsInput → M PaymentListOutput
    list_payments input = do
      (payments, total) ← list env (payment_filter input)
      pure (record {
        items = map to_payment_output payments;
        total = total;
        page = safe_page input.page;
        limit = safe_limit input.limit;
      })

unfoldable pub get_payment : Env → String → String → M PaymentOutput
get_payment env merchant_id payment_id = do
  p ← find_by_id env payment_id
  throw_if (not (p.merchant_id == merchant_id)) (not_found "payment %s not found")
  pure (to_payment_output p)
