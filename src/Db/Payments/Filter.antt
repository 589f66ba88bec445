-- ===== src/Db/Payments/Filter.antt =====
-- internal/infrastructure/database/postgres/payment_repo.go, List: the conditions of a filter.
use wanpay.Base.{leb, ℤ, Bool, true, ◌&&◌, String, Option, ◌==◌, if◌then◌else◌}
use wanpay.Entity.Fee.{Time}
use wanpay.Db.Pages.{optional}
use wanpay.Entity.Payment.{Payment, status_text, method_text}

-- The texts of a filter are compared with the columns' texts.
pub record ListPaymentFilter : Type 0 where
  pub merchant_id : String
  pub status : Option String
  pub method : Option String
  pub provider : Option String
  pub start_date : Option Time
  pub end_date : Option Time
  pub page : ℤ
  pub limit : ℤ

unfoldable pub matches : ListPaymentFilter → Payment → Bool
unfolding status_text method_text
matches f p =
    (if f.merchant_id == "" then true else p.merchant_id == f.merchant_id)
    && optional (λ s. status_text p.status == s) f.status
    && optional (λ m. method_text p.method == m) f.method
    && optional (λ v. p.provider == v) f.provider
    && optional (λ t. leb t p.created_at) f.start_date
    && optional (λ t. leb p.created_at t) f.end_date
