-- ===== src/Db/Disbursements/Listing.antt =====
-- internal/infrastructure/database/postgres/disbursement_repo.go, List.
use wanpay.Base.{
  ℕ, leb, ℤ, Bool, true, false, ◌&&◌, String, Option, List, ◌≡◌, ◌==◌, ==_iff, arith, select, All,
  All-select, All-trivial, if◌then◌else◌,
}
use wanpay.Entity.Fee.{Time}
use wanpay.Entity.Disbursement.{Disbursement, disbursement_status_text}
use wanpay.Db.Pages.{optional, listed}
use wanpay.Db.Monad.{Env, M}

pub record ListDisbursementFilter : Type 0 where
  pub merchant_id : String
  pub status : Option String
  pub provider : Option String
  pub start_date : Option Time
  pub end_date : Option Time
  pub page : ℤ
  pub limit : ℤ

unfoldable pub matches_disbursement : ListDisbursementFilter → Disbursement → Bool
unfolding disbursement_status_text
matches_disbursement f d =
    (if f.merchant_id == "" then true else d.merchant_id == f.merchant_id)
    && optional (λ s. disbursement_status_text d.status == s) f.status
    && optional (λ v. d.provider == v) f.provider
    && optional (λ t. leb t d.created_at) f.start_date
    && optional (λ t. leb d.created_at t) f.end_date

unfoldable pub list_disbursement_rows : Env → ListDisbursementFilter → M (List Disbursement × ℕ)
list_disbursement_rows env f =
    listed env (λ d. d.created_at) "count disbursements" "list disbursements" f.page f.limit
      (λ d. select (matches_disbursement f) d.disbursements)

owned :
    (f : ListDisbursementFilter) (d : Disbursement)
    → (f.merchant_id == "") ≡ false
    → matches_disbursement f d ≡ true
    → d.merchant_id ≡ f.merchant_id
unfolding matches_disbursement
owned f d h m = ground (arith, ==_iff d.merchant_id f.merchant_id)

-- Under a merchant's filter no row of another merchant matches.
pub select_disbursements-owned :
    (f : ListDisbursementFilter) (rows : List Disbursement)
    → (f.merchant_id == "") ≡ false
    → All (λ d. d.merchant_id ≡ f.merchant_id) (select (matches_disbursement f) rows)
select_disbursements-owned f rows h =
    All-select (λ d. Unit {0}) (λ d. d.merchant_id ≡ f.merchant_id) (matches_disbursement f) rows
      (All-trivial rows) (λ d t m. owned f d h m)
