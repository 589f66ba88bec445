-- ===== src/Db/Disbursements/Defs.antt =====
-- internal/infrastructure/database/postgres/disbursement_repo.go, with the SQL of
-- gen/disbursement.sql.go and the constraints of the table.
use wanpay.Base.{
  ℕ, ℤ, pos, ltb_ℤ, leb_ℤ, leb, Bool, true, false, not, ◌&&◌, ◌||◌, String, none, some, List, [],
  ◌∷◌, ◌++◌, ◌==◌, if◌then◌else◌, find, any, update, select,
}
use wanpay.Entity.Merchant.{Merchant}
use wanpay.Entity.Disbursement.{Disbursement, DisbursementStatus, is_failed}
use wanpay.Db.Error.{SqlError, sql, row_or_none, Result, ok, err}
use wanpay.Db.Tables.{Db, sum_by}
use wanpay.Db.Monad.{Env, M, statement, query, wrapped, found}
use wanpay.Db.Mutations.{as_bigint}

unfoldable pub is_provider : String → Bool
is_provider s = s == "midtrans" || s == "xendit" || s == "doku" || s == "ipaymu"

-- chk_disbursement_bank_code
unfoldable pub is_bank_code : String → Bool
is_bank_code s =
    s == "BCA"
    || s == "BNI"
    || s == "BRI"
    || s == "BSI"
    || s == "MANDIRI"
    || s == "PERMATA"
    || s == "CIMB"

-- chk_disbursement_amount to chk_disbursement_bank_code
unfoldable pub disbursement_checks : Disbursement → Bool
unfolding is_provider
disbursement_checks d =
    ltb_ℤ (pos 0) d.amount
    && (leb_ℤ (pos 0) d.fee_amount && leb_ℤ d.fee_amount d.amount)
    && is_provider d.provider
    && d.currency == "IDR"
    && is_bank_code d.bank_code

-- uq_disbursement_external_id; rows with no reference do not count.
abbrev pub same_disbursement : String → String → Disbursement → Bool
same_disbursement provider external_id d =
    not (external_id == "") && d.provider == provider && d.external_id == external_id

abbrev pub has_disbursement_id : String → Disbursement → Bool
has_disbursement_id id d = d.id == id

unfoldable pub insert_disbursement : Env → Disbursement → ℕ → Db → Result (Disbursement × Db)
insert_disbursement env x n d =
    let row = record x {
      id = env.uuid n;
      failure_reason = "";
      completed_at = none;
      failed_at = none;
      created_at = env.now;
      updated_at = env.now;
    } in
    if not (disbursement_checks row)
    then err (sql SqlError.check_violation)
    else if any (same_disbursement x.provider x.external_id) d.disbursements
    then err (sql SqlError.unique_violation)
    else if not (any (λ (m : Merchant). m.id == x.merchant_id) d.merchants)
    then err (sql SqlError.foreign_key_violation)
    else ok (row, record d { disbursements = d.disbursements ++ row ∷ [] })

abbrev pub disbursement_written : Env → Disbursement → Disbursement → Disbursement
disbursement_written env x row = record row {
  status = x.status;
  external_id = x.external_id;
  failure_reason = x.failure_reason;
  completed_at = x.completed_at;
  failed_at = x.failed_at;
  updated_at = env.now;
}

unfoldable pub update_disbursement_status : Env → Disbursement → ℕ → Db → Result (Disbursement × Db)
update_disbursement_status env x n d = elim (find (has_disbursement_id x.id) d.disbursements) [
  | none ↦ err (sql SqlError.no_rows)
  | some row ↦
      if any (λ y. not (y.id == x.id) && same_disbursement row.provider x.external_id y)
        d.disbursements
      then err (sql SqlError.unique_violation)
      else ok (
        disbursement_written env x row,
        record d {
          disbursements =
              update (has_disbursement_id x.id) (disbursement_written env x) d.disbursements;
        },
      )
]

unfoldable pub save_disbursement : Env → Disbursement → M Disbursement
save_disbursement env d = wrapped "insert disbursement" (statement env (insert_disbursement env d))

unfoldable pub find_disbursement_by_id : Env → String → M Disbursement
find_disbursement_by_id env id =
    found "disbursement %s not found" "get disbursement by id"
      (query env (λ d. row_or_none (find (has_disbursement_id id) d.disbursements)))

abbrev pub same_external : String → String → Disbursement → Bool
same_external provider external_id d = d.provider == provider && d.external_id == external_id

-- No index makes the empty reference unique; the first row stands for the one that is returned.
unfoldable pub find_disbursement_by_external_id : Env → String → String → M Disbursement
find_disbursement_by_external_id env provider external_id =
    found "disbursement with external_id %s not found" "get disbursement by external_id"
      (query env (λ d. row_or_none (find (same_external provider external_id) d.disbursements)))

unfoldable pub update_disbursement : Env → Disbursement → M Disbursement
update_disbursement env d =
    wrapped "update disbursement" (statement env (update_disbursement_status env d))

abbrev pub is_in_flight : DisbursementStatus → Bool
is_in_flight DisbursementStatus.pending = true
is_in_flight DisbursementStatus.processing = true
is_in_flight _ = false

-- `merchant_id = $1 AND status IN ('pending', 'processing')`
abbrev pub in_flight : String → Disbursement → Bool
in_flight merchant_id d = d.merchant_id == merchant_id && is_in_flight d.status

-- `merchant_id = $1 AND status NOT IN ('failed', 'cancelled') AND created_at >= …`
abbrev pub counts_today : Env → String → Disbursement → Bool
counts_today env merchant_id d =
    d.merchant_id == merchant_id && not (is_failed d.status) && leb env.day_start d.created_at

abbrev pub amount_of : Disbursement → ℤ
amount_of d = d.amount

unfoldable pub pending_total : String → List Disbursement → ℤ
pending_total merchant_id ds = sum_by amount_of (select (in_flight merchant_id) ds)

unfoldable pub today_total : Env → String → List Disbursement → ℤ
today_total env merchant_id ds = sum_by amount_of (select (counts_today env merchant_id) ds)

unfoldable pub sum_pending_disbursements : Env → String → M ℤ
unfolding pending_total as_bigint
sum_pending_disbursements env merchant_id =
    wrapped "sum pending disbursements"
      (query env (λ d. as_bigint (pending_total merchant_id d.disbursements)))

unfoldable pub sum_disbursements_today : Env → String → M ℤ
unfolding today_total as_bigint
sum_disbursements_today env merchant_id =
    wrapped "sum disbursements today"
      (query env (λ d. as_bigint (today_total env merchant_id d.disbursements)))
