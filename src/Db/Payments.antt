-- ===== src/Db/Payments.antt =====
-- internal/infrastructure/database/postgres/payment_repo.go, with the SQL of gen/payment.sql.go and
-- the constraints of the table.
mod Filter
mod Pages
unfoldable pub use Filter.*
pub use Pages.*
use wanpay.Base.{
  ℕ, ℤ, pos, ltb_ℤ, leb_ℤ, Bool, true, false, not, ◌&&◌, ◌||◌, String, Option, none, some, List, [],
  ◌∷◌, ◌++◌, ◌==◌, if◌then◌else◌, find, any, update, length, select, nat_eq,
}
use wanpay.Entity.Fee.{Time}
use wanpay.Entity.Merchant.{Merchant}
use wanpay.Entity.Payment.{Payment, PaymentMethod, PaymentStatus}
use wanpay.Db.Error.{SqlError, sql, row_or_none, Result, ok, err}
use wanpay.Db.Tables.{Db}
use wanpay.Db.Pages.{listed}
use wanpay.Db.Monad.{Env, M, statement, query, wrapped, found, ◌>>=◌, pure}

is_provider : String → Bool
is_provider s = s == "midtrans" || s == "xendit" || s == "doku" || s == "ipaymu"

abbrev is_va : PaymentMethod → Bool
is_va PaymentMethod.va = true
is_va _ = false

abbrev is_qris : PaymentMethod → Bool
is_qris PaymentMethod.qris = true
is_qris _ = false

-- chk_payment_amount to chk_qris_fields; the statuses and methods have no other values.
unfoldable pub payment_checks : Payment → Bool
unfolding is_provider
payment_checks p =
    ltb_ℤ (pos 0) p.amount
    && (leb_ℤ (pos 0) p.fee_amount && leb_ℤ p.fee_amount p.amount)
    && is_provider p.provider
    && p.currency == "IDR"
    && (not (is_va p.method) || (not (p.va_number == "") && not (p.bank_code == "")))
    && (not (is_qris p.method) || not (p.qr_string == ""))

-- uq_payment_external_id
abbrev pub same_reference : String → String → Payment → Bool
same_reference provider external_id p = p.provider == provider && p.external_id == external_id

abbrev pub has_id : String → Payment → Bool
has_id id p = p.id == id

unfoldable pub insert_payment : Env → Payment → ℕ → Db → Result (Payment × Db)
insert_payment env p n d =
    let row = record p {
      id = env.uuid n;
      paid_at = none;
      failed_at = none;
      cancelled_at = none;
      created_at = env.now;
      updated_at = env.now;
    } in
    if not (payment_checks row)
    then err (sql SqlError.check_violation)
    else if any (same_reference p.provider p.external_id) d.payments
    then err (sql SqlError.unique_violation)
    else if not (any (λ (m : Merchant). m.id == p.merchant_id) d.merchants)
    then err (sql SqlError.foreign_key_violation)
    else ok (row, record d { payments = d.payments ++ row ∷ [] })

-- The columns that `UPDATE payments SET …` writes.
abbrev pub written : Env → Payment → Payment → Payment
written env p row = record row {
  status = p.status;
  fee_amount = p.fee_amount;
  paid_at = p.paid_at;
  failed_at = p.failed_at;
  cancelled_at = p.cancelled_at;
  updated_at = env.now;
}

unfoldable pub update_payment_status : Env → Payment → ℕ → Db → Result (Payment × Db)
update_payment_status env p n d = elim (find (has_id p.id) d.payments) [
  | none ↦ err (sql SqlError.no_rows)
  | some row ↦
      if payment_checks (written env p row)
      then ok (
        written env p row,
        record d { payments = update (has_id p.id) (written env p) d.payments },
      )
      else err (sql SqlError.check_violation)
]

-- Save sets the generated columns of its argument: the entity comes back with them.
unfoldable pub save : Env → Payment → M Payment
save env p = wrapped "insert payment" (statement env (insert_payment env p))

unfoldable pub find_by_id : Env → String → M Payment
find_by_id env id =
    found "payment %s not found" "get payment by id"
      (query env (λ d. row_or_none (find (has_id id) d.payments)))

-- `SELECT … FOR UPDATE`: until the transaction ends no other one can write the row.
unfoldable pub find_by_id_for_update : Env → String → M Payment
find_by_id_for_update env id =
    found "payment %s not found" "get payment for update"
      (query env (λ d. row_or_none (find (has_id id) d.payments)))

unfoldable pub find_by_external_id : Env → String → String → M Payment
find_by_external_id env provider external_id =
    found "payment with external_id %s not found" "get payment by external_id"
      (query env (λ d. row_or_none (find (same_reference provider external_id) d.payments)))

unfoldable pub update_payment : Env → Payment → M Payment
update_payment env p = wrapped "update payment status" (statement env (update_payment_status env p))

-- The number of the rows that match, and those of one page.
unfoldable pub list : Env → ListPaymentFilter → M (List Payment × ℕ)
list env f =
    listed env (λ p. p.created_at) "count payments" "list payments" f.page f.limit
      (λ d. select (matches f) d.payments)
