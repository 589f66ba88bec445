-- ===== src/Db/Audits.antt =====
-- internal/infrastructure/database/postgres/audit_repo.go, with the SQL of gen/audit.sql.go.
use wanpay.Base.{ℕ, List, [], ◌∷◌, ◌++◌, ◌==◌, if◌then◌else◌, any, String, select}
use wanpay.Entity.Audit.{PaymentAudit}
use wanpay.Db.Error.{SqlError, sql, Result, ok, err}
use wanpay.Db.Tables.{Db}
use wanpay.Db.Monad.{Env, M, statement, query, wrapped}
use wanpay.Db.Payments.{has_id}

-- The row of a record, with the generated columns.
abbrev pub audit_row : Env → PaymentAudit → ℕ → PaymentAudit
audit_row env a n = record a { id = env.uuid n; created_at = env.now }

unfoldable pub insert_payment_audit : Env → PaymentAudit → ℕ → Db → Result (PaymentAudit × Db)
insert_payment_audit env a n d =
    if any (has_id a.payment_id) d.payments
    then ok (audit_row env a n, record d { audits = d.audits ++ audit_row env a n ∷ [] })
    else err (sql SqlError.foreign_key_violation)

unfoldable pub save_audit : Env → PaymentAudit → M PaymentAudit
save_audit env a = wrapped "insert payment audit" (statement env (insert_payment_audit env a))

-- Rows are inserted in the order of their times.
unfoldable pub find_by_payment_id : Env → String → M (List PaymentAudit)
find_by_payment_id env id =
    wrapped "list payment audits"
      (query env (λ d. ok (select (λ (a : PaymentAudit). a.payment_id == id) d.audits)))
