-- ===== src/Worker/Expiry/Defs.antt =====
-- expirePayments: one statement that expires the payments and audits each.
use wanpay.Base.{ℕ, suc, ltb, Bool, ◌&&◌, some, List, [], ◌∷◌, ◌++◌, select, update, length}
use wanpay.Entity.Payment.{Payment, PaymentStatus, is_pending_status}
use wanpay.Entity.Audit.{PaymentAudit, AuditEventType}
use wanpay.Db.Error.{Result, ok}
use wanpay.Db.Tables.{Db}
use wanpay.Db.Monad.{Env, M, statement}

-- `status = 'pending' AND expiry_at < NOW()`
abbrev pub is_overdue : Env → Payment → Bool
is_overdue env p = is_pending_status p.status && ltb p.expiry_at env.now

abbrev pub expired_row : Env → Payment → Payment
expired_row env p = record p { status = PaymentStatus.expired; updated_at = env.now }

unfoldable pub expiry_audits : Env → ℕ → ℕ → List Payment → List PaymentAudit
expiry_audits env n k [] = []
expiry_audits env n k (p ∷ ps) =
    record {
      id = env.row_uuid n k;
      payment_id = p.id;
      event_type = AuditEventType.payment_expired;
      old_status = some PaymentStatus.pending;
      new_status = PaymentStatus.expired;
      actor = "system:expiry_worker";
      created_at = env.now;
    }
    ∷ expiry_audits env n (suc k) ps

unfoldable pub expire : Env → ℕ → Db → Result (ℕ × Db)
unfolding expiry_audits
expire env n d =
    let overdue = select (is_overdue env) d.payments in
    ok (
      length overdue,
      record d {
        payments = update (is_overdue env) (expired_row env) d.payments;
        audits = d.audits ++ expiry_audits env n 0 overdue;
      },
    )

-- The number of the payments that expired; an error is logged and the next round tries again.
unfoldable pub expire_payments : Env → M ℕ
unfolding expire
expire_payments env = statement env (expire env)
