-- ===== src/Payment/Cancel/Laws.antt =====
-- What a cancellation does, step by step and as a whole.
use wanpay.Base.{
  ℕ, suc, String, Option, some, [], ◌∷◌, ◌++◌, ◌≡◌, refl, true, false, arith, find, update,
  find-update, any_of_find,
}
use wanpay.Entity.Payment.{Payment, PaymentStatus}
use wanpay.Entity.Audit.{PaymentAudit, AuditEventType}
use wanpay.Db.Error.{is_ok, Result, ok, err}
use wanpay.Db.Monad.{Env, World, statement, run_in_tx}
use wanpay.Db.Payments.{has_id, written, update_payment, update_payment_status, payment_checks}
use wanpay.Db.Audits.{save_audit, insert_payment_audit, audit_row}
use wanpay.Payment.Cancel.Defs.{status_audit, change_status}

module _ (env : Env) where
  -- What one change of status has done, by how it ended.
  abbrev pub Changed : Payment → PaymentAudit → World → Result (Unit {0}) × World → Type 0
  Changed p audit w (ok _, w') =
      let d = env.others w.clock w.db in
      w'.db ≡ record d {
        payments = update (has_id p.id) (written env p) d.payments;
        audits = d.audits ++ audit_row env audit (suc (suc w.clock)) ∷ [];
      }
  Changed p audit w (err _, w') = w'.db ≡ env.others w.clock w.db

  -- A change of status writes the row and one audit record together, or neither.
  pub change_status-Changed :
      (p : Payment) (audit : PaymentAudit) (w : World)
      → Changed p audit w (change_status env p audit w)
  unfolding change_status run_in_tx update_payment save_audit statement update_payment_status
      insert_payment_audit
  change_status-Changed p audit w = ground arith

  -- Where no statement fails, a change of an existing row that passes the checks succeeds.
  pub change_status-succeeds :
      (p row : Payment) (type : AuditEventType) (old_status : Option PaymentStatus)
      → (new_status : PaymentStatus) (actor : String) (w : World)
      → find (has_id p.id) (env.others w.clock w.db).payments ≡ some row
      → payment_checks (written env p row) ≡ true
      → ((n : ℕ) → env.statement_fails n ≡ false)
      → is_ok (change_status env p (status_audit p type old_status new_status actor) w).0 ≡ true
  unfolding change_status run_in_tx update_payment save_audit statement update_payment_status
      insert_payment_audit
  change_status-succeeds p row type old_status new_status actor w e c up =
      let d = env.others w.clock w.db in
      let updated =
        any_of_find (has_id p.id) (update (has_id p.id) (written env p) d.payments) _
          (find-update (has_id p.id) (written env p) d.payments row (λ x. refl) e) in
      let n = w.clock in
      ground (arith, updated, up n, up (suc n), up (suc (suc n)), up (suc (suc (suc n))))
