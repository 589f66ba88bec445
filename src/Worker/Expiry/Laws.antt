-- ===== src/Worker/Expiry/Laws.antt =====
-- What the expiry of payments does, also to webhooks that come later.
use wanpay.Base.{
  ℕ, String, Option, some, map, ap, ◌++◌, List, [], ◌∷◌, ◌≡◌, refl, true, false, arith, find,
  update, select, length, All, find-update_where, suc,
}
use wanpay.Entity.Merchant.{Merchant}
use wanpay.Entity.Fee.{Time}
use wanpay.Entity.Audit.{PaymentAudit, AuditEventType}
use wanpay.Entity.Payment.{Payment, PaymentStatus, is_final}
use wanpay.Db.Error.{ok, is_ok}
use wanpay.Db.Monad.{Env, World, statement}
use wanpay.Db.Payments.{has_id}
use wanpay.Fee.{FloatOps}
use wanpay.Payment.Types.{WebhookEvent}
use wanpay.Payment.Webhook.{process_event, process_event-final}
use wanpay.Worker.Expiry.Defs.{is_overdue, expired_row, expiry_audits, expire, expire_payments}

nothing_overdue :
    (env : Env) (ps : List Payment)
    → All (λ p. is_overdue env p ≡ false) (update (is_overdue env) (expired_row env) ps)
nothing_overdue env [] = tt
nothing_overdue env (p ∷ ps) = (ground arith, nothing_overdue env ps)

-- What an audit record says: of which payment, what happened, the status before and after, who did
-- it, and when.
abbrev pub Told : Type 0
Told = String × AuditEventType × Option PaymentStatus × PaymentStatus × String × Time

abbrev pub told : PaymentAudit → Told
told a = (a.payment_id, a.event_type, a.old_status, a.new_status, a.actor, a.created_at)

-- What is to be told of an expired payment.
abbrev pub told_of : Env → Payment → Told
told_of env p = (
  p.id,
  AuditEventType.payment_expired,
  some PaymentStatus.pending,
  PaymentStatus.expired,
  "system:expiry_worker",
  env.now,
)

told-expiry_audits :
    (env : Env) (n k : ℕ) (ps : List Payment)
    → map told (expiry_audits env n k ps) ≡ map (told_of env) ps
unfolding expiry_audits
told-expiry_audits env n k [] = refl
told-expiry_audits env n k (p ∷ ps) =
    ap (λ rest. told_of env p ∷ rest) (told-expiry_audits env n (suc k) ps)

-- A round of the expiry worker that does not fail leaves no pending payment past its time. It adds
-- one audit record for each payment that was pending and past its time, in their order: the record
-- has the payment's identifier and says that the worker expired the pending payment at this time. It
-- counts these payments, and does not touch the ledger.
pub expire_payments_complete :
    (env : Env) (count : ℕ) (w : World)
    → (expire_payments env w).0 ≡ ok count
    → let d' = (expire_payments env w).1.db in
      (All (λ p. is_overdue env p ≡ false) d'.payments)
      × ((added : List PaymentAudit) × (d'.audits ≡ w.db.audits ++ added)
          × (map told added ≡ map (told_of env) (select (is_overdue env) w.db.payments)))
      × (count ≡ length (select (is_overdue env) w.db.payments))
      × (d'.mutations ≡ w.db.mutations)
unfolding expire_payments statement expire
expire_payments_complete env count w h =
    let overdue = select (is_overdue env) w.db.payments in
    (
      ground (arith, nothing_overdue env w.db.payments),
      (expiry_audits env w.clock 0 overdue, ground arith, told-expiry_audits env w.clock 0 overdue),
      ground arith,
      ground arith,
    )

-- A payment that the worker has expired is never credited: a webhook that arrives later, one that
-- reports the payment as paid too, changes nothing.
pub expired_then_paid :
    (ops : FloatOps) (env env' : Env) (provider : String) (event : WebhookEvent) (p : Payment)
    → (merchant : Merchant) (w w' : World) → find (has_id p.id) w.db.payments ≡ some p
    → is_overdue env p ≡ true
    → is_ok (expire_payments env w).0 ≡ true
    → env'.others w'.clock w'.db ≡ (expire_payments env w).1.db
    → (process_event ops env' provider event p merchant w').1.db ≡ (expire_payments env w).1.db
unfolding expire_payments statement expire is_final
expired_then_paid ops env env' provider event p merchant w w' e o h quiet =
    let moved =
      find-update_where (has_id p.id) (is_overdue env) (expired_row env) w.db.payments p (λ x. refl)
        e in
    let row = expired_row env p in
    let here : find (has_id p.id) (env'.others w'.clock w'.db).payments ≡ some row =
      ground (arith, moved, quiet) in
    ground (arith, process_event-final ops env' provider event p row merchant w' here refl, quiet)
