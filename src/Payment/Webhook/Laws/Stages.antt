-- ===== src/Payment/Webhook/Laws/Stages.antt =====
-- The stages of the transaction, each where it succeeds.
use wanpay.Base.{ℤ, pos, ◌≤ℤ◌, [], ◌∷◌, ◌++◌, ◌≡◌, true, false, arith, update}
use wanpay.Entity.Merchant.{Merchant}
use wanpay.Entity.Payment.{Payment, PaymentStatus, is_paid_status}
use wanpay.Db.Error.{ok, is_ok}
use wanpay.Db.Monad.{Env, World, statement}
use wanpay.Db.Payments.{has_id, written, update_payment, update_payment_status}
use wanpay.Db.Audits.{save_audit, insert_payment_audit, audit_row}
use wanpay.Db.Mutations.{save_mutation, insert_mutation, mutation_row, mutation_checks}
use wanpay.Db.Outbox.{insert_event, insert_outbox_event}
use wanpay.Entity.Audit.{PaymentAudit}
use wanpay.Fee.{FloatOps, resolve, resolve-db}
use wanpay.Payment.Webhook.Defs.{cash_in, fee_or_zero, credit_if_paid, notify}

module _ (env : Env) where
  pub update_payment-ok :
      (p : Payment) (w : World)
      → is_ok (update_payment env p w).0 ≡ true
      → (update_payment env p w).1.db
        ≡ record (w.db) { payments = update (has_id p.id) (written env p) w.db.payments }
  unfolding update_payment statement update_payment_status
  update_payment-ok p w h = ground arith

  pub save_audit-ok :
      (a : PaymentAudit) (w : World)
      → is_ok (save_audit env a w).0 ≡ true
      → (save_audit env a w).1.db
        ≡ record (w.db) { audits = w.db.audits ++ audit_row env a w.clock ∷ [] }
  unfolding save_audit statement insert_payment_audit
  save_audit-ok a w h = ground arith

  -- A notification writes the outbox alone.
  pub notify-ok :
      (p : Payment) (merchant : Merchant) (fee : ℤ) (w : World)
      → let d' = (notify env p merchant fee w).1.db in d' ≡ record (w.db) { outbox = d'.outbox }
  unfolding notify insert_event statement insert_outbox_event
  notify-ok p merchant fee w = ground arith

  module _ (ops : FloatOps) where
    -- The credit of a paid payment, the fee within the payment's amount.
    pub credit_if_paid-ok :
        (p : Payment) (merchant : Merchant) (w : World)
        → p.status ≡ PaymentStatus.paid
        → is_ok (credit_if_paid ops env p merchant w).0 ≡ true
        → let (res, w₁) = resolve ops env merchant p.method p.amount w in
          let fee = fee_or_zero res in
          ((credit_if_paid ops env p merchant w).0 ≡ ok fee)
          × ((credit_if_paid ops env p merchant w).1.db ≡ record (w.db) {
            mutations = w.db.mutations ++ mutation_row env (cash_in p fee) w₁.clock ∷ [];
          })
          × (pos 0 ≤ℤ fee)
          × (fee ≤ℤ p.amount)
    unfolding credit_if_paid save_mutation insert_mutation statement mutation_checks
    credit_if_paid-ok p merchant w s h =
        ground (arith, resolve-db ops env merchant p.method p.amount w)

    -- A payment that is not paid is not credited.
    pub credit_if_paid-unpaid :
        (p : Payment) (merchant : Merchant) (w : World)
        → is_paid_status p.status ≡ false
        → credit_if_paid ops env p merchant w ≡ (ok (pos 0), w)
    unfolding credit_if_paid
    credit_if_paid-unpaid p merchant w s = rw s
