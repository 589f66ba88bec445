-- ===== src/Payment/Webhook/Laws/Fees.antt =====
-- A fee above the payment's amount.
use Prim.Native.String.{◌++◌ as append_text}
use wanpay.Base.{suc, ◌<ℤ◌, String, some, ◌≡◌, false, arith, find}
use wanpay.Entity.Merchant.{Merchant}
use wanpay.Entity.Payment.{Payment, PaymentStatus, is_final}
use wanpay.Entity.Audit.{AuditEventType}
use wanpay.Db.Error.{ok, is_ok}
use wanpay.Db.Monad.{Env, World, statement, query, run_in_tx}
use wanpay.Db.Payments.{has_id, find_by_id_for_update, update_payment, update_payment_status}
use wanpay.Db.Audits.{save_audit, insert_payment_audit}
use wanpay.Db.Mutations.{save_mutation, insert_mutation, mutation_checks}
use wanpay.Fee.{FloatOps, FeeResolution, resolve, resolve-frame}
use wanpay.Payment.Types.{WebhookEvent}
use wanpay.Payment.Cancel.{status_audit}
use wanpay.Payment.Webhook.Defs.{apply_event, credit_if_paid, record_event, process_event}

module _ (ops : FloatOps) (env : Env) where
  credit_if_paid-over_fee :
      (p : Payment) (merchant : Merchant) (res : FeeResolution) (w : World)
      → p.status ≡ PaymentStatus.paid
      → (resolve ops env merchant p.method p.amount w).0 ≡ ok res
      → p.amount <ℤ res.total_fee
      → is_ok (credit_if_paid ops env p merchant w).0 ≡ false
  unfolding credit_if_paid save_mutation insert_mutation statement mutation_checks
  credit_if_paid-over_fee p merchant res w s e over = ground arith

  record_event-over_fee :
      (provider : String) (fresh p : Payment) (merchant : Merchant) (res : FeeResolution)
      (w : World)
      → p.status ≡ PaymentStatus.paid
      → (resolve ops env merchant p.method p.amount (record w { clock = suc (suc w.clock) })).0
        ≡ ok res
      → p.amount <ℤ res.total_fee
      → is_ok (record_event ops env provider fresh p merchant w).0 ≡ false
  unfolding record_event update_payment update_payment_status save_audit insert_payment_audit
      statement
  record_event-over_fee provider fresh p merchant res w s e over =
      let w₁ = (update_payment env p w).1 in
      let a =
        status_audit p AuditEventType.webhook_received (some fresh.status) p.status
          (append_text "webhook:" provider) in
      let w₂ = (save_audit env a w₁).1 in
      ground (
        arith,
        credit_if_paid-over_fee p merchant res w₂ s,
        resolve-frame ops env merchant p.method p.amount (record w { clock = suc (suc w.clock) })
            w₂,
      )

  -- A paid event for a payment that is not final, for which a fee above its amount is resolved, is
  -- not processed: an error is returned, and the transaction leaves the database as other requests
  -- had left it when it began.
  pub process_event-over_fee :
      (provider : String) (event : WebhookEvent) (p fresh : Payment) (merchant : Merchant)
      → (res : FeeResolution) (w : World) → event.status ≡ PaymentStatus.paid
      → find (has_id p.id) (env.others w.clock w.db).payments ≡ some fresh
      → is_final fresh ≡ false
      → let locked : World = record {
        db = env.others w.clock w.db;
        clock = suc (suc (suc (suc w.clock)));
      } in
        (resolve ops env merchant p.method p.amount locked).0 ≡ ok res
        → p.amount <ℤ res.total_fee
        → let (r, w') = process_event ops env provider event p merchant w in
          (is_ok r ≡ false) × (w'.db ≡ env.others w.clock w.db)
  unfolding process_event run_in_tx find_by_id_for_update query apply_event
  process_event-over_fee provider event p fresh merchant res w s e live r over =
      let locked : World = record { db = env.others w.clock w.db; clock = suc (suc w.clock) } in
      let refused =
        record_event-over_fee provider fresh (apply_event p event) merchant res locked s r over in
      ground (arith, refused)
