-- ===== src/Payment/Cancel/Defs.antt =====
-- CancelPayment: mark the payment, call the provider, and settle what it answered.
use Prim.Native.String.{◌++◌ as append_text}
use wanpay.Base.{not, String, Option, none, some, ◌==◌, if◌then◌else◌}
use wanpay.Entity.Payment.{Payment, PaymentStatus, can_cancel}
use wanpay.Entity.Audit.{PaymentAudit, AuditEventType}
use wanpay.Db.Error.{not_found, unprocessable_entity, Result, ok, err}
use wanpay.Db.Monad.{Env, M, ◌>>=◌, ◌>>◌, pure, throw_if, attempt, run_in_tx}
use wanpay.Db.Payments.{find_by_id, update_payment}
use wanpay.Db.Audits.{save_audit}
use wanpay.Payment.Types.{Gateways, gateway}

abbrev pub status_audit :
    Payment → AuditEventType → Option PaymentStatus → PaymentStatus → String → PaymentAudit
status_audit p event_type old_status new_status actor = record {
  id = "";
  payment_id = p.id;
  event_type = event_type;
  old_status = old_status;
  new_status = new_status;
  actor = actor;
  created_at = 0;
}

-- The provider's own id where there is one (Xendit, iPaymu), else ours.
unfoldable pub cancel_id : Payment → String
cancel_id p = if p.provider_payment_id == "" then p.external_id else p.provider_payment_id

module _ (env : Env) where
  -- One step of the cancellation: the row's new state, and the audit record of the change.
  unfoldable pub change_status : Payment → PaymentAudit → M (Unit {0})
  change_status p audit =
      run_in_tx env (do _ ← update_payment env p; _ ← save_audit env audit; pure tt)

  unfoldable pub mark_cancelling : Payment → String → M (Unit {0})
  unfolding change_status
  mark_cancelling p merchant_id =
      change_status (record p { status = PaymentStatus.cancelling })
        (status_audit p AuditEventType.status_changed (some p.status) PaymentStatus.cancelling
          (append_text "merchant:" merchant_id))

  unfoldable pub settle_cancel : Payment → String → Result (Unit {0}) → M (Unit {0})
  unfolding change_status
  settle_cancel p merchant_id (ok _) =
      change_status (record p { status = PaymentStatus.cancelled; cancelled_at = some env.now })
        (status_audit p AuditEventType.payment_cancelled (some PaymentStatus.cancelling)
          PaymentStatus.cancelled (append_text "merchant:" merchant_id))
  settle_cancel p merchant_id (err _) =
      change_status (record p { status = PaymentStatus.pending; cancelled_at = none })
        (status_audit p AuditEventType.status_changed (some PaymentStatus.cancelling)
          PaymentStatus.pending "system:cancel_revert")

  module _ (gateways : Gateways) where
    unfoldable pub cancel_payment : String → String → M (Unit {0})
    cancel_payment merchant_id payment_id = do
      p ← find_by_id env payment_id
      throw_if (not (p.merchant_id == merchant_id)) (not_found "payment %s not found")
      throw_if (not (can_cancel p))
          (unprocessable_entity "payment cannot be cancelled in status %s")
      mark_cancelling p merchant_id
      gw ← gateway gateways p.provider
      answer ← attempt (gw.cancel_payment (cancel_id p))
      settle_cancel p merchant_id answer
