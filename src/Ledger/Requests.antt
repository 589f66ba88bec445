-- ===== src/Ledger/Requests.antt =====
-- Webhooks and callbacks, and the ledger that they leave.
use Prim.Native.String.{◌++◌ as append_text}
use wanpay.Base.{find, Option-cases, inl, inr, suc, ℤ, pos, String, some, sym, subst, arith, ◌==◌}
use wanpay.Entity.Merchant.{Merchant}
use wanpay.Entity.Payment.{Payment, is_paid_status}
use wanpay.Entity.Audit.{PaymentAudit, AuditEventType}
use wanpay.Entity.Mutation.{Mutation}
use wanpay.Entity.Disbursement.{Disbursement, is_completed}
use wanpay.Db.Error.{Result, ok, err}
use wanpay.Db.Payload.{Payload}
use wanpay.Db.Monad.{Env, World, M, pure, attempt, ◌>>=◌, query, run_in_tx, begun}
use wanpay.Db.Payments.{
  has_id, update_payment, update_payment_status, find_by_id_for_update, find_by_external_id,
}
use wanpay.Db.Audits.{save_audit, insert_payment_audit}
use wanpay.Db.Mutations.{IsLedger, save_mutation, insert_mutation, insert_mutation-IsLedger}
use wanpay.Db.Merchants.{find_merchant_by_id}
use wanpay.Db.Outbox.{insert_event, insert_outbox_event}
use wanpay.Db.Disbursements.{
  update_disbursement, update_disbursement_status, find_disbursement_by_external_id,
}
use wanpay.Fee.{FloatOps, FeeResolution, resolve, resolve-db}
use wanpay.Payment.Types.{WebhookEvent, Headers, Gateways, gateway}
use wanpay.Payment.Webhook.{
  event_name as payment_event, payment_payload, callback_url, cash_in, fee_or_zero, apply_event,
  credit_if_paid, notify, record_event, process_event, handle_webhook,
}
use wanpay.Disbursement.Types.{DisbursementGateways, disb_gateway}
use wanpay.Disbursement.Callback.{
  event_name as disbursement_event, disbursement_payload, cash_out, debit_if_completed,
  notify_merchant, record_callback, handle_disbursement_callback,
}
use wanpay.Payment.Cancel.{status_audit}
use wanpay.Ledger.Keeps.{
  Keeps, Honest, pure-Keeps, attempt-Keeps, if-Keeps, >>=-Keeps, statement-Keeps,
}

abbrev value_of : Result ℤ → ℤ
value_of (ok a) = a
value_of (err _) = pos 0

module _ (env : Env) where
  save_mutation-Keeps : (m : Mutation) → Keeps (save_mutation env m)
  unfolding save_mutation
  save_mutation-Keeps m =
      statement-Keeps env (insert_mutation env m)
        (λ n d d' row e h. insert_mutation-IsLedger env m row n d d' h e)

  update_payment-Keeps : (p : Payment) → Keeps (update_payment env p)
  unfolding update_payment update_payment_status
  update_payment-Keeps p =
      statement-Keeps env (update_payment_status env p) (λ n d d' row e h. ground (arith, e, h))

  save_audit-Keeps : (a : PaymentAudit) → Keeps (save_audit env a)
  unfolding save_audit insert_payment_audit
  save_audit-Keeps a =
      statement-Keeps env (insert_payment_audit env a) (λ n d d' row e h. ground (arith, e, h))

  insert_event-Keeps :
      (event_type target_url merchant_id : String) (payload : Payload)
      → Keeps (insert_event env event_type target_url merchant_id payload)
  unfolding insert_event insert_outbox_event
  insert_event-Keeps event_type target_url merchant_id payload =
      statement-Keeps env (insert_outbox_event env event_type target_url merchant_id payload)
        (λ n d d' row e h. ground (arith, e, h))

  update_disbursement-Keeps : (d : Disbursement) → Keeps (update_disbursement env d)
  unfolding update_disbursement update_disbursement_status
  update_disbursement-Keeps x =
      statement-Keeps env (update_disbursement_status env x)
        (λ n d d' row e h. ground (arith, e, h))

  notify-Keeps : (p : Payment) (merchant : Merchant) (fee : ℤ) → Keeps (notify env p merchant fee)
  unfolding notify
  notify-Keeps p merchant fee =
      let url = callback_url p merchant in
      let m = insert_event env (payment_event p) url merchant.id (payment_payload env p fee) in
      if-Keeps (url == "") (pure tt) (m >>= λ e. pure tt) (pure-Keeps tt) (
        >>=-Keeps m (λ e. pure tt)
          (insert_event-Keeps (payment_event p) url merchant.id (payment_payload env p fee))
          (λ e. pure-Keeps tt))

  debit_if_completed-Keeps : (d : Disbursement) → Keeps (debit_if_completed env d)
  unfolding debit_if_completed
  debit_if_completed-Keeps d =
      let m = save_mutation env (cash_out d) in
      if-Keeps (is_completed d.status) (m >>= λ x. pure tt) (pure tt)
        (>>=-Keeps m (λ x. pure tt) (save_mutation-Keeps (cash_out d)) (λ x. pure-Keeps tt))
        (pure-Keeps tt)

  notify_merchant-Keeps :
      (d : Disbursement) (merchant : Merchant) → Keeps (notify_merchant env d merchant)
  unfolding notify_merchant
  notify_merchant-Keeps d merchant =
      let url = merchant.webhook_url in
      let m =
        insert_event env (disbursement_event d) url merchant.id (disbursement_payload env d) in
      if-Keeps (url == "") (pure tt) (m >>= λ e. pure tt) (pure-Keeps tt) (
        >>=-Keeps m (λ e. pure tt)
          (insert_event-Keeps (disbursement_event d) url merchant.id (disbursement_payload env d))
          (λ e. pure-Keeps tt))

  module _ (honest : Honest env) where
    record_callback-Keeps :
        (d : Disbursement) (merchant : Merchant) → Keeps (record_callback env d merchant)
    unfolding record_callback run_in_tx
    record_callback-Keeps d merchant w h =
        let k₀ = honest w.clock w.db h in
        let w₀ = begun env w in
        let k₁ = update_disbursement-Keeps d w₀ k₀ in
        let w₁ = (update_disbursement env d w₀).1 in
        let k₂ = debit_if_completed-Keeps d w₁ k₁ in
        let w₂ = (debit_if_completed env d w₁).1 in
        ground (arith, k₀, k₁, k₂, notify_merchant-Keeps d merchant w₂ k₂)

    module _ (ops : FloatOps) where
      credit_if_paid-Keeps :
          (p : Payment) (merchant : Merchant) → Keeps (credit_if_paid ops env p merchant)
      unfolding credit_if_paid
      credit_if_paid-Keeps p merchant =
          let res = attempt (resolve ops env merchant p.method p.amount) in
          let rest : Result FeeResolution → M ℤ =
            λ r. save_mutation env (cash_in p (fee_or_zero r)) >>= λ m. pure (fee_or_zero r) in
          if-Keeps (is_paid_status p.status) (res >>= rest) (pure (pos 0))
            (>>=-Keeps res rest
              (attempt-Keeps (resolve ops env merchant p.method p.amount) (λ w h.
                subst (λ d. IsLedger d.mutations)
                  (sym (resolve-db ops env merchant p.method p.amount w)) h))
              (λ r.
                >>=-Keeps (save_mutation env (cash_in p (fee_or_zero r)))
                  (λ m. pure (fee_or_zero r)) (save_mutation-Keeps (cash_in p (fee_or_zero r)))
                  (λ m. pure-Keeps (fee_or_zero r))))
            (pure-Keeps (pos 0))

      record_event-Keeps :
          (provider : String) (fresh p : Payment) (merchant : Merchant)
          → Keeps (record_event ops env provider fresh p merchant)
      unfolding record_event
      record_event-Keeps provider fresh p merchant w h =
          let k₁ = update_payment-Keeps p w h in
          let w₁ = (update_payment env p w).1 in
          let audit =
            status_audit p AuditEventType.webhook_received (some fresh.status) p.status
              (append_text "webhook:" provider) in
          let k₂ = save_audit-Keeps audit w₁ k₁ in
          let w₂ = (save_audit env audit w₁).1 in
          let k₃ = credit_if_paid-Keeps p merchant w₂ k₂ in
          let (fee, w₃) = credit_if_paid ops env p merchant w₂ in
          ground (arith, h, k₁, k₂, k₃, notify-Keeps p merchant (value_of fee) w₃ k₃)

      process_event-Keeps :
          (provider : String) (event : WebhookEvent) (p : Payment) (merchant : Merchant)
          → Keeps (process_event ops env provider event p merchant)
      unfolding process_event find_by_id_for_update query run_in_tx
      process_event-Keeps provider event p merchant w h =
          let k₀ = honest w.clock w.db h in
          let locked : World = record { db = env.others w.clock w.db; clock = suc (suc w.clock) } in
          elim (Option-cases (find (has_id p.id) locked.db.payments)) [
            | inl missing ↦ ground (arith, k₀)
            | inr (fresh, e) ↦ ground (
              arith,
              k₀,
              record_event-Keeps provider fresh (apply_event p event) merchant locked k₀,
            )
          ]

      -- A webhook keeps the ledger well formed, whatever the provider reports and however it ends.
      pub handle_webhook-Keeps :
          (gateways : Gateways) (provider : String) (headers : Headers) (body : String)
          → Keeps (handle_webhook ops env gateways provider headers body)
      unfolding handle_webhook gateway find_by_external_id find_merchant_by_id query
      handle_webhook-Keeps gateways provider headers body w h =
          grind (arith, process_event-Keeps, h)

    -- And so does a callback for a disbursement.
    pub handle_disbursement_callback-Keeps :
        (gateways : DisbursementGateways) (provider : String) (headers : Headers) (body : String)
        → Keeps (handle_disbursement_callback env gateways provider headers body)
    unfolding handle_disbursement_callback disb_gateway find_disbursement_by_external_id
        find_merchant_by_id query
    handle_disbursement_callback-Keeps gateways provider headers body w h =
        grind (arith, record_callback-Keeps, h)
