-- ===== src/Payment/Webhook/Laws/Once.antt =====
-- Paid events and the credit of a merchant.
use wanpay.Base.{
  ℕ, ℤ, pos, ◌≤ℤ◌, String, some, [], ◌∷◌, ◌++◌, ◌≡◌, sym, ◌⊎◌, inl, inr, true, false, arith, find,
  update, Option-cases, suc, subst, ap, ◌∙◌,
}
use wanpay.Entity.Merchant.{Merchant}
use wanpay.Entity.Payment.{Payment, PaymentStatus, is_final, is_paid_status}
use wanpay.Db.Error.{is_ok}
use wanpay.Db.Tables.{Db}
use wanpay.Db.Monad.{Env, World, query, run_in_tx}
use wanpay.Db.Payments.{has_id, written, find_by_id_for_update}
use wanpay.Db.Mutations.{mutation_row}
use wanpay.Fee.{FloatOps}
use wanpay.Payment.Types.{WebhookEvent}
use Prim.Native.String.{◌++◌ as append_text}
use wanpay.Entity.Audit.{AuditEventType}
use wanpay.Db.Payments.{update_payment}
use wanpay.Db.Audits.{save_audit}
use wanpay.Fee.{resolve}
use wanpay.Payment.Cancel.{status_audit}
use wanpay.Payment.Webhook.Defs.{
  apply_event, fee_or_zero, cash_in, credit_if_paid, record_event, process_event,
}
use wanpay.Payment.Webhook.Laws.Stages.{
  update_payment-ok, save_audit-ok, notify-ok, credit_if_paid-ok, credit_if_paid-unpaid,
}

-- `d'` is `d` with the payment `p` written and credited, with the fee `fee`.
pub record Credited (env : Env) (p : Payment) (d d' : Db) : Type 0 where
  pub fee : ℤ
  pub number : ℕ
  pub payments : d'.payments ≡ update (has_id p.id) (written env p) d.payments
  pub mutations : d'.mutations ≡ d.mutations ++ mutation_row env (cash_in p fee) number ∷ []
  pub disbursements : d'.disbursements ≡ d.disbursements
  pub fee_nonneg : pos 0 ≤ℤ fee
  pub fee_within : fee ≤ℤ p.amount

-- What a paid event has done: nothing to a final payment, and a credit to any other.
abbrev pub PaidOutcome : Env → Payment → WebhookEvent → Db → Db → Type 0
PaidOutcome env p event d d' =
    (fresh : Payment) × (find (has_id p.id) d.payments ≡ some fresh)
    × (((is_final fresh ≡ true) × (d' ≡ d))
        ⊎ ((is_final fresh ≡ false) × Credited env (apply_event p event) d d'))

module _ (ops : FloatOps) (env : Env) where
  record_event-Credited :
      (provider : String) (fresh p : Payment) (merchant : Merchant) (w : World)
      → p.status ≡ PaymentStatus.paid
      → is_ok (record_event ops env provider fresh p merchant w).0 ≡ true
      → Credited env p w.db (record_event ops env provider fresh p merchant w).1.db
  unfolding record_event
  record_event-Credited provider fresh p merchant w s h =
      let w₁ = (update_payment env p w).1 in
      let a =
        status_audit p AuditEventType.webhook_received (some fresh.status) p.status
          (append_text "webhook:" provider) in
      let w₂ = (save_audit env a w₁).1 in
      let res = resolve ops env merchant p.method p.amount w₂ in
      let fee = fee_or_zero res.0 in
      let w₃ = (credit_if_paid ops env p merchant w₂).1 in
      let u = update_payment-ok env p w in
      let v = save_audit-ok env a w₁ in
      let c = credit_if_paid-ok env ops p merchant w₂ s in
      let o = notify-ok env p merchant fee w₃ in
      record {
        fee = fee;
        number = res.1.clock;
        payments = ground (arith, u, v, c, o);
        mutations = ground (arith, u, v, c, o);
        disbursements = ground (arith, u, v, c, o);
        fee_nonneg = ground (arith, u, v, c, o);
        fee_within = ground (arith, u, v, c, o);
      }

  record_event-unpaid :
      (provider : String) (fresh p : Payment) (merchant : Merchant) (w : World)
      → is_paid_status p.status ≡ false
      → is_ok (record_event ops env provider fresh p merchant w).0 ≡ true
      → (record_event ops env provider fresh p merchant w).1.db.mutations ≡ w.db.mutations
  unfolding record_event
  record_event-unpaid provider fresh p merchant w s h =
      let w₁ = (update_payment env p w).1 in
      let a =
        status_audit p AuditEventType.webhook_received (some fresh.status) p.status
          (append_text "webhook:" provider) in
      let w₂ = (save_audit env a w₁).1 in
      let u = update_payment-ok env p w in
      let v = save_audit-ok env a w₁ in
      let c = credit_if_paid-unpaid env ops p merchant w₂ s in
      let o = notify-ok env p merchant (pos 0) w₂ in ground (arith, u, v, c, o)

  pub process_event-locked :
      (provider : String) (event : WebhookEvent) (p fresh : Payment) (merchant : Merchant)
      (w : World)
      → find (has_id p.id) (env.others w.clock w.db).payments ≡ some fresh
      → is_ok (process_event ops env provider event p merchant w).0 ≡ true
      → let locked : World = record { db = env.others w.clock w.db; clock = suc (suc w.clock) } in
        let d' = (process_event ops env provider event p merchant w).1.db in
        ((is_final fresh ≡ true) × (d' ≡ locked.db))
        ⊎ ((is_final fresh ≡ false)
            × (is_ok (record_event ops env provider fresh (apply_event p event) merchant locked).0
                ≡ true)
            × (d'
                ≡ (record_event ops env provider fresh (apply_event p event) merchant locked).1.db))
  unfolding process_event run_in_tx find_by_id_for_update query
  process_event-locked provider event p fresh merchant w e h = ground arith

  -- An event that is not paid leaves the ledger alone.
  pub process_event-unpaid :
      (provider : String) (event : WebhookEvent) (p : Payment) (merchant : Merchant) (w : World)
      → is_paid_status event.status ≡ false
      → is_ok (process_event ops env provider event p merchant w).0 ≡ true
      → (process_event ops env provider event p merchant w).1.db.mutations
        ≡ (env.others w.clock w.db).mutations
  unfolding process_event run_in_tx find_by_id_for_update query apply_event
  process_event-unpaid provider event p merchant w s h =
      let locked : World = record { db = env.others w.clock w.db; clock = suc (suc w.clock) } in
      elim (Option-cases (find (has_id p.id) (env.others w.clock w.db).payments)) [
        | inl missing ↦ absurd (ground arith)
        | inr (fresh, e) ↦ elim (process_event-locked provider event p fresh merchant w e h) [
          | inl (_, same) ↦ ap (λ d. d.mutations) same
          | inr (_, done, same) ↦
              ap (λ d. d.mutations) same
              ∙ record_event-unpaid provider fresh (apply_event p event) merchant locked s done
        ]
      ]

  -- A paid event that is processed without an error has met the payment's row. It left the
  -- database alone if the row was final already, and else credited the merchant with the amount
  -- less a fee that lies between zero and the amount.
  pub process_event-PaidOutcome :
      (provider : String) (event : WebhookEvent) (p : Payment) (merchant : Merchant) (w : World)
      → event.status ≡ PaymentStatus.paid
      → is_ok (process_event ops env provider event p merchant w).0 ≡ true
      → PaidOutcome env p event
          (env.others w.clock w.db)
          (process_event ops env provider event p merchant w).1.db
  unfolding process_event run_in_tx find_by_id_for_update query apply_event
  process_event-PaidOutcome provider event p merchant w s h =
      elim (Option-cases (find (has_id p.id) (env.others w.clock w.db).payments)) [
        | inl missing ↦ absurd (ground arith)
        | inr (fresh, e) ↦
            (fresh, e, outcome fresh (process_event-locked provider event p fresh merchant w e h))
      ]
    where
      locked : World
      locked = record { db = env.others w.clock w.db; clock = suc (suc w.clock) }

      outcome :
          (fresh : Payment)
          → let d' = (process_event ops env provider event p merchant w).1.db in
            ((is_final fresh ≡ true) × (d' ≡ locked.db))
              ⊎ ((is_final fresh ≡ false)
                  × (is_ok
                        (record_event ops env provider fresh
                          (apply_event p event)
                          merchant
                          locked).0
                      ≡ true)
                  × (d'
                      ≡ (record_event ops env provider fresh
                          (apply_event p event)
                          merchant
                          locked).1.db))
            → ((is_final fresh ≡ true) × (d' ≡ locked.db))
              ⊎ ((is_final fresh ≡ false) × Credited env (apply_event p event) locked.db d')
      outcome fresh (inl same) = inl same
      outcome fresh (inr (open_row, done, e)) = inr (
        open_row,
        subst (Credited env (apply_event p event) locked.db) (sym e)
            (record_event-Credited provider fresh (apply_event p event) merchant locked s done),
      )
