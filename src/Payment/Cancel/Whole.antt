-- ===== src/Payment/Cancel/Whole.antt =====
-- CancelPayment as a whole, when no other request writes meanwhile.
use Prim.Native.String.{◌++◌ as append_text}
use wanpay.Base.{
  ℕ, suc, String, Option, none, some, [], ◌∷◌, ◌≡◌, refl, ◌⊎◌, true, false, arith, ◌==◌, find,
  update, find-update, ◌++◌, append_assoc, ap,
}
use wanpay.Entity.Payment.{Payment, PaymentStatus, can_cancel, is_pending_status, is_paid_status}
use wanpay.Entity.Audit.{PaymentAudit, AuditEventType}
use wanpay.Db.Error.{is_ok, Result, ok, err}
use wanpay.Db.Tables.{Db}
use wanpay.Db.Monad.{Env, World, query}
use wanpay.Db.Payments.{has_id, written, find_by_id, payment_checks}
use wanpay.Db.Audits.{audit_row}
use wanpay.Payment.Types.{PaymentGateway, Gateways, gateway}
use wanpay.Payment.Cancel.Defs.{
  status_audit, cancel_id, change_status, mark_cancelling, settle_cancel, cancel_payment,
}
use wanpay.Payment.Cancel.Laws.{change_status-Changed, change_status-succeeds}

-- No other request commits before a transaction of this one.
abbrev pub IsAlone : Env → Type 0
IsAlone env = (n : ℕ) (d : Db) → env.others n d ≡ d

-- No other request commits while the provider is asked to cancel.
abbrev pub IsQuiet : PaymentGateway → Type 0
IsQuiet gw = (id : String) (w : World) → (gw.cancel_payment id w).1.db ≡ w.db

-- The row that a cancellation leaves, by the provider's answer.
abbrev pub Settled : Env → Result (Unit {0}) → Payment → Type 0
Settled env (ok _) row = (row.status ≡ PaymentStatus.cancelled) × (row.cancelled_at ≡ some env.now)
Settled env (err _) row = (row.status ≡ PaymentStatus.pending) × (row.cancelled_at ≡ none)

-- What an audit record tells: of which payment, what happened, the status before and after, and who
-- did it.
abbrev pub Tells :
    PaymentAudit → String → AuditEventType → PaymentStatus → PaymentStatus → String → Type 0
Tells a id event_type old_status new_status actor =
    (a.payment_id ≡ id)
    × (a.event_type ≡ event_type)
    × (a.old_status ≡ some old_status)
    × (a.new_status ≡ new_status)
    × (a.actor ≡ actor)

-- The record of the second change, by the provider's answer.
abbrev pub TellsAnswer : PaymentAudit → String → String → Result (Unit {0}) → Type 0
TellsAnswer a id merchant_id (ok _) =
    Tells a id AuditEventType.payment_cancelled PaymentStatus.cancelling PaymentStatus.cancelled
      (append_text "merchant:" merchant_id)
TellsAnswer a id merchant_id (err _) =
    Tells a id AuditEventType.status_changed PaymentStatus.cancelling PaymentStatus.pending
      "system:cancel_revert"

module _ (env : Env) (gateways : Gateways) where
  -- A payment that is not the merchant's, or not pending, is refused and left alone.
  pub cancel_payment-refused :
      (merchant_id payment_id : String) (p : Payment) (w : World)
      → find (has_id payment_id) w.db.payments ≡ some p
      → ((p.merchant_id == merchant_id) ≡ false) ⊎ (is_pending_status p.status ≡ false)
      → let (r, w') = cancel_payment env gateways merchant_id payment_id w in
        (is_ok r ≡ false) × (w'.db ≡ w.db)
  unfolding cancel_payment find_by_id query can_cancel
  cancel_payment-refused merchant_id payment_id p w e refused = ground arith

  module _ (alone : IsAlone env) where
    -- Where the provider is not enabled the cancellation fails after the payment was marked: if no
    -- statement fails, the merchant's payment stays in `cancelling`. The premise on the environment: no
    -- other request commits before the transaction.
    pub cancel_payment-stuck :
        (merchant_id : String) (p : Payment) (w : World)
        → find (has_id p.id) w.db.payments ≡ some p
        → payment_checks p ≡ true
        → (p.merchant_id == merchant_id) ≡ true
        → p.status ≡ PaymentStatus.pending
        → gateways p.provider ≡ none
        → ((n : ℕ) → env.statement_fails n ≡ false)
        → let (r, w') = cancel_payment env gateways merchant_id p.id w in
          (is_ok r ≡ false)
          × (w'.db.payments
              ≡ update
                  (has_id p.id)
                  (written env (record p { status = PaymentStatus.cancelling }))
                  w.db.payments)
    unfolding cancel_payment find_by_id query can_cancel gateway mark_cancelling payment_checks
    cancel_payment-stuck merchant_id p w e c own s off up =
        let q = record p { status = PaymentStatus.cancelling } in
        let w₁ : World = record { db = w.db; clock = suc w.clock } in
        let actor = append_text "merchant:" merchant_id in
        let audit =
          status_audit q AuditEventType.status_changed (some p.status) PaymentStatus.cancelling
            actor in
        ground (
          arith,
          up w.clock,
          alone w₁.clock w.db,
          change_status-Changed env q audit w₁,
          change_status-succeeds env q p AuditEventType.status_changed (some p.status)
              PaymentStatus.cancelling actor w₁,
        )

    -- A change of status that succeeds, and what it leaves.
    change_status-whole :
        (p row : Payment) (type : AuditEventType) (old_status : Option PaymentStatus)
        → (new_status : PaymentStatus) (actor : String) (w : World)
        → find (has_id p.id) w.db.payments ≡ some row
        → payment_checks (written env p row) ≡ true
        → ((n : ℕ) → env.statement_fails n ≡ false)
        → let audit = status_audit p type old_status new_status actor in
          let (r, w') = change_status env p audit w in
          (r ≡ ok tt)
          × (find (has_id p.id) w'.db.payments ≡ some (written env p row))
          × (w'.db.audits ≡ w.db.audits ++ audit_row env audit (suc (suc w.clock)) ∷ [])
          × (w'.db.mutations ≡ w.db.mutations)
    change_status-whole p row type old_status new_status actor w e c up =
        let audit = status_audit p type old_status new_status actor in
        let here = alone w.clock w.db in
        let e' : find (has_id p.id) (env.others w.clock w.db).payments ≡ some row = rw here e in
        ground (
          arith,
          here,
          change_status-Changed env p audit w,
          change_status-succeeds env p row type old_status new_status actor w e' c up,
          find-update (has_id p.id) (written env p) w.db.payments row (λ x. refl) e,
        )

    settle_cancel-Settled :
        (p row : Payment) (merchant_id : String) (answer : Result (Unit {0})) (w : World)
        → find (has_id p.id) w.db.payments ≡ some row
        → payment_checks (written env p row) ≡ true
        → ((n : ℕ) → env.statement_fails n ≡ false)
        → let (r, w') = settle_cancel env p merchant_id answer w in
          (r ≡ ok tt)
          × ((q : Payment) × (find (has_id p.id) w'.db.payments ≡ some q) × Settled env answer q)
          × ((a : PaymentAudit) × (w'.db.audits ≡ w.db.audits ++ a ∷ [])
              × TellsAnswer a p.id merchant_id answer)
          × (w'.db.mutations ≡ w.db.mutations)
    unfolding settle_cancel payment_checks
    settle_cancel-Settled p row merchant_id (ok a) w e c up =
        let q = record p { status = PaymentStatus.cancelled; cancelled_at = some env.now } in
        let (r, f, l, m) =
          change_status-whole q row AuditEventType.payment_cancelled (some PaymentStatus.cancelling)
            PaymentStatus.cancelled (append_text "merchant:" merchant_id) w e c up in
        (r, (written env q row, f, (refl, refl)), (_, l, (refl, refl, refl, refl, refl)), m)
    settle_cancel-Settled p row merchant_id (err x) w e c up =
        let q = record p { status = PaymentStatus.pending; cancelled_at = none } in
        let (r, f, l, m) =
          change_status-whole q row AuditEventType.status_changed (some PaymentStatus.cancelling)
            PaymentStatus.pending "system:cancel_revert" w e c up in
        (r, (written env q row, f, (refl, refl)), (_, l, (refl, refl, refl, refl, refl)), m)

    -- The last step writes the row whatever it has become: a payment that was reported as paid while the
    -- provider was asked loses that status, though the credit stays in the ledger. The premises: no
    -- statement fails, and no other request commits before the step's transaction.
    pub settle_cancel-overwrites_paid :
        (p row : Payment) (merchant_id : String) (answer : Result (Unit {0})) (w : World)
        → find (has_id p.id) w.db.payments ≡ some row
        → row.status ≡ PaymentStatus.paid
        → payment_checks (written env p row) ≡ true
        → ((n : ℕ) → env.statement_fails n ≡ false)
        → let (r, w') = settle_cancel env p merchant_id answer w in
          (r ≡ ok tt)
          × ((q : Payment) × (find (has_id p.id) w'.db.payments ≡ some q)
              × (is_paid_status q.status ≡ false))
          × (w'.db.mutations ≡ w.db.mutations)
    settle_cancel-overwrites_paid p row merchant_id answer w e was c up =
        let (r, (q, f, settled), l, m) = settle_cancel-Settled p row merchant_id answer w e c up in
        (r, (q, f, unpaid answer q settled), m)
      where
        unpaid :
            (a : Result (Unit {0})) (q : Payment)
            → Settled env a q
            → is_paid_status q.status ≡ false
        unpaid (ok x) q h = rw (h.0)
        unpaid (err x) q h = rw (h.0)

    -- A merchant's pending payment is cancelled where the provider agrees, and pending again where
    -- it refuses. Two audit records are added: that the merchant moved the pending payment to
    -- `cancelling`, and that it was cancelled by the merchant, or set back by the system. The
    -- ledger is untouched. The premises: the payment's provider is enabled, its row meets the
    -- checks of the table, no statement fails, no other request commits before a transaction of
    -- this one or while the provider is asked, and the provider's answer does not depend on the
    -- database.
    pub cancel_payment-settles :
        (merchant_id : String) (p : Payment) (gw : PaymentGateway) (answer : Result (Unit {0}))
        → (w : World) → find (has_id p.id) w.db.payments ≡ some p
        → payment_checks p ≡ true
        → (p.merchant_id == merchant_id) ≡ true
        → p.status ≡ PaymentStatus.pending
        → gateways p.provider ≡ some gw
        → IsQuiet gw
        → ((v : World) → (gw.cancel_payment (cancel_id p) v).0 ≡ answer)
        → ((n : ℕ) → env.statement_fails n ≡ false)
        → let (r, w') = cancel_payment env gateways merchant_id p.id w in
          (r ≡ ok tt)
          × ((row : Payment) × (find (has_id p.id) w'.db.payments ≡ some row)
              × Settled env answer row)
          × ((a b : PaymentAudit) × (w'.db.audits ≡ w.db.audits ++ a ∷ b ∷ [])
              × Tells a p.id AuditEventType.status_changed PaymentStatus.pending
                  PaymentStatus.cancelling
                  (append_text "merchant:" merchant_id)
              × TellsAnswer b p.id merchant_id answer)
          × (w'.db.mutations ≡ w.db.mutations)
    unfolding cancel_payment find_by_id query can_cancel gateway mark_cancelling payment_checks
    cancel_payment-settles merchant_id p gw answer w e c own s on quiet answers up =
        let w₁ : World = record { db = w.db; clock = suc w.clock } in
        let q = record p { status = PaymentStatus.cancelling } in
        let marked =
          change_status-whole q p AuditEventType.status_changed (some p.status)
            PaymentStatus.cancelling (append_text "merchant:" merchant_id) w₁ e c up in
        let w₂ = (mark_cancelling env p merchant_id w₁).1 in
        let w₃ = (gw.cancel_payment (cancel_id p) w₂).1 in
        let settled =
          settle_cancel-Settled p (written env q p) merchant_id answer w₃
            (rw (quiet (cancel_id p) w₂) (marked.1)) c up in
        let chain : cancel_payment env gateways merchant_id p.id w
            ≡ settle_cancel env p merchant_id answer w₃ =
          ground (arith, up w.clock, marked, answers w₂) in
        let still = quiet (cancel_id p) w₂ in
        let actor = append_text "merchant:" merchant_id in
        let audit =
          status_audit q AuditEventType.status_changed (some p.status) PaymentStatus.cancelling
            actor in
        let first = audit_row env audit (suc (suc w₁.clock)) in
        let (b, second, tells) = settled.2 in
        let both : (settle_cancel env p merchant_id answer w₃).1.db.audits
            ≡ w.db.audits ++ first ∷ b ∷ [] =
          ground (arith, marked, second, still, append_assoc w.db.audits (first ∷ []) (b ∷ [])) in
        rw chain (
          settled.0,
          settled.1,
          (first, b, both, (refl, refl, ap some s, refl, refl), tells),
          ground (arith, marked, settled, still),
        )
