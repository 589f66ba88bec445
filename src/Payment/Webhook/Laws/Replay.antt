-- ===== src/Payment/Webhook/Laws/Replay.antt =====
-- Deliveries that come again, and deliveries that fail.
use wanpay.Base.{
  suc, ℤ, pos, ◌+ℤ◌, ◌-ℤ◌, ◌≤ℤ◌, ◌∙◌, String, some, ◌≡◌, refl, ◌⊎◌, inl, inr, true, false, arith,
  ◌==◌, find, find-update, if◌then◌else◌,
}
use wanpay.Entity.Merchant.{Merchant}
use wanpay.Entity.Payment.{Payment, PaymentStatus, is_final}
use wanpay.Db.Error.{is_ok}
use wanpay.Db.Tables.{Db}
use wanpay.Db.Monad.{Env, World, query, run_in_tx}
use wanpay.Db.Payments.{has_id, written, find_by_id_for_update, find_by_external_id}
use wanpay.Db.Merchants.{find_merchant_by_id}
use wanpay.Db.Mutations.{mutation_row, balance, balance-append}
use wanpay.Fee.{FloatOps}
use wanpay.Payment.Types.{WebhookEvent, Headers, Gateways, gateway}
use wanpay.Payment.Webhook.Defs.{apply_event, cash_in, process_event, handle_webhook}
use wanpay.Payment.Webhook.Laws.Once.{Credited, PaidOutcome, process_event-PaidOutcome}

module _ (ops : FloatOps) (env : Env) where
  -- A webhook for a payment that is final changes nothing, whether or not a statement fails.
  pub process_event-final :
      (provider : String) (event : WebhookEvent) (p fresh : Payment) (merchant : Merchant)
      (w : World)
      → find (has_id p.id) (env.others w.clock w.db).payments ≡ some fresh
      → is_final fresh ≡ true
      → (process_event ops env provider event p merchant w).1.db ≡ env.others w.clock w.db
  unfolding process_event run_in_tx find_by_id_for_update query
  process_event-final provider event p fresh merchant w e f = ground arith

  pub process_event-atomic :
      (provider : String) (event : WebhookEvent) (p : Payment) (merchant : Merchant) (w : World)
      → is_ok (process_event ops env provider event p merchant w).0 ≡ false
      → (process_event ops env provider event p merchant w).1.db ≡ env.others w.clock w.db
  unfolding process_event run_in_tx
  process_event-atomic provider event p merchant w h = ground arith

  -- A webhook that returns an error has written nothing: the database is as it was, or as other
  -- requests had left it when the transaction began.
  pub handle_webhook-atomic :
      (gateways : Gateways) (provider : String) (headers : Headers) (body : String) (w : World)
      → is_ok (handle_webhook ops env gateways provider headers body w).0 ≡ false
      → let d' = (handle_webhook ops env gateways provider headers body w).1.db in
        (d' ≡ w.db) ⊎ (d' ≡ env.others (suc (suc w.clock)) w.db)
  unfolding handle_webhook gateway find_by_external_id find_merchant_by_id query
  handle_webhook-atomic gateways provider headers body w h = grind (arith, process_event-atomic)

-- The credit moves its merchant's balance by the net amount, and no other balance.
pub Credited-balance :
    (env : Env) (p : Payment) (d d' : Db) (merchant_id : String)
    → (c : Credited env p d d')
    → balance merchant_id d'.mutations ≡ (
        if p.merchant_id == merchant_id
        then balance merchant_id d.mutations +ℤ (p.amount -ℤ c.fee)
        else balance merchant_id d.mutations)
Credited-balance env p d d' merchant_id c =
    rw (c.mutations)
      (balance-append merchant_id d.mutations (mutation_row env (cash_in p c.fee) c.number))

Credited-find :
    (env : Env) (p fresh : Payment) (d d' : Db)
    → find (has_id p.id) d.payments ≡ some fresh
    → Credited env p d d'
    → find (has_id p.id) d'.payments ≡ some (written env p fresh)
Credited-find env p fresh d d' e c =
    rw (c.payments) (find-update (has_id p.id) (written env p) d.payments fresh (λ x. refl) e)

module _ (ops : FloatOps) where
  pub final_after :
      (env : Env) (p : Payment) (event : WebhookEvent) (d d' : Db)
      → event.status ≡ PaymentStatus.paid
      → PaidOutcome env p event d d'
      → (row : Payment) × (find (has_id p.id) d'.payments ≡ some row) × (is_final row ≡ true)
  unfolding apply_event is_final
  final_after env p event d d' s (fresh, e, inl (f, same)) = (fresh, rw same e, f)
  final_after env p event d d' s (fresh, e, inr (f, c)) = (
    written env (apply_event p event) fresh,
    Credited-find env (apply_event p event) fresh d d' e c,
    rw s,
  )

  -- Once a paid event has been processed without an error, a second delivery for the payment, with
  -- any event and any failing statements, changes nothing more if no other request wrote in between.
  pub process_event_twice :
      (env env' : Env) (provider provider' : String) (event event' : WebhookEvent) (p : Payment)
      → (merchant merchant' : Merchant) (w w' : World) → event.status ≡ PaymentStatus.paid
      → is_ok (process_event ops env provider event p merchant w).0 ≡ true
      → env'.others w'.clock w'.db ≡ (process_event ops env provider event p merchant w).1.db
      → (process_event ops env' provider' event' p merchant' w').1.db
        ≡ (process_event ops env provider event p merchant w).1.db
  process_event_twice env env' provider provider' event event' p merchant merchant' w w' s h quiet =
      let (row, e, f) =
        final_after env p event _ _ s
          (process_event-PaidOutcome ops env provider event p merchant w s h) in
      process_event-final ops env' provider' event' p row merchant' w' (rw quiet e) f ∙ quiet

  -- A paid event that is processed without an error, and meets a row that is not final, raises the
  -- balance of the payment's merchant by the amount less a fee between zero and the amount, and
  -- leaves every other balance alone.
  pub process_event-balance :
      (env : Env) (provider : String) (event : WebhookEvent) (p fresh : Payment)
      (merchant : Merchant)
      → (w : World) (merchant_id : String) → event.status ≡ PaymentStatus.paid
      → find (has_id p.id) (env.others w.clock w.db).payments ≡ some fresh
      → is_final fresh ≡ false
      → is_ok (process_event ops env provider event p merchant w).0 ≡ true
      → let before = balance merchant_id (env.others w.clock w.db).mutations in
        let after =
          balance merchant_id (process_event ops env provider event p merchant w).1.db.mutations in
        (fee : ℤ) × (pos 0 ≤ℤ fee)
        × (fee ≤ℤ p.amount)
        × (after ≡ (if p.merchant_id == merchant_id then before +ℤ (p.amount -ℤ fee) else before))
  unfolding apply_event
  process_event-balance env provider event p fresh merchant w merchant_id s found live h =
      outcome (process_event-PaidOutcome ops env provider event p merchant w s h)
    where
      d : Db
      d = env.others w.clock w.db

      d' : Db
      d' = (process_event ops env provider event p merchant w).1.db

      outcome :
          PaidOutcome env p event d d'
          → (fee : ℤ) × (pos 0 ≤ℤ fee)
            × (fee ≤ℤ p.amount)
            × (balance merchant_id d'.mutations ≡ (
                if p.merchant_id == merchant_id
                then balance merchant_id d.mutations +ℤ (p.amount -ℤ fee)
                else balance merchant_id d.mutations))
      outcome (fresh', e, inl (f, same)) = absurd (ground arith)
      outcome (fresh', e, inr (f, c)) = (
        c.fee,
        c.fee_nonneg,
        c.fee_within,
        Credited-balance env (apply_event p event) d d' merchant_id c,
      )
