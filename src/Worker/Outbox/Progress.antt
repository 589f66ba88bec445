-- ===== src/Worker/Outbox/Progress.antt =====
-- Deliveries, and how they leave an event.
use wanpay.Base.{
  ℕ, Bool, ◌+◌, ◌≤◌, ◌<◌, leb, String, some, ◌≡◌, refl, ◌⊎◌, inl, inr, true, false, arith,
  if◌then◌else◌, find, find-update, Bool-cases,
}
use wanpay.Db.Error.{Result, ok, err, is_ok, Result-cases}
use wanpay.Db.Tables.{OutboxEvent}
use wanpay.Db.Monad.{Env, World, statement, query}
use wanpay.Db.Outbox.{
  has_event_id, set_event, delivered, failed_final, retry_scheduled, attempts_check, mark_delivered,
  mark_failed_final, schedule_retry, after,
}
use wanpay.Worker.Outbox.Target.{UrlOps, validate_webhook_url}
use wanpay.Worker.Outbox.Defs.{
  OutboxRow, outbox_row_of, Delivery, HttpOps, backoff, fetch_signing_key, signature_of, post,
  settle_delivery, db_deadline, ends_in_time, deliver,
}

-- No other request commits while an event is sent.
abbrev pub IsQuietHttp : HttpOps → Type 0
IsQuietHttp http = (delivery : Delivery) (w : World) → (http.send delivery w).1.db ≡ w.db

-- Every attempt ends within the five seconds that its update has.
abbrev pub IsPrompt : HttpOps → Type 0
IsPrompt http = (row : OutboxRow) (w : World) → http.elapsed row w < db_deadline

-- How an event stands after an attempt: it is delivered, given up with all attempts used, or to be
-- tried again after the backoff.
abbrev pub Attempted : Env → OutboxEvent → OutboxEvent → Type 0
Attempted env e e' =
    (e.attempt_count < e'.attempt_count)
    × (e'.attempt_count ≤ e.max_attempts)
    × (e'.max_attempts ≡ e.max_attempts)
    × ((e'.delivered_at ≡ some env.now)
        ⊎ (((e'.attempt_count ≡ e.max_attempts) × (e'.failed_at ≡ some env.now))
            ⊎ ((e'.attempt_count ≡ e.attempt_count + 1)
                × (e'.attempt_count < e.max_attempts)
                × (e'.next_retry_at ≡ after env.now (backoff e'.attempt_count)))))

-- How it stands after an attempt that ended in time, or too late.
abbrev pub Outcome : Env → Bool → OutboxEvent → OutboxEvent → Type 0
Outcome env true e e' = Attempted env e e'
Outcome env false e e' = e' ≡ e

module _ (env : Env) where
  set_event-find :
      (f : OutboxEvent → OutboxEvent) (id : String) (e : OutboxEvent) (w : World)
      → find (has_event_id id) w.db.outbox ≡ some e
      → ((x : OutboxEvent) → has_event_id id (f x) ≡ has_event_id id x)
      → attempts_check (f e) ≡ true
      → env.statement_fails w.clock ≡ false
      → find (has_event_id id) (statement env (set_event id f) w).1.db.outbox ≡ some (f e)
  unfolding statement set_event
  set_event-find f id e w found keep c up =
      ground (arith, find-update (has_event_id id) f w.db.outbox e keep found)

  module _ (urls : UrlOps) (http : HttpOps) where
    settle_delivery-Attempted :
        (e : OutboxEvent) (answer : Result (Unit {0})) (w : World)
        → find (has_event_id e.id) w.db.outbox ≡ some e
        → e.attempt_count < e.max_attempts
        → env.statement_fails w.clock ≡ false
        → (e' : OutboxEvent) × (find
              (has_event_id e.id)
              (settle_delivery env urls http (outbox_row_of e) true answer w).1.db.outbox
            ≡ some e')
          × Attempted env e e'
    unfolding settle_delivery outbox_row_of mark_delivered mark_failed_final schedule_retry
        delivered failed_final retry_scheduled
    settle_delivery-Attempted e (ok a) w found more up = (
      delivered env e,
      set_event-find (delivered env) e.id e w found (λ x. refl) (ground arith) up,
      ground arith,
    )
    settle_delivery-Attempted e (err x) w found more up =
        let text = http.truncate (env.error_text x) in
        elim (Bool-cases (leb e.max_attempts (e.attempt_count + 1))) [
          | inl last ↦ (
            failed_final env text e,
            rw last (
                set_event-find (failed_final env text) e.id e w found (λ y. refl) (ground arith)
                  up),
            ground arith,
          )
          | inr again ↦
              let n = e.attempt_count + 1 in
              (
                retry_scheduled env text n (backoff n) e,
                rw again (
                    set_event-find (retry_scheduled env text n (backoff n)) e.id e w found
                      (λ y. refl) (ground arith) up),
                ground arith,
              )
        ]

    -- Past the deadline nothing is written.
    settle_delivery-late :
        (row : OutboxRow) (answer : Result (Unit {0})) (w : World)
        → (settle_delivery env urls http row false answer w).1.db ≡ w.db
    unfolding settle_delivery
    settle_delivery-late row (ok a) w = refl
    settle_delivery-late row (err x) w = ground arith

    signature_of-db :
        (row : OutboxRow) (w : World)
        → (signature_of env urls http row (record (row.payload) { delivery_id = row.id }) w).1.db
          ≡ w.db
    unfolding signature_of fetch_signing_key query
    signature_of-db row w = ground arith

    pub post-db :
        (row : OutboxRow) (w : World) → IsQuietHttp http → (post env urls http row w).1.db ≡ w.db
    unfolding post
    post-db row w quiet = grind (arith, quiet, signature_of-db)

    -- Whether an attempt at a row ends before the deadline of the update: a refused address ends it at
    -- once.
    abbrev pub in_time : OutboxRow → World → Bool
    in_time row w =
        let early = ends_in_time env urls http row w in
        if is_ok (validate_webhook_url urls row.target_url) then early else true

    pub in_time-IsPrompt : (row : OutboxRow) (w : World) → IsPrompt http → in_time row w ≡ true
    in_time-IsPrompt row w prompt =
        elim (Bool-cases (is_ok (validate_webhook_url urls row.target_url))) [
          | inl valid ↦ ground (arith, valid, prompt row w)
          | inr invalid ↦ ground (arith, invalid)
        ]

    -- An attempt to deliver an event that stands in the outbox, with attempts left: if it ends within
    -- the five seconds that its update has, it uses up at least one attempt, never more than there
    -- are, and leaves the event delivered, given up, or to be tried again after the backoff. If the
    -- receiver takes longer, whatever it answers, the event is left as it was, and no attempt is used
    -- up. The premises: no statement that runs fails, and no other request commits meanwhile.
    pub deliver-Attempted :
        (e : OutboxEvent) (w : World)
        → find (has_event_id e.id) w.db.outbox ≡ some e
        → e.attempt_count < e.max_attempts
        → IsQuietHttp http
        → ((n : ℕ) → env.statement_fails n ≡ false)
        → (e' : OutboxEvent) × (find
              (has_event_id e.id)
              (deliver env urls http (outbox_row_of e) w).1.db.outbox
            ≡ some e')
          × Outcome env (in_time (outbox_row_of e) w) e e'
    unfolding deliver mark_failed_final failed_final outbox_row_of
    deliver-Attempted e w found more quiet up =
        let row = outbox_row_of e in
        elim (Result-cases (validate_webhook_url urls row.target_url)) [
          | inl (a, valid) ↦
              let w₁ = (post env urls http row w).1 in
              let answer = (post env urls http row w).0 in
              let early = ends_in_time env urls http row w in
              let chain : deliver env urls http row w
                  ≡ settle_delivery env urls http row early answer w₁ =
                rw valid in
              let judged : in_time row w ≡ early = rw valid in
              let kept : find (has_event_id e.id) w₁.db.outbox ≡ some e =
                rw (post-db row w quiet) found in
              elim (Bool-cases early) [
                | inl soon ↦
                    rw (chain, judged, soon)
                      (settle_delivery-Attempted e answer w₁ kept more (up w₁.clock))
                | inr late ↦ (
                  e,
                  rw (chain, late, settle_delivery-late row answer w₁) kept,
                  rw (judged, late) refl,
                )
              ]
          | inr (x, invalid) ↦
              let f = failed_final env (env.error_text x) in
              (
                f e,
                rw invalid
                    (set_event-find f e.id e w found (λ y. refl) (ground arith) (up w.clock)),
                ground arith,
              )
        ]
