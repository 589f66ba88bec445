-- ===== src/Worker/Outbox/Polls.antt =====
-- The polls of `Run`, for an outbox with one event.
use wanpay.Base.{
  ℕ, suc, ◌+◌, ◌≤◌, ◌<◌, leb, Bool, true, false, ◌||◌, String, Option, none, some, List, [], ◌∷◌,
  ◌≡◌, refl, subst, ◌∙◌, ap, inl, inr, arith, find, length, length-update, All, Bool-cases, ==_refl,
}
use wanpay.Db.Error.{Result, ok, err, Result-cases}
use wanpay.Db.Tables.{Db, OutboxEvent}
use wanpay.Db.Monad.{Env, World, M, pure, ◌>>=◌, statement}
use wanpay.Db.Outbox.{has_event_id, set_event, mark_delivered, mark_failed_final, schedule_retry}
use wanpay.Worker.Outbox.Target.{UrlOps, validate_webhook_url}
use wanpay.Worker.Outbox.Defs.{
  HttpOps, OutboxRow, outbox_row_of, is_due, leased, insert_by_retry, earliest_first, due_events,
  claim, fetch_and_claim, deliver_all, settle_delivery, deliver, process_batch,
}
use wanpay.Worker.Outbox.Progress.{
  IsQuietHttp, IsPrompt, Attempted, Outcome, in_time-IsPrompt, deliver-Attempted, post-db,
}

abbrev is_set {ℓ} : {A : Type ℓ} → Option A → Bool
is_set none = false
is_set (some a) = true

-- Delivered, or out of attempts: no poll claims the event again.
abbrev pub is_done : OutboxEvent → Bool
is_done e = is_set e.delivered_at || leb e.max_attempts e.attempt_count

module _ (env : Env) (urls : UrlOps) (http : HttpOps) where
  length-set_event :
      (id : String) (f : OutboxEvent → OutboxEvent) (w : World)
      → length (statement env (set_event id f) w).1.db.outbox ≡ length w.db.outbox
  unfolding statement set_event
  length-set_event id f w = ground (arith, length-update (has_event_id id) f w.db.outbox)

  length-settle_delivery :
      (row : OutboxRow) (early : Bool) (answer : Result (Unit {0})) (w : World)
      → length (settle_delivery env urls http row early answer w).1.db.outbox ≡ length w.db.outbox
  unfolding settle_delivery mark_delivered mark_failed_final schedule_retry
  length-settle_delivery row early (ok a) w = grind (arith, length-set_event)
  length-settle_delivery row early (err x) w = grind (arith, length-set_event)

  length-deliver :
      (row : OutboxRow) (w : World)
      → IsQuietHttp http
      → length (deliver env urls http row w).1.db.outbox ≡ length w.db.outbox
  unfolding deliver mark_failed_final
  length-deliver row w quiet =
      let kept = post-db env urls http row w quiet in
      elim (Result-cases (validate_webhook_url urls row.target_url)) [
        | inl (a, valid) ↦
            rw valid (length-settle_delivery row _ _ _ ∙ ap (λ d. length d.outbox) kept)
        | inr (x, invalid) ↦ rw invalid (length-set_event row.id _ w)
      ]

  claim-done :
      (n : ℕ) (d : Db) (e : OutboxEvent)
      → d.outbox ≡ e ∷ []
      → is_done e ≡ true
      → claim env n d ≡ ok ([], d)
  unfolding claim due_events earliest_first insert_by_retry
  claim-done n d e one done = ground (arith, one, done)

  claim-due :
      (n : ℕ) (d : Db) (e : OutboxEvent)
      → d.outbox ≡ e ∷ []
      → is_due env.now e ≡ true
      → claim env n d ≡ ok (outbox_row_of e ∷ [], record d { outbox = leased env.now e ∷ [] })
  unfolding claim due_events earliest_first insert_by_retry
  claim-due n d e one due = ground (arith, one, due, ==_refl e.id)

  >>=-run :
      {A B : Type 0} (m : M A) (f : A → M B) (w w' : World) (a : A)
      → m w ≡ (ok a, w')
      → (m >>= f) w ≡ f a w'
  >>=-run m f w w' a e = ground (arith, e)

  then_nothing : (m : M (Unit {0})) (w : World) → ((m >>= λ _. pure tt) w).1 ≡ (m w).1
  then_nothing m w = go (m w) refl
    where
      go : (r : Result (Unit {0}) × World) → m w ≡ r → ((m >>= λ _. pure tt) w).1 ≡ (m w).1
      go (ok a, w') e = ground (arith, e)
      go (err x, w') e = ground (arith, e)

  module _ (e : OutboxEvent) (w : World) (one : w.db.outbox ≡ e ∷ []) where
    module _ (up : env.statement_fails w.clock ≡ false) where
      fetch_and_claim-ok :
          (rows : List OutboxRow) (d : Db)
          → claim env w.clock w.db ≡ ok (rows, d)
          → fetch_and_claim env w ≡ (ok rows, record { db = d; clock = suc w.clock })
      unfolding fetch_and_claim statement
      fetch_and_claim-ok rows d c = rw (up, c) refl

      -- Nothing is claimed where the one event is done.
      process_batch-done : is_done e ≡ true → (process_batch env urls http w).1.db.outbox ≡ e ∷ []
      unfolding process_batch deliver_all
      process_batch-done done =
          ap (λ r. r.1.db.outbox)
            (>>=-run (fetch_and_claim env) (deliver_all env urls http) w
              (record { db = w.db; clock = suc w.clock }) []
              (fetch_and_claim-ok [] w.db (claim-done w.clock w.db e one done)))
          ∙ one

      -- The one event is claimed and delivered where it is due.
      process_batch-due :
          is_due env.now e ≡ true
          → (w₁ : World) × (w₁.db.outbox ≡ leased env.now e ∷ [])
            × ((process_batch env urls http w).1 ≡ (deliver env urls http (outbox_row_of e) w₁).1)
      unfolding process_batch deliver_all
      process_batch-due due =
          let w₁ : World = record {
            db = record (w.db) { outbox = leased env.now e ∷ [] };
            clock = suc w.clock;
          } in
          (
            w₁,
            refl,
            ap (λ r. r.1)
                  (>>=-run (fetch_and_claim env) (deliver_all env urls http) w w₁
                    (outbox_row_of e ∷ [])
                    (fetch_and_claim-ok (outbox_row_of e ∷ []) (w₁.db)
                      (claim-due w.clock w.db e one due)))
                ∙ then_nothing (deliver env urls http (outbox_row_of e)) w₁,
          )

one_of_length : (xs : List OutboxEvent) → length xs ≡ 1 → (x : OutboxEvent) × (xs ≡ x ∷ [])
one_of_length [] h = absurd (omega arith)
one_of_length (x ∷ []) h = (x, refl)
one_of_length (x ∷ y ∷ xs) h = absurd (omega arith)

-- `Run`: one batch after the other, each poll with its own environment and time. The polls before the
-- event's time, which claim nothing, are left out.
module _ (urls : UrlOps) (http : HttpOps) where
  unfoldable pub poll_all : List Env → World → World
  poll_all [] w = w
  poll_all (env ∷ envs) w = poll_all envs (process_batch env urls http w).1

  abbrev is_served : Env → OutboxEvent → Bool
  is_served env e = is_done e || is_due env.now e

  unfoldable pub AreTimely : List Env → World → Type 0
  AreTimely [] w = Unit {0}
  AreTimely (env ∷ envs) w =
      All (λ e. is_served env e ≡ true) w.db.outbox
      × AreTimely envs (process_batch env urls http w).1

  module _ (quiet : IsQuietHttp http) (prompt : IsPrompt http) where
    poll-due :
        (env : Env) (e : OutboxEvent) (w : World)
        → w.db.outbox ≡ e ∷ []
        → ((n : ℕ) → env.statement_fails n ≡ false)
        → is_due env.now e ≡ true
        → (e' : OutboxEvent) × ((process_batch env urls http w).1.db.outbox ≡ e' ∷ [])
          × (e.attempt_count < e'.attempt_count)
          × (e'.max_attempts ≡ e.max_attempts)
    unfolding outbox_row_of
    poll-due env e w one up due =
        let (w₁, claimed, same) = process_batch-due env urls http e w one (up w.clock) due in
        let le = leased env.now e in
        let found : find (has_event_id e.id) w₁.db.outbox ≡ some le =
          rw claimed (ground (arith, ==_refl e.id)) in
        let (e', found', outcome) =
          deliver-Attempted env urls http le w₁ found (ground (arith, due)) quiet up in
        let att : Attempted env le e' =
          subst (λ b. Outcome env b le e')
            (in_time-IsPrompt env urls http (outbox_row_of le) w₁ prompt) outcome in
        let (x, only) =
          one_of_length (deliver env urls http (outbox_row_of e) w₁).1.db.outbox
            (length-deliver env urls http (outbox_row_of e) w₁ quiet ∙ ap length claimed) in
        let is_it : x ≡ e' = ground (arith, found', only) in
        (e', ap (λ (v : World). v.db.outbox) same ∙ only ∙ ap (λ y. y ∷ []) is_it, att.0, att.2)

    poll_all-done :
        (envs : List Env) (e : OutboxEvent) (w : World)
        → w.db.outbox ≡ e ∷ []
        → All (λ env. (n : ℕ) → env.statement_fails n ≡ false) envs
        → is_done e ≡ true
        → (poll_all envs w).db.outbox ≡ e ∷ []
    unfolding poll_all
    poll_all-done [] e w one up done = one
    poll_all-done (env ∷ envs) e w one up done =
        poll_all-done envs e (process_batch env urls http w).1
          (process_batch-done env urls http e w one (up.0 w.clock) done) (up.1) done

    -- For an outbox with one event: once the worker has polled as often as the event has attempts
    -- left, the event is done, which is delivered, or out of attempts. The premises: at each poll
    -- the event is due if it is not done yet, every attempt ends within the five seconds that its
    -- update has, no statement fails, and no other request commits while an event is sent.
    pub is_done-poll_all :
        (envs : List Env) (e : OutboxEvent) (w : World)
        → w.db.outbox ≡ e ∷ []
        → All (λ env. (n : ℕ) → env.statement_fails n ≡ false) envs
        → AreTimely envs w
        → e.max_attempts ≤ e.attempt_count + length envs
        → (e' : OutboxEvent) × ((poll_all envs w).db.outbox ≡ e' ∷ []) × (is_done e' ≡ true)
    unfolding poll_all AreTimely
    is_done-poll_all [] e w one up timely enough = (e, one, ground arith)
    is_done-poll_all (env ∷ envs) e w one up timely enough = elim (Bool-cases (is_done e)) [
      | inl done ↦ (e, poll_all-done (env ∷ envs) e w one up done, done)
      | inr open_still ↦
          let served = (subst (All (λ x. is_served env x ≡ true)) one (timely.0)).0 in
          let (e₁, one₁, more, same) =
            poll-due env e w one (up.0) (ground (arith, served, open_still)) in
          is_done-poll_all envs e₁ (process_batch env urls http w).1 one₁ (up.1) (timely.1)
            (omega (arith, enough, more, same))
    ]
