-- ===== src/Worker/Outbox/Claims.antt =====
-- Claims of events, one after another.
use wanpay.Base.{
  ◌+◌, ◌<◌, String, List, [], ◌∷◌, map, ◌≡◌, refl, true, false, arith, ◌==◌, ==→≡, ==_iff, update,
  select, any, All, All-take, All-any, All-select, All-map, All-trivial,
}
use wanpay.Entity.Fee.{Time}
use wanpay.Db.Error.{ok}
use wanpay.Db.Tables.{OutboxEvent}
use wanpay.Db.Monad.{Env, World, statement}
use wanpay.Db.Outbox.{has_event_id}
use wanpay.Worker.Outbox.Defs.{
  OutboxRow, outbox_row_of, is_due, insert_by_retry, earliest_first, due_events, is_among, leased,
  claim, claim_lease, fetch_and_claim,
}

module _ (P : OutboxEvent → Type 0) where
  All-insert_by_retry :
      (e : OutboxEvent) (xs : List OutboxEvent) → P e → All P xs → All P (insert_by_retry e xs)
  unfolding insert_by_retry
  All-insert_by_retry e [] h k = (h, tt)
  All-insert_by_retry e (x ∷ xs) h k = ground (arith, All-insert_by_retry e xs h k.1)

  All-earliest_first : (xs : List OutboxEvent) → All P xs → All P (earliest_first xs)
  unfolding earliest_first
  All-earliest_first [] h = tt
  All-earliest_first (x ∷ xs) h =
      All-insert_by_retry x (earliest_first xs) h.0 (All-earliest_first xs h.1)

-- What a claim leaves due is not what it claimed.
abbrev Unclaimed : Time → List OutboxEvent → OutboxEvent → Type 0
Unclaimed t due e = is_due t e ≡ true → any (has_event_id e.id) due ≡ false

leased-Unclaimed :
    (t now : Time) (due es : List OutboxEvent)
    → t < now + claim_lease
    → All (Unclaimed t due) (update (is_among due) (leased now) es)
leased-Unclaimed t now due [] h = tt
leased-Unclaimed t now due (e ∷ es) h = (ground arith, leased-Unclaimed t now due es h)

abbrev Free : List OutboxEvent → OutboxEvent → Type 0
Free due e = any (has_event_id e.id) due ≡ false

due_events-Free :
    (t : Time) (due es : List OutboxEvent)
    → All (Unclaimed t due) es
    → All (Free due) (due_events t es)
unfolding due_events
due_events-Free t due es h = All-take (Free due) 10 (earliest_first (select (is_due t) es)) (
    All-earliest_first (Free due) (select (is_due t) es)
      (All-select (Unclaimed t due) (Free due) (is_due t) es h (λ x u e. u e)))

not_among_rows :
    (due es : List OutboxEvent) (id : String)
    → any (has_event_id id) due ≡ false
    → any (λ (r : OutboxRow). r.id == id) (map outbox_row_of (select (is_among due) es)) ≡ false
unfolding outbox_row_of
not_among_rows due [] id h = refl
not_among_rows due (e ∷ es) id h = ground (arith, ==_iff e.id id, not_among_rows due es id h)

-- No event is claimed twice within a lease: what a second claim returns, on the tables that the first
-- one left and less than sixty seconds later, has none of the ids that the first one returned.
pub fetch_and_claim-disjoint :
    (env env' : Env) (rows rows' : List OutboxRow) (w w' : World)
    → env'.now < env.now + claim_lease
    → (fetch_and_claim env w).0 ≡ ok rows
    → w'.db ≡ (fetch_and_claim env w).1.db
    → (fetch_and_claim env' w').0 ≡ ok rows'
    → All (λ row'. any (λ (row : OutboxRow). row.id == row'.id) rows ≡ false) rows'
unfolding fetch_and_claim statement claim outbox_row_of
fetch_and_claim-disjoint env env' rows rows' w w' soon h same h' =
    let due = due_events env.now w.db.outbox in
    let es = update (is_among due) (leased env.now) w.db.outbox in
    let due' = due_events env'.now es in
    let left : w'.db.outbox ≡ es = ground (arith, same) in
    let first : rows ≡ map outbox_row_of (select (is_among due) w.db.outbox) = ground arith in
    let next : rows' ≡ map outbox_row_of (select (is_among due') es) = ground (arith, left) in
    let free =
      due_events-Free env'.now due es (leased-Unclaimed env'.now env.now due w.db.outbox soon) in
    rw (first, next)
      (All-map _ outbox_row_of (select (is_among due') es) (
        All-select (λ e. Unit {0}) _ (is_among due') es (All-trivial es)
          (λ e t among.
            let (x, f, i) = All-any (Free due) (has_event_id e.id) due' free among in
            not_among_rows due w.db.outbox e.id
              (rw (==→≡ e.id x.id (ground (arith, ==_iff x.id e.id, ==_iff e.id x.id))) f))))
