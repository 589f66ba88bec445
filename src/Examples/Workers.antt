-- ===== src/Examples/Workers.antt =====
-- The outbox and the expiry of payments.
use wanpay.Base.{
  ◌*◌, true, pos, wrap64, some, List, [], ◌∷◌, ◌++◌, map, ◌≡◌, refl, false, arith, ◌==◌, find,
  select, length, any, All,
}
use wanpay.Db.Error.{ok}
use wanpay.Db.Tables.{OutboxEvent}
use wanpay.Db.Monad.{Env, World, statement, query}
use wanpay.Db.Outbox.{has_event_id, second, schedule_retry, retry_scheduled, set_event}
use wanpay.Worker.Outbox.{
  OutboxRow, outbox_row_of, due_events, earliest_first, insert_by_retry, claim, fetch_and_claim,
  fetch_and_claim-disjoint, deliver, Outcome, in_time, deliver-Attempted, backoff, AreTimely,
  process_batch, deliver_all, fetch_signing_key, validate_webhook_url, post, signature_of,
  settle_delivery, poll_all, is_done, is_done-poll_all,
}
use wanpay.Entity.Audit.{PaymentAudit}
use wanpay.Worker.Expiry.{
  told, told_of, is_overdue, expire, expire_payments, expire_payments_complete,
}
use wanpay.Examples.Data.{env, tables, due_event, other_event}
use wanpay.Examples.Ports.{start, urls, http}

-- Thirty seconds later.
abbrev later : Env
later = record env { now = 35000000000 }

abbrev claimed : World
claimed = record { db = (fetch_and_claim env start).1.db; clock = 1 }

fetch_and_claim-disjoint_example :
    All
      (λ (row' : OutboxRow).
        any (λ (row : OutboxRow). row.id == row'.id) (outbox_row_of due_event ∷ []) ≡ false)
      (outbox_row_of other_event ∷ [])
unfolding fetch_and_claim statement claim due_events earliest_first insert_by_retry
fetch_and_claim-disjoint_example =
    fetch_and_claim-disjoint env later (outbox_row_of due_event ∷ [])
      (outbox_row_of other_event ∷ []) start claimed (omega arith) refl refl refl

deliver-Attempted_example :
    (e' : OutboxEvent) × (find
        (has_event_id "e1")
        (deliver env urls http (outbox_row_of due_event) start).1.db.outbox
      ≡ some e')
    × Outcome env (in_time env urls http (outbox_row_of due_event) start) due_event e'
deliver-Attempted_example =
    deliver-Attempted env urls http due_event start refl (omega arith) (λ d w. refl) (λ n. refl)

-- Two attempts are left.
abbrev tried : OutboxEvent
tried = record due_event { attempt_count = 3 }

abbrev lone : World
lone = record start { db = record tables { outbox = tried ∷ [] } }

-- A quarter of an hour later.
abbrev much_later : Env
much_later = record env { now = 905000000000 }

served : AreTimely urls http (env ∷ much_later ∷ []) lone
unfolding AreTimely process_batch deliver_all fetch_and_claim claim due_events earliest_first
    insert_by_retry outbox_row_of deliver validate_webhook_url post signature_of settle_delivery
    schedule_retry retry_scheduled set_event backoff wrap64 query statement fetch_signing_key
served = ((refl, tt), ((refl, tt), tt))

is_done-poll_all_example :
    (e' : OutboxEvent) × ((poll_all urls http (env ∷ much_later ∷ []) lone).db.outbox ≡ e' ∷ [])
    × (is_done e' ≡ true)
is_done-poll_all_example =
    is_done-poll_all urls http (λ d w. refl) (λ row w. omega arith) (env ∷ much_later ∷ []) tried
      lone refl ((λ n. refl), ((λ n. refl), tt)) served (omega arith)

-- The delays that the comment of the code lists.
backoff_seconds :
    map backoff (1 ∷ 2 ∷ 3 ∷ 4 ∷ 5 ∷ [])
    ≡ map (λ s. pos (s * second)) (10 ∷ 40 ∷ 90 ∷ 160 ∷ 250 ∷ [])
unfolding backoff wrap64
backoff_seconds = refl

expired : (expire_payments env start).0 ≡ ok 1
unfolding expire_payments statement expire
expired = refl

expire_payments_complete_example :
    let d' = (expire_payments env start).1.db in
    (All (λ p. is_overdue env p ≡ false) d'.payments)
    × ((added : List PaymentAudit) × (d'.audits ≡ tables.audits ++ added)
        × (map told added ≡ map (told_of env) (select (is_overdue env) tables.payments)))
    × (1 ≡ length (select (is_overdue env) tables.payments))
    × (d'.mutations ≡ tables.mutations)
expire_payments_complete_example = expire_payments_complete env 1 start expired

abbrev after_expiry : World
after_expiry = record { db = (expire_payments env start).1.db; clock = 5 }
