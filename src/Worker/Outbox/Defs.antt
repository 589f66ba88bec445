-- ===== src/Worker/Outbox/Defs.antt =====
-- The claim of due events, one delivery, and the batch. The deliveries of a batch run in parallel in
-- the code; here they come one after the other, each over what the others left.
use wanpay.Base.{
  ℕ, ◌+◌, ◌*◌, ltb, leb, ℤ, pos, wrap64, Bool, true, false, ◌&&◌, ◌||◌, String, Option, none, some,
  List, [], ◌∷◌, map, ◌==◌, if◌then◌else◌, take, any, select, update, find,
}
use wanpay.Entity.Fee.{Time}
use wanpay.Db.Error.{external, row_or_none, Result, ok, err}
use wanpay.Db.Payload.{Payload}
use wanpay.Db.Tables.{Db, OutboxEvent}
use wanpay.Db.Monad.{Env, World, M, ◌>>=◌, pure, throw_if, lift, attempt, wrapped, statement, query}
use wanpay.Db.Merchants.{live_with_id}
use wanpay.Db.Outbox.{second, has_event_id, mark_delivered, mark_failed_final, schedule_retry}
use wanpay.Worker.Outbox.Target.{UrlOps, validate_webhook_url}

abbrev pub claim_lease : Time
claim_lease = 60 * second

-- outboxRow; the merchant's id is empty where the column is NULL.
pub record OutboxRow : Type 0 where
  pub id : String
  pub event_type : String
  pub payload : Payload
  pub target_url : String
  pub merchant_id : String
  pub attempt : ℕ
  pub max : ℕ

abbrev is_unset {ℓ} : {A : Type ℓ} → Option A → Bool
is_unset none = true
is_unset (some _) = false

abbrev text_or_empty : Option String → String
text_or_empty none = ""
text_or_empty (some s) = s

unfoldable pub outbox_row_of : OutboxEvent → OutboxRow
outbox_row_of e = record {
  id = e.id;
  event_type = e.event_type;
  payload = e.payload;
  target_url = e.target_url;
  merchant_id = text_or_empty e.merchant_id;
  attempt = e.attempt_count;
  max = e.max_attempts;
}

-- `delivered_at IS NULL AND attempt_count < max_attempts AND next_retry_at <= NOW()`
abbrev pub is_due : Time → OutboxEvent → Bool
is_due now e =
    is_unset e.delivered_at && ltb e.attempt_count e.max_attempts && leb e.next_retry_at now

-- `ORDER BY next_retry_at`
unfoldable pub insert_by_retry : OutboxEvent → List OutboxEvent → List OutboxEvent
insert_by_retry e [] = e ∷ []
insert_by_retry e (x ∷ xs) =
    let rest = insert_by_retry e xs in
    if ltb x.next_retry_at e.next_retry_at then x ∷ rest else e ∷ x ∷ xs

unfoldable pub earliest_first : List OutboxEvent → List OutboxEvent
unfolding insert_by_retry
earliest_first [] = []
earliest_first (e ∷ es) = insert_by_retry e (earliest_first es)

-- The inner `SELECT`: no other transaction holds a row while the statement runs.
unfoldable pub due_events : Time → List OutboxEvent → List OutboxEvent
due_events now es = take 10 (earliest_first (select (is_due now) es))

abbrev pub is_among : List OutboxEvent → OutboxEvent → Bool
is_among es e = any (λ x. has_event_id e.id x) es

abbrev pub leased : Time → OutboxEvent → OutboxEvent
leased now e = record e { next_retry_at = now + claim_lease }

unfoldable pub claim : Env → ℕ → Db → Result (List OutboxRow × Db)
claim env n d =
    let due = due_events env.now d.outbox in
    ok (
      map outbox_row_of (select (is_among due) d.outbox),
      record d { outbox = update (is_among due) (leased env.now) d.outbox },
    )

unfoldable pub fetch_and_claim : Env → M (List OutboxRow)
fetch_and_claim env = statement env (claim env)

-- `time.Duration(math.Pow(float64(attempt), 2)) * 10 * time.Second`; the square is exact in a float64
-- up to 2 ^ 53, and the product wraps.
unfoldable pub backoff : ℕ → ℤ
backoff attempt = wrap64 (pos (attempt * attempt * (10 * second)))

-- The deadline of `dbCtx`, counted from the start of a delivery.
abbrev pub db_deadline : Time
db_deadline = 5 * second

-- A statement under `dbCtx`: past the deadline it is not run, and the error is that of the context.
abbrev pub before_deadline : {A : Type 0} → Bool → M A → M A
before_deadline in_time m w =
    let ran = m w in if in_time then ran else (err (external "context deadline exceeded"), w)

-- What goes over the wire: the payload with the delivery's id, and the three headers.
pub record Delivery : Type 0 where
  pub url : String
  pub payload : Payload
  pub event : String
  pub delivery_id : String
  pub signature : Option String

-- `build` is `http.NewRequestWithContext`, which refuses a URL; `send` is `httpClient.Do`, which
-- answers with a status code and during which other requests may be served, and `elapsed` is how long
-- `post` takes in a world, which the client's timeout bounds by ten seconds and more; `sign` is the HMAC of the
-- serialised payload, and `truncate` cuts a text to 500 bytes.
pub record HttpOps : Type 0 where
  pub build : String → Result (Unit {0})
  pub send : Delivery → M ℕ
  pub elapsed : OutboxRow → World → Time
  pub sign : String → Payload → String
  pub truncate : String → String

unfoldable pub fetch_signing_key : Env → String → M String
fetch_signing_key env merchant_id = do
  m ← query env (λ d. row_or_none (find (live_with_id merchant_id) d.merchants))
  pure m.webhook_signing_key

module _ (env : Env) (urls : UrlOps) (http : HttpOps) where
  -- No key, or an empty one, sends the event unsigned.
  signed : Payload → Result String → Option String
  signed payload (err _) = none
  signed payload (ok key) = if key == "" then none else some (http.sign key payload)

  unfoldable pub signature_of : OutboxRow → Payload → M (Option String)
  unfolding signed
  signature_of row payload =
      if row.merchant_id == ""
      then pure none
      else (do key ← attempt (fetch_signing_key env row.merchant_id); pure (signed payload key))

  unfoldable pub post : OutboxRow → M (Unit {0})
  post row =
      let payload = record (row.payload) { delivery_id = row.id } in
      (do
        _ ← wrapped "build request" (lift (http.build row.target_url))
        signature ← signature_of row payload
        status ← wrapped "http post" (
            http.send (record {
              url = row.target_url;
              payload = payload;
              event = row.event_type;
              delivery_id = row.id;
              signature = signature;
            }))
        throw_if (ltb status 200 || leb 300 status) (external "non-2xx response: %d"))

  -- After the attempt: delivered, given up, or to be tried again, where the deadline is not past. An
  -- error of the database is logged.
  unfoldable pub settle_delivery : OutboxRow → Bool → Result (Unit {0}) → M (Unit {0})
  settle_delivery row in_time (ok _) = do
    _ ← attempt (before_deadline in_time (mark_delivered env row.id))
    pure tt
  settle_delivery row in_time (err e) =
      if leb row.max (row.attempt + 1)
      then (do
        _ ← attempt (
            before_deadline in_time
              (mark_failed_final env row.id (http.truncate (env.error_text e))))
        pure tt)
      else (do
        _ ← attempt (
            before_deadline in_time (
              schedule_retry env row.id (http.truncate (env.error_text e)) (row.attempt + 1)
                (backoff (row.attempt + 1))))
        pure tt)

  -- Whether `post` ends before the deadline.
  abbrev pub ends_in_time : OutboxRow → World → Bool
  ends_in_time row w = ltb (http.elapsed row w) db_deadline

  deliver_valid : OutboxRow → Result (Unit {0}) → M (Unit {0})
  deliver_valid row (err e) w =
      (do _ ← attempt (mark_failed_final env row.id (env.error_text e)); pure tt) w
  deliver_valid row (ok _) w =
      (do answer ← attempt (post row); settle_delivery row (ends_in_time row w) answer) w

  unfoldable pub deliver : OutboxRow → M (Unit {0})
  unfolding deliver_valid
  deliver row = deliver_valid row (validate_webhook_url urls row.target_url)

  unfoldable pub deliver_all : List OutboxRow → M (Unit {0})
  deliver_all [] = pure tt
  deliver_all (row ∷ rows) = do _ ← deliver row; deliver_all rows

  unfoldable pub process_batch : M (Unit {0})
  unfolding deliver_all
  process_batch = do rows ← fetch_and_claim env; deliver_all rows
