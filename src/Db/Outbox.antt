-- ===== src/Db/Outbox.antt =====
-- internal/infrastructure/database/postgres/outbox_repo.go, with the SQL of gen/outbox.sql.go.
use wanpay.Base.{
  ℕ, ◌+◌, ◌-◌, ◌*◌, ◌/◌, ℤ, pos, negsuc, leb, Bool, false, String, Option, none, some, List, select,
  [], ◌∷◌, ◌++◌, ◌==◌, if◌then◌else◌, any, find, update,
}
use wanpay.Entity.Fee.{Time}
use wanpay.Entity.Merchant.{Merchant}
use wanpay.Db.Error.{SqlError, sql, Result, ok, err}
use wanpay.Db.Payload.{Payload}
use wanpay.Db.Tables.{Db, OutboxEvent}
use wanpay.Db.Pages.{listed}
use wanpay.Db.Monad.{Env, M, statement, wrapped}

abbrev pub second : Time
second = 1000000000

-- The row that `INSERT` makes, with the defaults of the table: five attempts, the first at once.
abbrev pub outbox_row : Env → String → String → String → Payload → ℕ → OutboxEvent
outbox_row env event_type target_url merchant_id payload n = record {
  id = env.uuid n;
  event_type = event_type;
  payload = payload;
  target_url = target_url;
  attempt_count = 0;
  max_attempts = 5;
  next_retry_at = env.now;
  delivered_at = none;
  failed_at = none;
  last_error = none;
  created_at = env.now;
  merchant_id = if merchant_id == "" then none else some merchant_id;
}

unfoldable pub insert_outbox_event :
    Env → String → String → String → Payload → ℕ → Db → Result (OutboxEvent × Db)
insert_outbox_event env event_type target_url merchant_id payload n d =
    let row = outbox_row env event_type target_url merchant_id payload n in
    if any (λ (m : Merchant). m.id == merchant_id) d.merchants
    then ok (row, record d { outbox = d.outbox ++ row ∷ [] })
    else err (sql SqlError.foreign_key_violation)

unfoldable pub insert_event : Env → String → String → String → Payload → M OutboxEvent
insert_event env event_type target_url merchant_id payload =
    wrapped "insert outbox event"
      (statement env (insert_outbox_event env event_type target_url merchant_id payload))

abbrev pub has_event_id : String → OutboxEvent → Bool
has_event_id id e = e.id == id

-- `sql.NullString{String: s, Valid: s != ""}`
abbrev null_string : String → Option String
null_string s = if s == "" then none else some s

-- chk_attempt_count
abbrev pub attempts_check : OutboxEvent → Bool
attempts_check e = leb e.attempt_count e.max_attempts

-- `UPDATE outbox SET … WHERE id = $1`; an id with no row changes nothing and is no error.
unfoldable pub set_event : String → (OutboxEvent → OutboxEvent) → ℕ → Db → Result (Unit {0} × Db)
set_event id f n d = elim (find (has_event_id id) d.outbox) [
  | none ↦ ok (tt, d)
  | some e ↦
      if attempts_check (f e)
      then ok (tt, record d { outbox = update (has_event_id id) f d.outbox })
      else err (sql SqlError.check_violation)
]

unfoldable pub delivered : Env → OutboxEvent → OutboxEvent
delivered env e = record e { delivered_at = some env.now; attempt_count = e.attempt_count + 1 }

unfoldable pub failed_final : Env → String → OutboxEvent → OutboxEvent
failed_final env last_err e = record e {
  attempt_count = e.max_attempts;
  last_error = null_string last_err;
  failed_at = some env.now;
}

-- `NOW() + interval`, with `int(delay.Seconds())` whole seconds.
abbrev pub after : Time → ℤ → Time
after t (pos n) = t + n / second * second
after t (negsuc n) = t - (n + 1) / second * second

unfoldable pub retry_scheduled : Env → String → ℕ → ℤ → OutboxEvent → OutboxEvent
retry_scheduled env last_err attempt delay e = record e {
  attempt_count = attempt;
  last_error = null_string last_err;
  next_retry_at = after env.now delay;
}

unfoldable pub mark_delivered : Env → String → M (Unit {0})
unfolding delivered
mark_delivered env id =
    wrapped "mark outbox delivered" (statement env (set_event id (delivered env)))

unfoldable pub mark_failed_final : Env → String → String → M (Unit {0})
unfolding failed_final
mark_failed_final env id last_err =
    wrapped "mark outbox failed final" (statement env (set_event id (failed_final env last_err)))

unfoldable pub schedule_retry : Env → String → String → ℕ → ℤ → M (Unit {0})
unfolding retry_scheduled
schedule_retry env id last_err attempt delay =
    wrapped "schedule outbox retry"
      (statement env (set_event id (retry_scheduled env last_err attempt delay)))

abbrev pub of_merchant : String → OutboxEvent → Bool
of_merchant merchant_id e = elim e.merchant_id [ none ↦ false | some id ↦ id == merchant_id ]

-- `uuid.MustParse` of an identifier that the authentication has found does not panic.
unfoldable pub list_by_merchant : Env → String → ℤ → ℤ → M (List OutboxEvent × ℕ)
list_by_merchant env merchant_id page limit =
    listed env (λ e. e.created_at) "count outbox" "list outbox by merchant" page limit
      (λ d. select (of_merchant merchant_id) d.outbox)
