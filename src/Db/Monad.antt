-- ===== src/Db/Monad.antt =====
-- internal/infrastructure/database/db.go: statements and transactions.
-- Each statement takes a number. The environment says which statements fail, what the generated
-- identifiers are, and what other connections commit before a transaction begins.
use wanpay.Base.{ℕ, suc, ◌≡◌, refl, Bool, false, String, arith, if◌then◌else◌}
use wanpay.Entity.Fee.{Time}
use wanpay.Db.Error.{
  Error, SqlError, sql, wrap, not_found, unauthorized, is_no_rows, is_ok, Result, ok, err,
}
use wanpay.Db.Tables.{Db}

-- `row_uuid` is the identifier that a statement generates for each of its rows. `decimal` prints a number (`%d`), `random_hex` is what `crypto/rand` gives at a call, `today` the
-- day of `now`, `day_start` the midnight, in the time zone of the
-- database session, of the date that it is in Jakarta, `error_text` what
-- `err.Error()` returns, and `locks_counts` says whether the server takes FOR UPDATE beside an aggregate
-- function, which the documentation of Postgres excludes.
pub record Env : Type 0 where
  pub now : Time
  pub today : ℕ
  pub day_start : Time
  pub statement_fails : ℕ → Bool
  pub uuid : ℕ → String
  pub row_uuid : ℕ → ℕ → String
  pub random_hex : ℕ → String
  pub decimal : ℕ → String
  pub others : ℕ → Db → Db
  pub error_text : Error → String
  pub locks_counts : Bool

pub record World : Type 0 where
  pub db : Db
  pub clock : ℕ

abbrev pub M : Type 0 → Type 0
M A = World → Result A × World

module _ {A : Type 0} where
  abbrev pub pure : A → M A
  pure a w = (ok a, w)

  abbrev pub throw : Error → M A
  throw e w = (err e, w)

  abbrev pub lift : Result A → M A
  lift r w = (r, w)

  abbrev pub wrap_result : String → Result A → Result A
  wrap_result context (ok a) = ok a
  wrap_result context (err e) = err (wrap context e)

  -- `if err != nil { return fmt.Errorf("context: %w", err) }`
  abbrev pub wrapped : String → M A → M A
  wrapped context m w = let (r, w') = m w in (wrap_result context r, w')

  -- No row is `apperror.NotFound`, and another error is wrapped.
  abbrev pub found_result : String → String → Result A → Result A
  found_result message context (ok a) = ok a
  found_result message context (err e) =
      if is_no_rows e then err (not_found message) else err (wrap context e)

  abbrev pub found : String → String → M A → M A
  found message context m w = let (r, w') = m w in (found_result message context r, w')

  -- `if err != nil { return apperror.Unauthorized(…) }`: what failed is not told.
  abbrev hidden_result : String → Result A → Result A
  hidden_result message (ok a) = ok a
  hidden_result message (err _) = err (unauthorized message)

  abbrev pub or_unauthorized : String → M A → M A
  or_unauthorized message m w = let (r, w') = m w in (hidden_result message r, w')

  -- The caller looks at the error itself.
  abbrev pub attempt : M A → M (Result A)
  attempt m w = let (r, w') = m w in (ok r, w')

infixl 5 ◌>>=◌ ◌>>◌
abbrev pub ◌>>=◌ : {A B : Type 0} → M A → (A → M B) → M B
◌>>=◌ m f w = let (r, w') = m w in elim r [ ok a ↦ f a w' | err e ↦ (err e, w') ]

abbrev pub ◌>>◌ : {B : Type 0} → M (Unit {0}) → M B → M B
m >> k = m >>= λ _. k

-- `if c { return err }`
abbrev pub throw_if : Bool → Error → M (Unit {0})
throw_if c e w = (if c then err e else ok tt, w)

-- The world in which a transaction begins.
abbrev pub begun : Env → World → World
begun env w = record { db = env.others w.clock w.db; clock = suc w.clock }

module _ {A : Type 0} (env : Env) where
  abbrev committed : ℕ → World → Result (A × Db) → Result A × World
  committed n w (ok (a, d)) = (ok a, record { db = d; clock = suc n })
  committed n w (err e) = (err e, record w { clock = suc n })

  -- One SQL statement. It fails, or is run whole on the tables.
  unfoldable pub statement : (ℕ → Db → Result (A × Db)) → M A
  statement f w =
      let n = w.clock in
      if env.statement_fails n
      then (err (sql SqlError.connection), record w { clock = suc n })
      else committed n w (f n w.db)

  abbrev pub reading : (Db → Result A) → ℕ → Db → Result (A × Db)
  reading f n d = elim (f d) [ ok a ↦ ok (a, d) | err e ↦ err e ]

  unfoldable pub query : (Db → Result A) → M A
  unfolding statement
  query f = statement (reading f)

  -- `tx.Rollback` and `tx.Commit` are statements as well; a commit that fails has changed nothing.
  roll_back : Error → World → World → Result A × World
  roll_back e before after =
      let n = after.clock in
      (
        if env.statement_fails n then err (wrap "rollback" (sql SqlError.connection)) else err e,
        record { db = before.db; clock = suc n },
      )

  commit : A → World → World → Result A × World
  commit a before after =
      let n = after.clock in
      if env.statement_fails n
      then (
        err (wrap "commit tx" (sql SqlError.connection)),
        record { db = before.db; clock = suc n },
      )
      else (ok a, record after { clock = suc n })

  finish : World → Result A × World → Result A × World
  unfolding roll_back commit
  finish before (ok a, after) = commit a before after
  finish before (err e, after) = roll_back e before after

  unfoldable pub run_in_tx : M A → M A
  unfolding finish
  run_in_tx body w =
      let before = begun env w in
      if env.statement_fails w.clock
      then (err (wrap "begin tx" (sql SqlError.connection)), before)
      else finish before (body before)

  -- What a transaction has done by the time that it returns.
  abbrev pub Atomic : M A → World → Result A × World → Type 0
  Atomic body w (ok a, w') = ((body (begun env w)).0 ≡ ok a) × ((body (begun env w)).1.db ≡ w'.db)
  Atomic body w (err e, w') = w'.db ≡ env.others w.clock w.db

module _ {A : Type 0} (env : Env) where
  -- A transaction that returns an error has left no trace, and one that returns a value has
  -- done all that its body did.
  pub run_in_tx-Atomic : (body : M A) (w : World) → Atomic env body w (run_in_tx env body w)
  unfolding run_in_tx
  run_in_tx-Atomic body w = ground arith

  -- A body that ends with an error ends its transaction with one.
  pub run_in_tx-err :
      (body : M A) (w : World)
      → is_ok (body (begun env w)).0 ≡ false
      → (is_ok (run_in_tx env body w).0 ≡ false)
        × ((run_in_tx env body w).1.db ≡ env.others w.clock w.db)
  unfolding run_in_tx
  run_in_tx-err body w h = ground arith

-- A chain that succeeds has run both its parts.
pub >>=-ok :
    {A B : Type 0} (m : M A) (f : A → M B) (w w' : World) (b : B)
    → (m >>= f) w ≡ (ok b, w')
    → (a : A) × (w₁ : World) × (m w ≡ (ok a, w₁)) × (f a w₁ ≡ (ok b, w'))
>>=-ok {A} {B} m f w w' b h = split (m w) refl
  where
    split :
        (r : Result A × World)
        → m w ≡ r
        → (a : A) × (w₁ : World) × (m w ≡ (ok a, w₁)) × (f a w₁ ≡ (ok b, w'))
    split (ok a, w₁) e = (a, w₁, e, ground (arith, e))
    split (err x, w₁) e = ground (arith, e)
