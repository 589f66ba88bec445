-- ===== src/Ledger/Keeps.antt =====
-- The ledger after an operation, by the way in which the operation is put together.
use wanpay.Base.{
  ℕ, Bool, true, false, String, ◌≡◌, refl, arith, if◌then◌else◌, subst, sym, inl, inr, Bool-cases,
}
use wanpay.Db.Error.{Result, ok, err, Result-cases}
use wanpay.Db.Tables.{Db}
use wanpay.Db.Monad.{
  Env, World, M, pure, lift, attempt, wrapped, found, ◌>>=◌, statement, query, run_in_tx, begun,
}
use wanpay.Db.Mutations.{IsLedger}

module _ {A : Type 0} where
  abbrev pub Keeps : M A → Type 0
  Keeps m = (w : World) → IsLedger w.db.mutations → IsLedger (m w).1.db.mutations

  pub pure-Keeps : (a : A) → Keeps (pure a)
  pure-Keeps a w h = h

  pub lift-Keeps : (r : Result A) → Keeps (lift r)
  lift-Keeps r w h = h

  pub wrapped-Keeps : (context : String) (m : M A) → Keeps m → Keeps (wrapped context m)
  wrapped-Keeps context m k w h = k w h

  pub found-Keeps : (message context : String) (m : M A) → Keeps m → Keeps (found message context m)
  found-Keeps message context m k w h = k w h

  pub if-Keeps : (b : Bool) (m k : M A) → Keeps m → Keeps k → Keeps (if b then m else k)
  if-Keeps true m k hm hk = hm
  if-Keeps false m k hm hk = hk

pub attempt-Keeps : {A : Type 0} (m : M A) → Keeps m → Keeps (attempt m)
attempt-Keeps m k w h = k w h

pub >>=-Keeps :
    {A B : Type 0} (m : M A) (f : A → M B) → Keeps m → ((a : A) → Keeps (f a)) → Keeps (m >>= f)
>>=-Keeps {A} {B} m f hm hf w h = go (m w) refl
  where
    go : (r : Result A × World) → m w ≡ r → IsLedger ((m >>= f) w).1.db.mutations
    go (ok a, w₁) e =
        let chain : (m >>= f) w ≡ f a w₁ = ground (arith, e) in
        subst (λ r. IsLedger r.1.db.mutations) (sym chain)
          (hf a w₁ (subst (λ r. IsLedger r.1.db.mutations) e (hm w h)))
    go (err x, w₁) e =
        let chain : (m >>= f) w ≡ (err x, w₁) = ground (arith, e) in
        subst (λ r. IsLedger r.1.db.mutations) (sym chain)
          (subst (λ r. IsLedger r.1.db.mutations) e (hm w h))

-- No other request spoils the ledger.
abbrev pub Honest : Env → Type 0
Honest env = (n : ℕ) (d : Db) → IsLedger d.mutations → IsLedger (env.others n d).mutations

module _ {A : Type 0} (env : Env) where
  pub statement-Keeps :
      (f : ℕ → Db → Result (A × Db))
      → ((n : ℕ) (d d' : Db) (a : A)
          → f n d ≡ ok (a, d')
          → IsLedger d.mutations
          → IsLedger d'.mutations)
      → Keeps (statement env f)
  unfolding statement
  statement-Keeps f k w h = elim (Result-cases (f w.clock w.db)) [
    | inr (x, e) ↦ ground arith
    | inl ((a, d'), e) ↦
        let after = k w.clock w.db d' a e h in
        elim (Bool-cases (env.statement_fails w.clock)) [
          | inl down ↦ rw down h
          | inr up ↦ rw (up, e) after
        ]
  ]

  pub query-Keeps : (f : Db → Result A) → Keeps (query env f)
  unfolding query
  query-Keeps f w h = elim (Result-cases (f w.db)) [
    | inr (x, e) ↦ ground arith
    | inl (a, e) ↦ ground arith
  ]

  pub run_in_tx-Keeps : (m : M A) → Honest env → Keeps m → Keeps (run_in_tx env m)
  unfolding run_in_tx
  run_in_tx-Keeps m honest k w h =
      let before = honest w.clock w.db h in ground (arith, before, k (begun env w) before)
