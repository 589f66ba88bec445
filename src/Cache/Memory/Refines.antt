-- ===== src/Cache/Memory/Refines.antt =====
-- The cache as a function from keys to values, and its operations as changes of it.
use mathlib.Core.Path.{fun_ext}
use wanpay.Base.{
  Bool, true, false, ◌&&◌, String, Option, none, some, List, [], ◌∷◌, ◌≡◌, refl, ◌==◌, ==_iff,
  if◌then◌else◌, arith, Option-cases, inl, inr,
}
use wanpay.Entity.Fee.{Time}
use wanpay.Db.Error.{Result, ok, err, is_ok}
use wanpay.Cache.Memory.Defs.{
  MemItem, MemoryCache, expiry, lookup, put, remove, evict_expired, get, set, set_nx, del, exists,
}
use wanpay.Cache.Memory.Laws.{IsMap, visible, visible-sweep}

-- Whether SetNX has stored its value.
abbrev pub has_claimed : Result Bool → Bool
has_claimed (ok b) = b
has_claimed (err e) = false

module _ {V : Type 0} where
  -- What a reader sees at a time: the value of a key that has one and has not expired.
  abbrev pub view : Time → MemoryCache V → String → Option V
  view now c key = visible now (lookup key c.items)

  -- A function, changed at one key.
  abbrev pub updated : (String → Option V) → String → Option V → String → Option V
  updated f key new k = if key == k then new else f k

  -- The same, where the operation was carried out.
  abbrev pub updated_if : Bool → (String → Option V) → String → Option V → String → Option V
  updated_if done f key new k = if done then updated f key new k else f k

  abbrev pub is_there : Option V → Bool
  is_there none = false
  is_there (some v) = true

  lookup-put_at :
      (key k : String) (new : MemItem V) (xs : List (String × MemItem V))
      → lookup k (put key new xs) ≡ (if key == k then some new else lookup k xs)
  unfolding lookup put
  lookup-put_at key k new [] = refl
  lookup-put_at key k new ((j, x) ∷ xs) =
      ground (arith, ==_iff key k, ==_iff j key, ==_iff j k, lookup-put_at key k new xs)

  lookup-remove_at :
      (key k : String) (xs : List (String × MemItem V))
      → lookup k (remove key xs) ≡ (if key == k then none else lookup k xs)
  unfolding lookup remove
  lookup-remove_at key k [] = ground arith
  lookup-remove_at key k ((j, x) ∷ xs) =
      ground (arith, ==_iff key k, ==_iff j key, ==_iff j k, lookup-remove_at key k xs)

  view-get :
      (now : Time) (key : String) (c : MemoryCache V)
      → ((get now key c).0 ≡ view now c key) × (view now (get now key c).1 ≡ view now c)
  unfolding get
  view-get now key c = elim (Option-cases (lookup key c.items)) [
    | inl missing ↦ (ground arith, fun_ext λ k. ground arith)
    | inr (item, e) ↦
        (ground arith, fun_ext λ k. ground (arith, ==_iff key k, lookup-remove_at key k c.items))
  ]

  view-set :
      (now : Time) (key : String) (value : V) (ttl : Time) (c : MemoryCache V)
      → view now (set now key value ttl c).1
        ≡ updated_if (is_ok (set now key value ttl c).0) (view now c) key (some value)
  unfolding set
  view-set now key value ttl c = fun_ext λ k.
      let new : MemItem V = record { value = value; expires_at = expiry now ttl } in
      ground (arith, lookup-put_at key k new c.items)

  view-set_nx :
      (now : Time) (key : String) (value : V) (ttl : Time) (c : MemoryCache V)
      → view now (set_nx now key value ttl c).1
        ≡ updated_if (has_claimed (set_nx now key value ttl c).0) (view now c) key (some value)
  unfolding set_nx
  view-set_nx now key value ttl c = fun_ext λ k.
      let new : MemItem V = record { value = value; expires_at = expiry now ttl } in
      ground (arith, lookup-put_at key k new c.items)

  view-del :
      (now : Time) (key : String) (c : MemoryCache V)
      → view now (del key c) ≡ updated (view now c) key none
  unfolding del
  view-del now key c = fun_ext λ k. ground (arith, lookup-remove_at key k c.items)

  -- The cache is a function from keys to values, of which an operation at a time shows and changes one
  -- key at most: Get and Exists read it and leave it alone, Set and SetNX write a value where they
  -- succeed and change nothing where they do not, SetNX never succeeds on a key that has a value, Del
  -- removes the key, and the sweep of expired entries is not seen.
  pub operations-refine :
      (now : Time) (key : String) (value : V) (ttl : Time) (c : MemoryCache V)
      → IsMap c.items
      → let (claimed, c') = set_nx now key value ttl c in
        ((get now key c).0 ≡ view now c key)
        × (view now (get now key c).1 ≡ view now c)
        × (exists now key c ≡ is_there (view now c key))
        × (view now (set now key value ttl c).1
            ≡ updated_if (is_ok (set now key value ttl c).0) (view now c) key (some value))
        × (view now c' ≡ updated_if (has_claimed claimed) (view now c) key (some value))
        × (((has_claimed claimed) && is_there (view now c key)) ≡ false)
        × (view now (del key c) ≡ updated (view now c) key none)
        × (view now (evict_expired now c) ≡ view now c)
  unfolding exists evict_expired set_nx
  operations-refine now key value ttl c h =
      let (read, kept) = view-get now key c in
      (
        read,
        kept,
        ground arith,
        view-set now key value ttl c,
        view-set_nx now key value ttl c,
        ground arith,
        view-del now key c,
        fun_ext λ k. visible-sweep now k c.items h,
      )
