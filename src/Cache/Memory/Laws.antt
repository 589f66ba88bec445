-- ===== src/Cache/Memory/Laws.antt =====
-- The values that the cache keeps, and its bound.
use wanpay.Base.{
  ◌+◌, ◌≤◌, true, false, String, Option, none, some, List, [], ◌∷◌, ◌≡◌, refl, ==_refl, ==_iff,
  if◌then◌else◌, length, arith, Option-cases, inl, inr,
}
use wanpay.Entity.Fee.{Time}
use wanpay.Db.Error.{ok, is_ok}
use wanpay.Cache.Memory.Defs.{
  MemItem, MemoryCache, expired, expiry, lookup, put, remove, sweep, evict_expired, get, set,
  set_nx, del, exists,
}

module _ {V : Type 0} where
  lookup-put :
      (key : String) (new : MemItem V) (xs : List (String × MemItem V))
      → lookup key (put key new xs) ≡ some new
  unfolding lookup put
  lookup-put key new [] = ground (arith, ==_refl key)
  lookup-put key new ((k, x) ∷ xs) = ground (arith, ==_refl key, lookup-put key new xs)

  length-put-le :
      (key : String) (new : MemItem V) (xs : List (String × MemItem V))
      → length (put key new xs) ≤ length xs + 1
  unfolding put
  length-put-le key new [] = omega arith
  length-put-le key new ((k, x) ∷ xs) = ground (arith, length-put-le key new xs)

  length-put-present :
      (key : String) (new item : MemItem V) (xs : List (String × MemItem V))
      → lookup key xs ≡ some item
      → length (put key new xs) ≡ length xs
  unfolding lookup put
  length-put-present key new item [] h = cc
  length-put-present key new item ((k, x) ∷ xs) h =
      ground (arith, length-put-present key new item xs)

  length-remove-le :
      (key : String) (xs : List (String × MemItem V)) → length (remove key xs) ≤ length xs
  unfolding remove
  length-remove-le key [] = omega arith
  length-remove-le key ((k, x) ∷ xs) = ground (arith, length-remove-le key xs)

  -- The bound of the cache.
  abbrev pub IsWithin : MemoryCache V → Type 0
  IsWithin c = length c.items ≤ c.max_items

  -- No operation that stores or reads makes the cache larger than its bound.
  pub operations-IsWithin :
      (now : Time) (key : String) (value : V) (ttl : Time) (c : MemoryCache V)
      → IsWithin c
      → IsWithin (set now key value ttl c).1
        × IsWithin (set_nx now key value ttl c).1
        × IsWithin (get now key c).1
        × IsWithin (del key c)
  unfolding set set_nx get del
  operations-IsWithin now key value ttl c h =
      let new : MemItem V = record { value = value; expires_at = expiry now ttl } in
      let some_more = length-put-le key new c.items in
      let fewer = length-remove-le key c.items in
      elim (Option-cases (lookup key c.items)) [
        | inl missing ↦ ground arith
        | inr (item, e) ↦ ground (arith, length-put-present key new item c.items e)
      ]

  -- A claim excludes every other one until it expires: once SetNX has stored a value for a key, a
  -- second SetNX for it is refused at any time up to the end of the first one's life.
  pub set_nx-exclusive :
      (now later : Time) (key : String) (value other : V) (ttl ttl' : Time) (c : MemoryCache V)
      → (set_nx now key value ttl c).0 ≡ ok true
      → later ≤ now + ttl
      → set_nx later key other ttl' (set_nx now key value ttl c).1
        ≡ (ok false, (set_nx now key value ttl c).1)
  unfolding set_nx
  set_nx-exclusive now later key value other ttl ttl' c h soon =
      let new : MemItem V = record { value = value; expires_at = expiry now ttl } in
      ground (arith, lookup-put key new c.items)

  -- A value that is stored is read back up to the end of its life.
  pub get-set :
      (now later : Time) (key : String) (value : V) (ttl : Time) (c : MemoryCache V)
      → is_ok (set now key value ttl c).0 ≡ true
      → later ≤ now + ttl
      → get later key (set now key value ttl c).1 ≡ (some value, (set now key value ttl c).1)
  unfolding set get
  get-set now later key value ttl c h soon =
      let new : MemItem V = record { value = value; expires_at = expiry now ttl } in
      ground (arith, lookup-put key new c.items)

  -- SetNX is refused while a value that was stored is alive.
  pub set_nx-taken :
      (now later : Time) (key : String) (value other : V) (ttl ttl' : Time) (c : MemoryCache V)
      → is_ok (set now key value ttl c).0 ≡ true
      → later ≤ now + ttl
      → set_nx later key other ttl' (set now key value ttl c).1
        ≡ (ok false, (set now key value ttl c).1)
  unfolding set set_nx
  set_nx-taken now later key value other ttl ttl' c h soon =
      let new : MemItem V = record { value = value; expires_at = expiry now ttl } in
      ground (arith, lookup-put key new c.items)

  -- What a claim has stored is read back up to the end of its life.
  pub get-set_nx :
      (now later : Time) (key : String) (value : V) (ttl : Time) (c : MemoryCache V)
      → (set_nx now key value ttl c).0 ≡ ok true
      → later ≤ now + ttl
      → get later key (set_nx now key value ttl c).1 ≡ (some value, (set_nx now key value ttl c).1)
  unfolding set_nx get
  get-set_nx now later key value ttl c h soon =
      let new : MemItem V = record { value = value; expires_at = expiry now ttl } in
      ground (arith, lookup-put key new c.items)

  lookup-remove :
      (key : String) (xs : List (String × MemItem V)) → lookup key (remove key xs) ≡ none
  unfolding lookup remove
  lookup-remove key [] = refl
  lookup-remove key ((k, x) ∷ xs) = ground (arith, lookup-remove key xs)

  pub exists-del :
      (now : Time) (key : String) (c : MemoryCache V) → exists now key (del key c) ≡ false
  unfolding exists del
  exists-del now key c = ground (arith, lookup-remove key c.items)

  -- A key stands in a map once.
  abbrev pub IsMap : List (String × MemItem V) → Type 0
  IsMap [] = Unit
  IsMap ((k, item) ∷ items) = (lookup k items ≡ none) × IsMap items

  sweep-none :
      (now : Time) (key : String) (xs : List (String × MemItem V))
      → lookup key xs ≡ none
      → lookup key (sweep now xs) ≡ none
  unfolding lookup sweep
  sweep-none now key [] h = refl
  sweep-none now key ((k, x) ∷ xs) h = ground (arith, sweep-none now key xs)

  abbrev pub visible : Time → Option (MemItem V) → Option V
  visible now none = none
  visible now (some item) = if expired now item then none else some item.value

  pub visible-sweep :
      (now : Time) (key : String) (xs : List (String × MemItem V))
      → IsMap xs
      → visible now (lookup key (sweep now xs)) ≡ visible now (lookup key xs)
  unfolding lookup sweep
  visible-sweep now key [] h = refl
  visible-sweep now key ((k, x) ∷ xs) h =
      ground (arith, ==_iff k key, sweep-none now key xs, visible-sweep now key xs (h.1))

  -- The clean-up in the background is not seen: a read gives the same value after it as before.
  pub get-evict_expired :
      (now : Time) (key : String) (c : MemoryCache V)
      → IsMap c.items
      → (get now key (evict_expired now c)).0 ≡ (get now key c).0
  unfolding get evict_expired
  get-evict_expired now key c h = ground (arith, visible-sweep now key c.items h)
