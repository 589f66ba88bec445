-- ===== src/Cache/Memory/Defs.antt =====
-- memoryCache. A map is an association list; an operation runs under the lock, at a time `now`. A
-- value is kept as it is, not as bytes.
use wanpay.Base.{
  ℕ, ◌+◌, ltb, leb, Bool, true, false, not, ◌&&◌, String, Option, none, some, List, [], ◌∷◌, ◌==◌,
  if◌then◌else◌, length,
}
use wanpay.Entity.Fee.{Time}
use wanpay.Db.Error.{external, Result, ok, err}

-- `none` is the zero time: no expiry.
pub record MemItem (V : Type 0) : Type 0 where
  pub value : V
  pub expires_at : Option Time

pub record MemoryCache (V : Type 0) : Type 0 where
  pub items : List (String × MemItem V)
  pub max_items : ℕ

abbrev past : Time → Option Time → Bool
past now none = false
past now (some t) = ltb t now

abbrev pub expiry : Time → Time → Option Time
expiry now ttl = if leb ttl 0 then none else some (now + ttl)

module _ {V : Type 0} where
  abbrev pub expired : Time → MemItem V → Bool
  expired now item = past now item.expires_at

  unfoldable pub lookup : String → List (String × MemItem V) → Option (MemItem V)
  lookup key [] = none
  lookup key ((k, item) ∷ items) = if k == key then some item else lookup key items

  unfoldable pub put : String → MemItem V → List (String × MemItem V) → List (String × MemItem V)
  put key new [] = (key, new) ∷ []
  put key new ((k, item) ∷ items) =
      let rest = put key new items in if k == key then (k, new) ∷ items else (k, item) ∷ rest

  unfoldable pub remove : String → List (String × MemItem V) → List (String × MemItem V)
  remove key [] = []
  remove key ((k, item) ∷ items) =
      let rest = remove key items in if k == key then rest else (k, item) ∷ rest

  unfoldable pub sweep : Time → List (String × MemItem V) → List (String × MemItem V)
  sweep now [] = []
  sweep now ((k, item) ∷ items) =
      let rest = sweep now items in if expired now item then rest else (k, item) ∷ rest

  abbrev live : Time → Option (MemItem V) → Bool
  live now none = false
  live now (some item) = not (expired now item)

  abbrev present : Option (MemItem V) → Bool
  present none = false
  present (some item) = true

  unfoldable pub evict_expired : Time → MemoryCache V → MemoryCache V
  unfolding sweep
  evict_expired now c = record c { items = sweep now c.items }

  unfoldable pub get : Time → String → MemoryCache V → Option V × MemoryCache V
  unfolding lookup remove
  get now key c = elim (lookup key c.items) [
    | none ↦ (none, c)
    | some item ↦
        if expired now item
        then (none, record c { items = remove key c.items })
        else (some item.value, c)
  ]

  abbrev full : MemoryCache V → Bool
  full c = leb c.max_items (length c.items)

  abbrev stored : Time → String → V → Time → MemoryCache V → MemoryCache V
  stored now key value ttl c = record c {
    items = put key (record { value = value; expires_at = expiry now ttl }) c.items;
  }

  unfoldable pub set : Time → String → V → Time → MemoryCache V → Result (Unit {0}) × MemoryCache V
  unfolding lookup put
  set now key value ttl c =
      if not (present (lookup key c.items)) && full c
      then (err (external "cache: capacity limit reached (%d items)"), c)
      else (ok tt, stored now key value ttl c)

  unfoldable pub set_nx : Time → String → V → Time → MemoryCache V → Result Bool × MemoryCache V
  unfolding lookup put
  set_nx now key value ttl c =
      if live now (lookup key c.items)
      then (ok false, c)
      else if full c
      then (err (external "cache: capacity limit reached (%d items)"), c)
      else (ok true, stored now key value ttl c)

  unfoldable pub del : String → MemoryCache V → MemoryCache V
  unfolding remove
  del key c = record c { items = remove key c.items }

  unfoldable pub exists : Time → String → MemoryCache V → Bool
  unfolding lookup
  exists now key c = live now (lookup key c.items)
