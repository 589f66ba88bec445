-- ===== src/Examples/Caches.antt =====
-- A small cache and a request with a key.
use wanpay.Base.{ℕ, ◌+◌, false, ◌&&◌, none, some, [], ◌∷◌, ◌≡◌, refl, arith}
use wanpay.Db.Error.{is_ok}
use wanpay.Cache.Memory.{
  MemItem, MemoryCache, lookup, get, set, set_nx, del, exists, evict_expired, view, updated,
  updated_if, has_claimed, operations-refine, IsWithin, operations-IsWithin,
}
use wanpay.Cache.Idempotency.{
  Stored, CachedResponse, Outcome, Reply, cache_key, processing_ttl, conclude_request, idempotency,
  idempotency-conflict, conclude_request-replayed,
}

abbrev old_item : MemItem Stored
old_item = record { value = Stored.processing_guard; expires_at = some 3 }

abbrev cache : MemoryCache Stored
cache = record { items = ("old", old_item) ∷ []; max_items = 2 }

abbrev answer : CachedResponse
answer = record { status_code = 201; headers = []; body = "created" }

-- A handler that counts its runs.
abbrev handler : MemoryCache Stored × ℕ → Outcome × (MemoryCache Stored × ℕ)
handler (c, n) = (record { failed = false; response = answer }, (c, n + 1))

operations-IsWithin_example :
    IsWithin (set 10 "k" Stored.processing_guard 30 cache).1
    × IsWithin (set_nx 10 "k" Stored.processing_guard 30 cache).1
    × IsWithin (get 10 "k" cache).1
    × IsWithin (del "k" cache)
operations-IsWithin_example =
    operations-IsWithin 10 "k" Stored.processing_guard 30 cache (omega arith)

operations-refine_example :
    let guard = Stored.processing_guard in
    let (claimed, c') = set_nx 10 "k" guard 30 cache in
    ((get 10 "k" cache).0 ≡ none)
    × (view 10 (get 10 "k" cache).1 ≡ view 10 cache)
    × (exists 10 "k" cache ≡ false)
    × (view 10 (set 10 "k" guard 30 cache).1
        ≡ updated_if (is_ok (set 10 "k" guard 30 cache).0) (view 10 cache) "k" (some guard))
    × (view 10 c' ≡ updated_if (has_claimed claimed) (view 10 cache) "k" (some guard))
    × (((has_claimed claimed) && false) ≡ false)
    × (view 10 (del "k" cache) ≡ updated (view 10 cache) "k" none)
    × (view 10 (evict_expired 10 cache) ≡ view 10 cache)
unfolding lookup
operations-refine_example = operations-refine 10 "k" Stored.processing_guard 30 cache (refl, tt)

idempotency-conflict_example :
    let c' = (set_nx 10 (cache_key "m1" "k") Stored.processing_guard processing_ttl cache).1 in
    idempotency handler 20 30 "m1" "k" (c', 0) ≡ (Reply.conflict, (c', 0))
unfolding set_nx lookup
idempotency-conflict_example =
    idempotency-conflict handler 10 20 30 "m1" "k" cache 0 refl refl refl (omega arith)

conclude_request-replayed_example :
    let out : Outcome = record { failed = false; response = answer } in
    let c' = (conclude_request handler 10 (cache_key "m1" "k") out (cache, 1)).1.0 in
    idempotency handler 20 30 "m1" "k" (c', 1) ≡ (Reply.replayed answer, (c', 1))
unfolding set lookup
conclude_request-replayed_example =
    conclude_request-replayed handler 10 20 30 "m1" "k"
      (record { failed = false; response = answer }) cache 1 1 refl refl refl refl refl
      (omega arith)
