-- ===== src/Cache/Idempotency/Laws.antt =====
-- What a client that retries can rely on.
use wanpay.Base.{◌+◌, ◌≤◌, leb, true, false, ◌||◌, String, ◌≡◌, ◌==◌, arith}
use wanpay.Entity.Fee.{Time}
use wanpay.Db.Error.{ok, is_ok}
use wanpay.Cache.Memory.{
  MemoryCache, set, set_nx, exists, set_nx-exclusive, get-set, set_nx-taken, get-set_nx, exists-del,
}
use wanpay.Cache.Idempotency.Defs.{
  Stored, Outcome, Reply, cache_key, idempotency_ttl, processing_ttl, conclude_request, idempotency,
}

module _ {S : Type 0} (next : MemoryCache Stored × S → Outcome × (MemoryCache Stored × S)) where
  -- A request that comes with the key of one that is still running is answered with a conflict, and
  -- its handler does not run. The premise: it comes within the thirty seconds that the claim lives.
  pub idempotency-conflict :
      (now now' later' : Time) (merchant_id key : String) (c : MemoryCache Stored) (s : S)
      → (key == "") ≡ false
      → (merchant_id == "") ≡ false
      → (set_nx now (cache_key merchant_id key) Stored.processing_guard processing_ttl c).0
        ≡ ok true
      → now' ≤ now + processing_ttl
      → let c' =
          (set_nx now (cache_key merchant_id key) Stored.processing_guard processing_ttl c).1 in
        idempotency next now' later' merchant_id key (c', s) ≡ (Reply.conflict, (c', s))
  unfolding idempotency
  idempotency-conflict now now' later' merchant_id key c s k m claim soon =
      let id = cache_key merchant_id key in
      let excluded =
        set_nx-exclusive now now' id Stored.processing_guard Stored.processing_guard processing_ttl
          processing_ttl c claim soon in
      let held = get-set_nx now now' id Stored.processing_guard processing_ttl c claim soon in
      ground (arith, excluded, held)

  -- A retry of a request that ended well gets the first answer again, and its handler does not run:
  -- within twenty-four hours, if the answer could be stored.
  pub conclude_request-replayed :
      (later now' later' : Time) (merchant_id key : String) (out : Outcome) (c : MemoryCache Stored)
      → (s s' : S) → (key == "") ≡ false
      → (merchant_id == "") ≡ false
      → out.failed ≡ false
      → leb 500 out.response.status_code ≡ false
      → is_ok
          (set later (cache_key merchant_id key) (Stored.response out.response) idempotency_ttl c).0
        ≡ true
      → now' ≤ later + idempotency_ttl
      → let c' = (conclude_request next later (cache_key merchant_id key) out (c, s)).1.0 in
        idempotency next now' later' merchant_id key (c', s')
        ≡ (Reply.replayed out.response, (c', s'))
  unfolding idempotency conclude_request
  conclude_request-replayed later now' later' merchant_id key out c s s' k m fine status kept soon =
      let id = cache_key merchant_id key in
      let held = get-set later now' id (Stored.response out.response) idempotency_ttl c kept soon in
      let taken =
        set_nx-taken later now' id (Stored.response out.response) Stored.processing_guard
          idempotency_ttl processing_ttl c kept soon in
      ground (arith, held, taken)

  -- A request that fails gives its key back: a retry claims it again and runs, if there is room.
  pub conclude_request-retried :
      (later now' : Time) (key : String) (out : Outcome) (c : MemoryCache Stored) (s : S)
      → (out.failed || leb 500 out.response.status_code) ≡ true
      → let c' = (conclude_request next later key out (c, s)).1.0 in
        (exists now' key c' ≡ false)
        × ((conclude_request next later key out (c, s)).0 ≡ Reply.passed out)
  unfolding conclude_request
  conclude_request-retried later now' key out c s bad = ground (arith, exists-del now' key c)
