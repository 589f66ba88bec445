-- ===== src/Cache/Idempotency/Defs.antt =====
-- The middleware over the memory cache. `next` is the rest of the request: it works on the cache,
-- which other requests may use meanwhile, and on a state `S` of the application.
use Prim.Native.String.{◌++◌ as append_text}
use wanpay.Base.{
  ℕ, ◌*◌, leb, Bool, true, false, ◌||◌, String, Option, none, some, List, ◌==◌, if◌then◌else◌,
}
use wanpay.Entity.Fee.{Time}
use wanpay.Db.Error.{Result, ok, err}
use wanpay.Db.Outbox.{second}
use wanpay.Cache.Memory.{MemoryCache, get, set, set_nx, del}

abbrev pub idempotency_ttl : Time
idempotency_ttl = 24 * 3600 * second

abbrev pub processing_ttl : Time
processing_ttl = 30 * second

-- `headers` are those that extractSafeHeaders keeps.
pub record CachedResponse : Type 0 where
  pub status_code : ℕ
  pub headers : List (String × String)
  pub body : String

-- What the cache holds: the guard, or a response.
pub data Stored : Type 0 where
  processing_guard : Stored
  response : CachedResponse → Stored

-- What `next` leaves: an error of the handler, and what it wrote.
pub record Outcome : Type 0 where
  pub failed : Bool
  pub response : CachedResponse

pub data Reply : Type 0 where
  passed : Outcome → Reply
  conflict : Reply
  replayed : CachedResponse → Reply

abbrev pub cache_key : String → String → String
cache_key merchant_id key =
    append_text "idempotency:" (append_text merchant_id (append_text ":" key))

module _ {S : Type 0} (next : MemoryCache Stored × S → Outcome × (MemoryCache Stored × S)) where
  pass : MemoryCache Stored × S → Reply × (MemoryCache Stored × S)
  pass s = let (out, s') = next s in (Reply.passed out, s')

  -- The key belongs to another request: it runs still, or its answer is there.
  answer_of : Option Stored → MemoryCache Stored × S → Reply × (MemoryCache Stored × S)
  unfolding pass
  answer_of none s = pass s
  answer_of (some Stored.processing_guard) s = (Reply.conflict, s)
  answer_of (some (Stored.response r)) s = (Reply.replayed r, s)

  -- After `next`, at the time `later`: an error or a 5xx gives the key back, any other answer is kept.
  unfoldable pub conclude_request :
      Time → String → Outcome → MemoryCache Stored × S → Reply × (MemoryCache Stored × S)
  conclude_request later key out (c, s) =
      if out.failed || leb 500 out.response.status_code
      then (Reply.passed out, (del key c, s))
      else (
        Reply.passed out,
        ((set later key (Stored.response out.response) idempotency_ttl c).1, s),
      )

  claimed_run : Time → String → MemoryCache Stored × S → Reply × (MemoryCache Stored × S)
  unfolding conclude_request
  claimed_run later key s = let (out, s') = next s in conclude_request later key out s'

  claim_result :
      Time → Time → String → Result Bool → MemoryCache Stored × S → Reply × (MemoryCache Stored × S)
  unfolding pass answer_of claimed_run
  claim_result now later key (err _) s = pass s
  claim_result now later key (ok true) s = claimed_run later key s
  claim_result now later key (ok false) (c, s) =
      let (value, c') = get now key c in answer_of value (c', s)

  -- `now` is the time at which the request comes, `later` that at which its handler has ended.
  unfoldable pub idempotency :
      Time → Time → String → String → MemoryCache Stored × S → Reply × (MemoryCache Stored × S)
  unfolding pass claim_result
  idempotency now later merchant_id key (c, s) =
      if key == "" || merchant_id == ""
      then pass (c, s)
      else (let k = cache_key merchant_id key in
          let (claim, c') = set_nx now k Stored.processing_guard processing_ttl c in
          claim_result now later k claim (c', s))
