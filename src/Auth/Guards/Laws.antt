-- ===== src/Auth/Guards/Laws.antt =====
-- Who passes a guard: the merchant that owns a key, and the addresses of a provider's list.
use Prim.Native.String.{◌++◌ as append_text}
use text.Mathlib.TextLemmas.{append-eq-nil_iff}
use wanpay.Base.{
  suc, Bool, true, false, not, ◌||◌, String, Option, none, some, List, [], ◌∷◌, ◌≡◌, refl, sym,
  subst, ◌==◌, ==_iff, ==_refl, any, find, update, find_sound, arith, if◌then◌else◌, Option-cases,
  Bool-cases, inl, inr,
}
use wanpay.Entity.Merchant.{Merchant, can_transact}
use wanpay.Db.Error.{forbidden, ok, err}
use wanpay.Db.Monad.{Env, World, statement, query}
use wanpay.Db.Merchants.{live_with_id, live_with_key, find_by_api_key, find_merchant_by_id}
use wanpay.Db.Accounts.{clashes, merchant_written, update_merchant, update_merchant_row}
use wanpay.Merchant.{regenerate_api_key}
use wanpay.Auth.Guards.Defs.{
  api_key_auth, Net, as_cidr, parse_nets, permitted, admit, webhook_ip_allowlist,
}

-- Where the constraint holds for a merchant's new row, its key finds it.
find_by_key-update :
    (env : Env) (m row : Merchant) (xs : List Merchant)
    → any (clashes m) xs ≡ false
    → find (live_with_id m.id) xs ≡ some row
    → find (live_with_key m.api_key) (update (live_with_id m.id) (merchant_written env m) xs)
      ≡ some (merchant_written env m row)
find_by_key-update env m row [] free h = cc
find_by_key-update env m row (x ∷ xs) free h =
    ground (arith, ==_refl m.api_key, find_by_key-update env m row xs)

append-not_empty : (p t : String) → (p == "") ≡ false → (append_text p t == "") ≡ false
append-not_empty p t h =
    ground (arith, ==_iff p "", ==_iff (append_text p t) "", append-eq-nil_iff {p = p} {q = t})

prefix-not_empty :
    (production : Bool) → ((if production then "wpay_live_" else "wpay_test_") == "") ≡ false
prefix-not_empty true = refl
prefix-not_empty false = refl

module _ (hash : String → String) (env : Env) where
  -- A request that passes carries a key whose hash belongs to a merchant that is not deleted, may
  -- transact, and is the one that the request is then served for; nothing is written.
  pub api_key_auth_sound :
      (raw id : String) (w : World)
      → (api_key_auth hash env raw w).0 ≡ ok id
      → ((m : Merchant) × (find (live_with_key (hash raw)) w.db.merchants ≡ some m)
          × (m.id ≡ id)
          × (can_transact m ≡ true))
        × ((raw == "") ≡ false)
        × ((api_key_auth hash env raw w).1.db ≡ w.db)
  unfolding api_key_auth find_by_api_key query statement
  api_key_auth_sound raw id w h =
      elim (Option-cases (find (live_with_key (hash raw)) w.db.merchants)) [
        | inl missing ↦ absurd (ground arith)
        | inr (m, e) ↦ ((m, e, ground arith, ground arith), ground arith, ground arith)
      ]

  regenerated :
      (merchant_id raw : String) (m : Merchant) (w : World)
      → find (live_with_id merchant_id) w.db.merchants ≡ some m
      → (regenerate_api_key env hash merchant_id w).0 ≡ ok raw
      → let d' = (regenerate_api_key env hash merchant_id w).1.db in
        ((raw == "") ≡ false)
        × (find (live_with_key (hash raw)) d'.merchants
            ≡ some (merchant_written env (record m { api_key = hash raw }) m))
  unfolding regenerate_api_key find_merchant_by_id update_merchant update_merchant_row query
      statement
  regenerated merchant_id raw m w e h =
      let is_own = find_sound (live_with_id merchant_id) w.db.merchants m e in
      let same : m.id ≡ merchant_id = ground (arith, ==_iff m.id merchant_id) in
      let own = subst (λ id. find (live_with_id id) w.db.merchants ≡ some m) (sym same) e in
      let key =
        append_text (if m.is_production then "wpay_live_" else "wpay_test_")
          (env.random_hex (suc w.clock)) in
      let m' = record m { api_key = hash key } in
      elim (Bool-cases (any (clashes m') w.db.merchants)) [
        | inl taken ↦ absurd (ground (arith, e, own))
        | inr free ↦
            let made : key ≡ raw = ground (arith, e, own) in
            let found = find_by_key-update env m' m w.db.merchants free own in
            let full =
              append-not_empty (if m.is_production then "wpay_live_" else "wpay_test_")
                (env.random_hex (suc w.clock)) (prefix-not_empty m.is_production) in
            rw (← made) (full, ground (arith, e, own, found))
      ]

  -- A merchant that may transact is let in with the key that it has been given last, as itself.
  pub regenerate_api_key-api_key_auth :
      (later : Env) (merchant_id raw : String) (m : Merchant) (w : World)
      → find (live_with_id merchant_id) w.db.merchants ≡ some m
      → can_transact m ≡ true
      → (regenerate_api_key env hash merchant_id w).0 ≡ ok raw
      → later.statement_fails (regenerate_api_key env hash merchant_id w).1.clock ≡ false
      → (api_key_auth hash later raw (regenerate_api_key env hash merchant_id w).1).0
        ≡ ok merchant_id
  unfolding api_key_auth find_by_api_key can_transact query statement
  regenerate_api_key-api_key_auth later merchant_id raw m w e may h up =
      let is_own = find_sound (live_with_id merchant_id) w.db.merchants m e in
      ground (arith, ==_iff m.id merchant_id, regenerated merchant_id raw m w e h)

module _ {Ip IpNet : Type 0} (net : Net Ip IpNet) where
  -- Whether an entry of the list parses, and whether it covers an address.
  abbrev pub is_network : String → Bool
  is_network cidr = elim (net.parse_cidr (as_cidr net cidr)) [ none ↦ false | some n ↦ true ]

  abbrev pub covers : Ip → String → Bool
  covers ip cidr = elim (net.parse_cidr (as_cidr net cidr)) [
    | none ↦ false
    | some n ↦ net.contains n ip
  ]

  any-parse_nets :
      (ip : Ip) (cidrs : List String)
      → any (λ n. net.contains n ip) (parse_nets net cidrs) ≡ any (covers ip) cidrs
  unfolding parse_nets
  any-parse_nets ip [] = refl
  any-parse_nets ip (cidr ∷ cidrs) = elim (Option-cases (net.parse_cidr (as_cidr net cidr))) [
    | inl bad ↦ ground (arith, bad, any-parse_nets ip cidrs)
    | inr (n, good) ↦ ground (arith, good, any-parse_nets ip cidrs)
  ]

  abbrev is_empty : List IpNet → Bool
  is_empty [] = true
  is_empty (n ∷ ns) = false

  is_empty-parse_nets :
      (cidrs : List String) → is_empty (parse_nets net cidrs) ≡ not (any is_network cidrs)
  unfolding parse_nets
  is_empty-parse_nets [] = refl
  is_empty-parse_nets (cidr ∷ cidrs) = elim (Option-cases (net.parse_cidr (as_cidr net cidr))) [
    | inl bad ↦ ground (arith, bad, is_empty-parse_nets cidrs)
    | inr (n, good) ↦ ground (arith, good)
  ]

  admit_lem :
      (nets : List IpNet) (real_ip : String)
      → admit net nets real_ip ≡ (
          if is_empty nets || permitted net nets (net.parse_ip real_ip)
          then ok tt
          else err (forbidden "source IP not permitted"))
  admit_lem [] real_ip = refl
  admit_lem (n ∷ ns) real_ip = ground arith

  -- The address that the entries of a list let in, one of them covers; but where no entry is a network,
  -- every caller is let in, also one whose address cannot be read.
  pub webhook_ip_allowlist_lem :
      (allowed : String → Option (List String)) (provider real_ip : String) (cidrs : List String)
      → allowed provider ≡ some cidrs
      → webhook_ip_allowlist net allowed provider real_ip ≡ (
          if not (any is_network cidrs) then ok tt else elim (net.parse_ip real_ip) [
            | none ↦ err (forbidden "source IP not permitted")
            | some ip ↦
                if any (covers ip) cidrs then ok tt else err (forbidden "source IP not permitted")
          ])
  unfolding webhook_ip_allowlist
  webhook_ip_allowlist_lem allowed provider real_ip cidrs h =
      elim (Option-cases (net.parse_ip real_ip)) [
        | inl bad ↦
            ground (arith, admit_lem (parse_nets net cidrs) real_ip, is_empty-parse_nets cidrs)
        | inr (ip, good) ↦ ground (
          arith,
          admit_lem (parse_nets net cidrs) real_ip,
          is_empty-parse_nets cidrs,
          any-parse_nets ip cidrs,
        )
      ]
