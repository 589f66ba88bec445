-- ===== src/Auth/Guards/Defs.antt =====
-- auth.go, admin_auth.go and webhook_allowlist.go. A guard answers what it puts into the request's
-- context, or the error that ends the request.
use Prim.Native.Char.{code}
use Prim.Native.String.{◌++◌ as append_text, len, slice}
use text.Mathlib.Text.{starts_with}
use wanpay.Base.{
  nat_eq, Bool, false, not, ◌||◌, String, Option, none, some, List, [], ◌∷◌, ◌==◌, any,
  if◌then◌else◌,
}
use wanpay.Entity.Fee.{Time}
use wanpay.Entity.Merchant.{can_transact}
use wanpay.Db.Error.{unauthorized, forbidden, Result, ok, err}
use wanpay.Db.Monad.{Env, M, ◌>>=◌, ◌>>◌, pure, throw_if, or_unauthorized}
use wanpay.Db.Merchants.{find_by_api_key}
use wanpay.Auth.Jwt.{Claims, TokenCodec, verify, is_access}

-- `strings.CutPrefix(s, prefix)`
abbrev pub cut_prefix : String → String → Option String
cut_prefix s p = if starts_with s p then some (slice s (len p) (len s)) else none

-- `hash` is SHA-256 in hexadecimal; the answer is the merchant's identifier.
module _ (hash : String → String) (env : Env) where
  unfoldable pub api_key_auth : String → M String
  api_key_auth raw = do
    throw_if (raw == "") (unauthorized "missing %s header")
    m ← or_unauthorized "invalid API key" (find_by_api_key env (hash raw))
    throw_if (not (can_transact m)) (forbidden "merchant account is %s")
    pure m.id

module _ (codec : TokenCodec) (now : Time) (secret : String) where
  abbrev access_only : Result Claims → Result (String × String)
  access_only (err e) = err (unauthorized "invalid token")
  access_only (ok c) =
      if is_access c.type then ok (c.sub, c.role) else err (unauthorized "not an access token")

  abbrev bearer : Option String → Result (String × String)
  bearer none = err (unauthorized "missing bearer token")
  bearer (some token) =
      let checked = access_only (verify codec now secret token) in
      if token == "" then err (unauthorized "missing bearer token") else checked

  -- The header `Authorization`; the answer is the administrator's identifier and role.
  unfoldable pub admin_jwt_auth : String → Result (String × String)
  admin_jwt_auth raw = bearer (cut_prefix raw "Bearer ")

-- `none` is a context without a role.
unfoldable pub require_role : List String → Option String → Result (Unit {0})
require_role roles none = err (forbidden "insufficient role")
require_role roles (some role) =
    if any (λ r. r == role) roles then ok tt else err (forbidden "insufficient role")

unfoldable pub contains_slash : String → Bool
contains_slash String.[] = false
contains_slash (String.◌∷◌ c s) = nat_eq (code c) 47 || contains_slash s

-- The package net: addresses, networks, ParseIP, To4 and ParseCIDR (`none` where they fail), Contains.
pub record Net (Ip IpNet : Type 0) : Type 0 where
  pub parse_ip : String → Option Ip
  pub is_v4 : Ip → Bool
  pub parse_cidr : String → Option IpNet
  pub contains : IpNet → Ip → Bool

module _ {Ip IpNet : Type 0} (net : Net Ip IpNet) where
  abbrev with_suffix : Option Ip → String → String
  with_suffix none cidr = cidr
  with_suffix (some ip) cidr = append_text cidr (if net.is_v4 ip then "/32" else "/128")

  -- A plain address is a network of one address.
  unfoldable pub as_cidr : String → String
  unfolding contains_slash
  as_cidr cidr = if contains_slash cidr then cidr else with_suffix (net.parse_ip cidr) cidr

  -- The networks of one provider, without the entries that do not parse.
  unfoldable pub parse_nets : List String → List IpNet
  unfolding as_cidr
  parse_nets [] = []
  parse_nets (cidr ∷ cidrs) =
      let rest = parse_nets cidrs in
      elim (net.parse_cidr (as_cidr cidr)) [ none ↦ rest | some n ↦ n ∷ rest ]

  abbrev pub permitted : List IpNet → Option Ip → Bool
  permitted nets none = false
  permitted nets (some ip) = any (λ n. net.contains n ip) nets

  abbrev pub admit : List IpNet → String → Result (Unit {0})
  admit [] real_ip = ok tt
  admit (n ∷ ns) real_ip =
      if permitted (n ∷ ns) (net.parse_ip real_ip)
      then ok tt
      else err (forbidden "source IP not permitted")

  -- `none` is a provider that the configuration does not name.
  unfoldable pub webhook_ip_allowlist :
      (String → Option (List String)) → String → String → Result (Unit {0})
  unfolding parse_nets
  webhook_ip_allowlist allowed provider real_ip = elim (allowed provider) [
    | none ↦ ok tt
    | some cidrs ↦ admit (parse_nets cidrs) real_ip
  ]
