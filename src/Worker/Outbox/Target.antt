-- ===== src/Worker/Outbox/Target.antt =====
-- validateWebhookURL and isPrivateHost. The texts are read by the parameters: `parse_url` is
-- `url.Parse` with `Hostname`, `parse_ip` is `net.ParseIP`, `lower` is `strings.ToLower`.
use wanpay.Base.{
  ℕ, leb, nat_eq, Bool, true, false, not, ◌&&◌, ◌||◌, String, Option, none, some, ◌==◌,
  if◌then◌else◌,
}
use wanpay.Db.Error.{external, wrap, Result, ok, err}

pub record Url : Type 0 where
  pub scheme : String
  pub hostname : String

-- An IPv4 address has four octets, an IPv6 address eight groups; `net.ParseIP` reads an IPv6 text
-- that maps an IPv4 address as an IPv4 address.
pub data Ip : Type 0 where
  v4 : (a b c d : ℕ) → Ip
  v6 : (a b c d e f g h : ℕ) → Ip

pub record UrlOps : Type 0 where
  pub parse_url : String → Result Url
  pub parse_ip : String → Option Ip
  pub lower : String → String

unfoldable pub is_loopback : Ip → Bool
is_loopback (v4 a b c d) = nat_eq a 127
is_loopback (v6 a b c d e f g h) =
    nat_eq a 0
    && nat_eq b 0
    && nat_eq c 0
    && nat_eq d 0
    && nat_eq e 0
    && nat_eq f 0
    && nat_eq g 0
    && nat_eq h 1

-- RFC 1918 and fc00::/7.
unfoldable pub is_private : Ip → Bool
is_private (v4 a b c d) =
    nat_eq a 10 || (nat_eq a 172 && leb 16 b && leb b 31) || (nat_eq a 192 && nat_eq b 168)
is_private (v6 a b c d e f g h) = leb 64512 a && leb a 65023

-- 169.254/16 and fe80::/10.
unfoldable pub is_link_local_unicast : Ip → Bool
is_link_local_unicast (v4 a b c d) = nat_eq a 169 && nat_eq b 254
is_link_local_unicast (v6 a b c d e f g h) = leb 65152 a && leb a 65215

is_private_ip : Option Ip → Bool
unfolding is_loopback is_private is_link_local_unicast
is_private_ip none = false
is_private_ip (some ip) = is_loopback ip || is_private ip || is_link_local_unicast ip

module _ (ops : UrlOps) where
  unfoldable pub is_private_host : String → Bool
  unfolding is_private_ip
  is_private_host host =
      if ops.lower host == "localhost" then true else is_private_ip (ops.parse_ip host)

  validate_url : Result Url → Result (Unit {0})
  unfolding is_private_host
  validate_url (err e) = err (wrap "invalid url" e)
  validate_url (ok u) =
      if not (u.scheme == "http") && not (u.scheme == "https")
      then err (external "url scheme must be http or https, got %q")
      else if is_private_host u.hostname
      then err (external "url targets a private or loopback address: %s")
      else ok tt

  unfoldable pub validate_webhook_url : String → Result (Unit {0})
  unfolding validate_url
  validate_webhook_url raw = validate_url (ops.parse_url raw)
