-- ===== src/Admin/Access.antt =====
-- The tokens of a login at the guard of the administrators' routes.
use Prim.Native.String.{◌++◌ as append_text}
use text.Mathlib.TextLemmas.{append-eq-nil_iff}
use text.Mathlib.TextPositions.{len-append, starts_with-append, slice-append_right}
use wanpay.Base.{if◌then◌else◌, ltb_ℤ, false, String, some, ◌≡◌, arith, ◌==◌, ==_iff}
use wanpay.Entity.Fee.{Time}
use wanpay.Entity.Admin.{Admin}
use wanpay.Db.Error.{ok, err, unauthorized, is_ok}
use wanpay.Db.Monad.{Env}
use wanpay.Auth.Jwt.{
  TokenType, Claims, TokenCodec, IsCodec, dotted, jwt_header, sign, generate, unix, verify-generate,
  stamped,
}
use wanpay.Auth.Guards.{admin_jwt_auth, cut_prefix}
use wanpay.Admin.Types.{AdminConfig}
use wanpay.Admin.Sessions.{issue_tokens, unix_of, expiry_of, base_claims}

cut_prefix-append : (p t : String) → cut_prefix (append_text p t) p ≡ some t
cut_prefix-append p t =
    ground (arith, starts_with-append p t, len-append p t, slice-append_right p t)

dotted-not_empty : (s t : String) → (dotted s t == "") ≡ false
dotted-not_empty s t = ground (
  arith,
  ==_iff (dotted s t) "",
  ==_iff "." "",
  append-eq-nil_iff {p = s} {q = append_text "." t},
  append-eq-nil_iff {p = "."} {q = t},
)

generate-not_empty :
    (codec : TokenCodec) (now : Time) (secret : String) (c : Claims)
    → (generate codec now secret c == "") ≡ false
unfolding generate
generate-not_empty codec now secret c =
    let text =
      dotted (jwt_header codec) (codec.base64url (codec.must_json (stamped codec c now))) in
    dotted-not_empty text (sign codec secret text)

module _ (codec : TokenCodec) (cfg : AdminConfig) (env later : Env) where
  -- The access token of a login passes the guard up to the second in which it expires, and the guard
  -- then knows the administrator's identifier and role; later it is refused as invalid. The refresh
  -- token of the same login never passes, whatever the time. The premise has the laws of the encoding
  -- of tokens.
  pub admin_jwt_auth-issue_tokens :
      (a : Admin)
      → IsCodec codec
      → let tokens = issue_tokens codec cfg env a in
        let guard = admin_jwt_auth codec later.now cfg.jwt_secret in
        let end = unix_of (expiry_of env.now cfg.access_token_ttl_hours) in
        (guard (append_text "Bearer " tokens.access_token) ≡ (
          if ltb_ℤ end (unix later.now)
          then err (unauthorized "invalid token")
          else ok (a.id, a.role)))
        × (is_ok (guard (append_text "Bearer " tokens.refresh_token)) ≡ false)
  unfolding admin_jwt_auth issue_tokens
  admin_jwt_auth-issue_tokens a laws =
      let claims =
        base_claims a TokenType.access (unix_of (expiry_of env.now cfg.access_token_ttl_hours)) in
      let claims' =
        base_claims a TokenType.refresh (unix_of (expiry_of env.now cfg.refresh_token_ttl_hours)) in
      let token = generate codec env.now cfg.jwt_secret claims in
      let token' = generate codec env.now cfg.jwt_secret claims' in
      (
        ground (
          arith,
          cut_prefix-append "Bearer " token,
          generate-not_empty codec env.now cfg.jwt_secret claims,
          verify-generate codec env.now later.now cfg.jwt_secret claims laws,
        ),
        ground (
          arith,
          cut_prefix-append "Bearer " token',
          verify-generate codec env.now later.now cfg.jwt_secret claims' laws,
        ),
      )
