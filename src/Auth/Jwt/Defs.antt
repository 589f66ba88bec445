-- ===== src/Auth/Jwt/Defs.antt =====
-- pkg/jwtutil/jwt.go. HMAC-SHA256, base64 and JSON are parameters; a text is its bytes.
use Prim.Native.Char.{code}
use Prim.Native.String.{◌++◌ as append_text}
use wanpay.Base.{
  ◌/◌, nat_eq, ℤ, pos, ltb_ℤ, Bool, true, false, not, String, Option, none, some, ◌==◌,
  if◌then◌else◌,
}
use wanpay.Entity.Fee.{Time}
use wanpay.Db.Error.{external, Result, ok, err}

pub data TokenType : Type 0 where
  access refresh : TokenType
  other : String → TokenType

abbrev pub is_access : TokenType → Bool
is_access TokenType.access = true
is_access _ = false

abbrev pub is_refresh : TokenType → Bool
is_refresh TokenType.refresh = true
is_refresh _ = false

pub record Claims : Type 0 where
  pub sub : String
  pub email : String
  pub role : String
  pub type : TokenType
  pub exp : ℤ
  pub iat : ℤ

-- `hmac.New(sha256.New, secret)` of a text, base64.RawURLEncoding, and encoding/json on Claims.
pub record TokenCodec : Type 0 where
  pub hmac : String → String → String
  pub base64url : String → String
  pub decode : String → Option String
  pub must_json : Claims → String
  pub unmarshal : String → Option Claims

-- `t.Unix()`, rounded down.
abbrev pub unix : Time → ℤ
unix t = pos (t / 1000000000)

abbrev pub dotted : String → String → String
dotted s t = append_text s (append_text "." t)

-- The text before the first dot, and the text behind it.
unfoldable pub cut_dot : String → Option (String × String)
cut_dot String.[] = none
cut_dot (String.◌∷◌ c s) =
    let rest = cut_dot s in
    if nat_eq (code c) 46
    then some ("", s)
    else elim rest [ none ↦ none | some (a, b) ↦ some (String.◌∷◌ c a, b) ]

-- `strings.SplitN(token, ".", 3)` where it has three parts.
unfoldable pub split_token : String → Option (String × String × String)
unfolding cut_dot
split_token token = elim (cut_dot token) [
  | none ↦ none
  | some (a, rest) ↦ elim (cut_dot rest) [ none ↦ none | some (b, c) ↦ some (a, b, c) ]
]

module _ (codec : TokenCodec) where
  abbrev pub jwt_header : String
  jwt_header = codec.base64url "{\"alg\":\"HS256\",\"typ\":\"JWT\"}"

  unfoldable pub sign : String → String → String
  sign secret text = codec.base64url (codec.hmac secret text)

  abbrev pub stamped : Claims → Time → Claims
  stamped c now = record c { iat = unix now }

  unfoldable pub generate : Time → String → Claims → String
  unfolding sign
  generate now secret claims =
      let text = dotted jwt_header (codec.base64url (codec.must_json (stamped claims now))) in
      dotted text (sign secret text)

  unfoldable pub read_claims : Time → String → Result Claims
  read_claims now payload = elim (codec.decode payload) [
    | none ↦ err (external "invalid token payload encoding")
    | some raw ↦ elim (codec.unmarshal raw) [
      | none ↦ err (external "invalid token payload")
      | some c ↦ if ltb_ℤ c.exp (unix now) then err (external "token expired") else ok c
    ]
  ]

  unfoldable pub verify : Time → String → String → Result Claims
  unfolding sign read_claims split_token
  verify now secret token = elim (split_token token) [
    | none ↦ err (external "invalid token format")
    | some (header, payload, signature) ↦
        if not (sign secret (dotted header payload) == signature)
        then err (external "invalid signature")
        else read_claims now payload
  ]
