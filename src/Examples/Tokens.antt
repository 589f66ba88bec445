-- ===== src/Examples/Tokens.antt =====
-- An encoding of tokens that has the laws of base64url and JSON: a text is escaped, so that it has no
-- dot, and the fields of the claims are joined by dots.
use Prim.Native.Char.{Char, code}
use Prim.Native.String.{◌++◌ as append_text}
use text.Mathlib.TextEquality.{Char-path}
use wanpay.Base.{
  ℕ, zero, suc, nat_eq, ℤ, pos, negsuc, true, String, Option, none, some, ◌≡◌, refl, ap, arith,
  if◌then◌else◌, Bool-cases, inl, inr,
}
use wanpay.Auth.Jwt.{
  TokenType, Claims, TokenCodec, IsCodec, dotted, cut_dot, cut_dot-dotted, dotless, dot,
}

abbrev plain : Char
plain = Char.char 107 tt

abbrev escape : Char
escape = Char.char 117 tt

abbrev one : Char
one = Char.char 49 tt

pub encode : String → String
encode String.[] = ""
encode (String.◌∷◌ c s) =
    let rest = encode s in
    if nat_eq (code c) 46
    then String.◌∷◌ escape (String.◌∷◌ escape rest)
    else String.◌∷◌ plain (String.◌∷◌ c rest)

pub decode : String → String
decode String.[] = ""
decode (String.◌∷◌ a String.[]) = ""
decode (String.◌∷◌ a (String.◌∷◌ b s)) =
    let rest = decode s in if nat_eq (code a) 117 then String.◌∷◌ dot rest else String.◌∷◌ b rest

encode-dotless : (s : String) → dotless (encode s) ≡ true
unfolding encode dotless
encode-dotless String.[] = refl
encode-dotless (String.◌∷◌ c s) = ground (arith, encode-dotless s)

decode-encode : (s : String) → decode (encode s) ≡ s
unfolding encode decode
decode-encode String.[] = refl
decode-encode (String.◌∷◌ c s) = elim (Bool-cases (nat_eq (code c) 46)) [
  | inl here ↦
      let is_dot : c ≡ dot = Char-path c dot (ground arith) in rw (is_dot, decode-encode s) refl
  | inr other ↦ ground (arith, other, decode-encode s)
]

unary : ℕ → String
unary zero = ""
unary (suc n) = String.◌∷◌ one (unary n)

abbrev length_of : String → ℕ
length_of String.[] = 0
length_of (String.◌∷◌ c s) = suc (length_of s)

length_of-unary : (n : ℕ) → length_of (unary n) ≡ n
unfolding unary
length_of-unary zero = refl
length_of-unary (suc n) = ap suc (length_of-unary n)

unary-dotless : (n : ℕ) → dotless (unary n) ≡ true
unfolding unary dotless
unary-dotless zero = refl
unary-dotless (suc n) = ground (arith, unary-dotless n)

abbrev int_text : ℤ → String
int_text (pos n) = String.◌∷◌ plain (unary n)
int_text (negsuc n) = String.◌∷◌ escape (unary n)

abbrev int_of : String → ℤ
int_of String.[] = pos 0
int_of (String.◌∷◌ c s) = if nat_eq (code c) 107 then pos (length_of s) else negsuc (length_of s)

int_of-text : (z : ℤ) → int_of (int_text z) ≡ z
int_of-text (pos n) = ground (arith, length_of-unary n)
int_of-text (negsuc n) = ground (arith, length_of-unary n)

int_text-dotless : (z : ℤ) → dotless (int_text z) ≡ true
unfolding dotless
int_text-dotless (pos n) = ground (arith, unary-dotless n)
int_text-dotless (negsuc n) = ground (arith, unary-dotless n)

abbrev type_text : TokenType → String
type_text TokenType.access = "a"
type_text TokenType.refresh = "r"
type_text (TokenType.other s) = String.◌∷◌ one s

abbrev type_of : String → TokenType
type_of String.[] = TokenType.access
type_of (String.◌∷◌ c s) =
    if nat_eq (code c) 97
    then TokenType.access
    else if nat_eq (code c) 114
    then TokenType.refresh
    else TokenType.other s

type_of-text : (t : TokenType) → type_of (type_text t) ≡ t
type_of-text TokenType.access = refl
type_of-text TokenType.refresh = refl
type_of-text (TokenType.other s) = refl

pub json : Claims → String
json c = dotted (encode c.sub) (
    dotted (encode c.email) (
      dotted (encode c.role)
        (dotted (encode (type_text c.type)) (dotted (int_text c.exp) (int_text c.iat)))))

-- The first field, and what the rest of the text gives.
abbrev field : (A : Type 0) → Option (String × String) → (String → String → Option A) → Option A
field A none k = none
field A (some (a, rest)) k = k a rest

pub parse : String → Option Claims
parse s = field Claims (cut_dot s) λ sub s₁. field Claims (cut_dot s₁) λ email s₂.
    field Claims (cut_dot s₂) λ role s₃. field Claims (cut_dot s₃) λ type s₄.
      field Claims (cut_dot s₄) λ exp iat. some (record {
        sub = decode sub;
        email = decode email;
        role = decode role;
        type = type_of (decode type);
        exp = int_of exp;
        iat = int_of iat;
      })

parse-json : (c : Claims) → parse (json c) ≡ some c
unfolding parse json
parse-json c =
    let f₅ = dotted (int_text c.exp) (int_text c.iat) in
    let f₄ = dotted (encode (type_text c.type)) f₅ in
    let f₃ = dotted (encode c.role) f₄ in
    let f₂ = dotted (encode c.email) f₃ in
    ground (
      arith,
      cut_dot-dotted (encode c.sub) f₂ (encode-dotless c.sub),
      cut_dot-dotted (encode c.email) f₃ (encode-dotless c.email),
      cut_dot-dotted (encode c.role) f₄ (encode-dotless c.role),
      cut_dot-dotted (encode (type_text c.type)) f₅ (encode-dotless (type_text c.type)),
      cut_dot-dotted (int_text c.exp) (int_text c.iat) (int_text-dotless c.exp),
      decode-encode c.sub,
      decode-encode c.email,
      decode-encode c.role,
      decode-encode (type_text c.type),
      type_of-text c.type,
      int_of-text c.exp,
      int_of-text c.iat,
    )

abbrev pub codec : TokenCodec
codec = record {
  hmac = λ secret text. append_text secret text;
  base64url = encode;
  decode = λ s. some (decode s);
  must_json = json;
  unmarshal = parse;
}

pub codec-IsCodec : IsCodec codec
codec-IsCodec = record {
  no_dot = encode-dotless;
  decoded = λ s. ap some (decode-encode s);
  unmarshalled = parse-json;
}
