-- ===== src/Auth/Jwt/Laws.antt =====
-- A token comes back as the claims that it was generated from, and a token that is accepted was signed.
use Prim.Native.Char.{Char, code}
use Prim.Native.String.{◌++◌ as append_text}
use text.Mathlib.TextEquality.{Char-path}
use text.Mathlib.TextLemmas.{nil-append, cons-append, append_assoc}
use wanpay.Base.{
  nat_eq, ltb_ℤ, Bool, true, false, not, ◌&&◌, String, some, ◌≡◌, refl, ◌==◌, ==_refl, ==_iff,
  if◌then◌else◌, arith, Option-cases, Bool-cases, inl, inr,
}
use wanpay.Entity.Fee.{Time}
use wanpay.Db.Error.{external, ok, err}
use wanpay.Auth.Jwt.Defs.{
  Claims, TokenCodec, unix, dotted, cut_dot, split_token, jwt_header, sign, stamped, generate,
  read_claims, verify,
}

unfoldable pub dotless : String → Bool
dotless String.[] = true
dotless (String.◌∷◌ c s) = not (nat_eq (code c) 46) && dotless s

abbrev pub dot : Char
dot = Char.char 46 tt

join_dot : (t : String) → append_text "." t ≡ String.◌∷◌ dot t
join_dot t = rw (cons-append dot "" t, nil-append t) refl

dot_in_front : (t : String) → cut_dot (append_text "." t) ≡ some ("", t)
unfolding cut_dot
dot_in_front t = rw (join_dot t) refl

dotted-nil : (t : String) → dotted "" t ≡ String.◌∷◌ dot t
dotted-nil t = rw (nil-append (append_text "." t), join_dot t) refl

pub cut_dot-dotted : (s t : String) → dotless s ≡ true → cut_dot (dotted s t) ≡ some (s, t)
unfolding cut_dot dotless
cut_dot-dotted String.[] t h = rw (nil-append (append_text "." t)) (dot_in_front t)
cut_dot-dotted (String.◌∷◌ c s) t h =
    rw (cons-append c s (append_text "." t)) (ground (arith, cut_dot-dotted s t))

-- What is cut was joined by a dot.
cut_dot_sound : (s a b : String) → cut_dot s ≡ some (a, b) → s ≡ dotted a b
unfolding cut_dot
cut_dot_sound String.[] a b h = cc
cut_dot_sound (String.◌∷◌ c s) a b h = elim (Bool-cases (nat_eq (code c) 46)) [
  | inl here ↦
      let is_dot : c ≡ dot = Char-path c dot (ground arith) in
      let first : "" ≡ a = ground arith in
      let second : s ≡ b = ground arith in rw (← first, ← second, is_dot, dotted-nil s) refl
  | inr later ↦ elim (Option-cases (cut_dot s)) [
    | inl uncut ↦ absurd (ground arith)
    | inr ((x, y), at) ↦
        let first : String.◌∷◌ c x ≡ a = ground arith in
        let second : y ≡ b = ground arith in
        rw (← first, ← second, cons-append c x (append_text "." y), cut_dot_sound s x y at) refl
  ]
]

join3 : (a b c : String) → dotted (dotted a b) c ≡ dotted a (dotted b c)
join3 a b c =
    rw
      (
        append_assoc a (append_text "." b) (append_text "." c),
        append_assoc "." b (append_text "." c),
      )
      refl

split_token-dotted :
    (a b c : String)
    → dotless a ≡ true
    → dotless b ≡ true
    → split_token (dotted (dotted a b) c) ≡ some (a, b, c)
unfolding split_token
split_token-dotted a b c h k =
    cc (join3 a b c, cut_dot-dotted a (dotted b c) h, cut_dot-dotted b c k)

split_token_sound : (t a b c : String) → split_token t ≡ some (a, b, c) → t ≡ dotted (dotted a b) c
unfolding split_token
split_token_sound t a b c h = elim (Option-cases (cut_dot t)) [
  | inl uncut ↦ absurd (ground arith)
  | inr ((x, rest), at) ↦ elim (Option-cases (cut_dot rest)) [
    | inl uncut ↦ absurd (ground arith)
    | inr ((y, z), at') ↦
        let e₁ : x ≡ a = ground arith in
        let e₂ : y ≡ b = ground arith in
        let e₃ : z ≡ c = ground arith in
        rw (← e₁, ← e₂, ← e₃, join3 x y z, cut_dot_sound t x rest at, cut_dot_sound rest y z at')
          refl
  ]
]

-- base64url has no dot and is decoded to what was encoded, and JSON gives the claims back.
pub record IsCodec (codec : TokenCodec) : Type 0 where
  pub no_dot : (s : String) → dotless (codec.base64url s) ≡ true
  pub decoded : (s : String) → codec.decode (codec.base64url s) ≡ some s
  pub unmarshalled : (c : Claims) → codec.unmarshal (codec.must_json c) ≡ some c

module _ (codec : TokenCodec) where
  -- A token is accepted under the secret that it was generated with, up to the second in which it
  -- expires, and gives back the claims that it was generated from, with the time of issue; later it has
  -- expired.
  pub verify-generate :
      (now later : Time) (secret : String) (claims : Claims)
      → IsCodec codec
      → verify codec later secret (generate codec now secret claims) ≡ (
          if ltb_ℤ claims.exp (unix later)
          then err (external "token expired")
          else ok (stamped codec claims now))
  unfolding verify generate read_claims
  verify-generate now later secret claims laws =
      let payload = codec.base64url (codec.must_json (stamped codec claims now)) in
      let text = dotted (jwt_header codec) payload in
      ground (
        arith,
        split_token-dotted (jwt_header codec) payload (sign codec secret text)
            (laws.no_dot "{\"alg\":\"HS256\",\"typ\":\"JWT\"}")
            (laws.no_dot (codec.must_json (stamped codec claims now))),
        ==_refl (sign codec secret text),
        laws.decoded (codec.must_json (stamped codec claims now)),
        laws.unmarshalled (stamped codec claims now),
      )

  -- What a token that is accepted is made of.
  abbrev pub Signed : Time → String → String → Claims → Type 0
  Signed now secret token c =
      (header : String) × (payload : String) × (raw : String) × (token
        ≡ dotted (dotted header payload) (sign codec secret (dotted header payload)))
      × (codec.decode payload ≡ some raw)
      × (codec.unmarshal raw ≡ some c)
      × (ltb_ℤ c.exp (unix now) ≡ false)

  read_claims_sound :
      (now : Time) (payload : String) (c : Claims)
      → read_claims codec now payload ≡ ok c
      → (raw : String) × (codec.decode payload ≡ some raw)
        × (codec.unmarshal raw ≡ some c)
        × (ltb_ℤ c.exp (unix now) ≡ false)
  unfolding read_claims
  read_claims_sound now payload c h = elim (Option-cases (codec.decode payload)) [
    | inl bad ↦ absurd (ground arith)
    | inr (raw, e) ↦ elim (Option-cases (codec.unmarshal raw)) [
      | inl bad ↦ absurd (ground arith)
      | inr (c', e') ↦ elim (Bool-cases (ltb_ℤ c'.exp (unix now))) [
        | inl old ↦ absurd (ground arith)
        | inr young ↦ let same : c' ≡ c = ground arith in rw (← same) (raw, e, e', young)
      ]
    ]
  ]

  -- A token that is accepted has three parts, of which the third is the signature of the first two
  -- under the secret, its payload decodes to the claims, and it has not expired.
  pub verify-Signed :
      (now : Time) (secret token : String) (c : Claims)
      → verify codec now secret token ≡ ok c
      → Signed now secret token c
  unfolding verify
  verify-Signed now secret token c h = elim (Option-cases (split_token token)) [
    | inl bad ↦ absurd (ground arith)
    | inr ((header, payload, signature), e) ↦
        elim (Bool-cases (sign codec secret (dotted header payload) == signature)) [
          | inr forged ↦ absurd (ground arith)
          | inl signed ↦
              let (raw, d, u, young) = read_claims_sound now payload c (ground arith) in
              let same = (==_iff (sign codec secret (dotted header payload)) signature).0 signed in
              (
                header,
                payload,
                raw,
                rw same (split_token_sound token header payload signature e),
                d,
                u,
                young,
              )
        ]
  ]
