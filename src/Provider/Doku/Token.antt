-- ===== src/Provider/Doku/Token.antt =====
-- doku/doku.go: the access token of the gateway, which each access locks.
use Prim.Native.String.{◌++◌ as append_text}
use wanpay.Base.{
  pos, ltb_ℤ, ◌+ℤ◌, Bool, not, ◌&&◌, String, Option, none, some, List, [], ◌∷◌, ◌==◌, if◌then◌else◌,
}
use wanpay.Db.Error.{external, wrap, Result, ok, err}
use wanpay.Db.Monad.{Env, M, ◌>>=◌, pure, attempt, lift, wrapped}
use wanpay.Provider.Http.{text, obj, end, field, Ports}
use wanpay.Provider.Doku.Types.{
  DokuPorts, DokuGateway, AccessToken, TokenResponse, DokuJson, seconds, expires_in,
}

-- Go's `s1 + s2 + …`.
abbrev pub joined : List String → String
joined [] = ""
joined (s ∷ rest) = append_text s (joined rest)

module _ {Key : Type 0} (ports : Ports) (doku : DokuPorts Key) (json : DokuJson) (env : Env) where
  module _ (g : DokuGateway Key) where
    -- Half a minute before its end a token is taken for expired.
    unfoldable pub is_fresh : AccessToken → Bool
    is_fresh t = not (t.token == "") && ltb_ℤ (pos env.now +ℤ pos 30000000000) t.token_exp

    abbrev signed : Option String → Result String
    signed none = err (wrap "doku token: sign" (external "rsa"))
    signed (some s) = ok s

    abbrev decoded : Option TokenResponse → Result TokenResponse
    decoded none = err (wrap "doku token decode: %w — body: %s" (external "json"))
    decoded (some r) =
        if r.access_token == "" then err (external "doku token: %s — %s (HTTP %d)") else ok r

    abbrev token_of : TokenResponse → AccessToken
    token_of r = record {
      token = r.access_token;
      token_exp = pos env.now +ℤ seconds (expires_in doku r.expires_in);
    }

    unfoldable pub request_token : M AccessToken
    request_token = do
      sig ← lift (
          signed (
            doku.sign_rsa g.private_key (joined (g.client_id ∷ "|" ∷ doku.timestamp env.now ∷ []))))
      answer ← wrapped "doku token" (
          ports.send (record {
            method = "POST";
            url = append_text g.base_url "/authorization/v1/access-token/b2b";
            headers =
                ("Content-Type", "application/json")
                ∷ ("X-CLIENT-KEY", g.client_id)
                ∷ ("X-TIMESTAMP", doku.timestamp env.now)
                ∷ ("X-SIGNATURE", sig)
                ∷ [];
            body = some (ports.marshal (obj (field "grantType" (text "client_credentials") end)));
          }))
      r ← lift (decoded (json.token_response answer.body))
      pure (token_of r)

    -- The new token is stored only where it was got.
    abbrev stored : AccessToken → Result AccessToken → Result String × AccessToken
    stored t (ok fresh) = (ok fresh.token, fresh)
    stored t (err e) = (err e, t)

    abbrev renewed : AccessToken → M (Result String × AccessToken)
    renewed t = do got ← attempt request_token; pure (stored t got)

    unfoldable pub access_token : AccessToken → M (Result String × AccessToken)
    access_token t w =
        let renewal = renewed t w in if is_fresh t then (ok (ok t.token, t), w) else renewal
