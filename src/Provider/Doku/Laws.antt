-- ===== src/Provider/Doku/Laws.antt =====
-- The access token of the gateway, and what a notification of DOKU must carry.
use wanpay.Base.{
  true, false, [], ◌∷◌, ◌⊎◌, inl, inr, String, some, ◌≡◌, refl, ◌==◌, ==_iff, arith, Option-cases,
  Bool-cases, ap,
}
use wanpay.Entity.Payment.{PaymentStatus}
use wanpay.Db.Error.{Error, Result, ok, err, is_ok, Result-cases}
use wanpay.Db.Monad.{Env, World}
use wanpay.Payment.Types.{WebhookEvent, Headers}
use wanpay.Provider.Http.{Ports, header}
use wanpay.Provider.Doku.Types.{
  DokuPorts, DokuGateway, DokuJson, AccessToken, VaNotification, doku_status,
}
use wanpay.Provider.Doku.Token.{joined, is_fresh, request_token, access_token}
use wanpay.Provider.Doku.Webhooks.{
  webhook_signature, verify_webhook_signature, doku_parse_webhook, token_or_empty, va_event,
}

paid_code :
    (code : String) → doku_status code ≡ PaymentStatus.paid → (code ≡ "00") ⊎ (code ≡ "2002700")
unfolding doku_status
paid_code code h = ground (arith, ==_iff code "00", ==_iff code "2002700")

module _ {Key : Type 0} (ports : Ports) (doku : DokuPorts Key) (json : DokuJson) (env : Env) where
  module _ (g : DokuGateway Key) where
    -- A token that was requested is not empty.
    requested :
        (t : AccessToken) (w : World)
        → (request_token ports doku json env g w).0 ≡ ok t
        → (t.token == "") ≡ false
    unfolding request_token
    requested t w h = ground arith

    access_token-fresh :
        (t : AccessToken) (w : World)
        → is_fresh ports doku json env g t ≡ true
        → access_token ports doku json env g t w ≡ (ok (ok t.token, t), w)
    unfolding access_token
    access_token-fresh t w e = rw e refl

    access_token-renewed :
        (t fresh : AccessToken) (w : World)
        → is_fresh ports doku json env g t ≡ false
        → (request_token ports doku json env g w).0 ≡ ok fresh
        → (access_token ports doku json env g t w).0 ≡ ok (ok fresh.token, fresh)
    unfolding access_token
    access_token-renewed t fresh w e got = ground (arith, e, got)

    access_token-failed :
        (t : AccessToken) (e : Error) (w : World)
        → is_fresh ports doku json env g t ≡ false
        → (request_token ports doku json env g w).0 ≡ err e
        → (access_token ports doku json env g t w).0 ≡ ok (err e, t)
    unfolding access_token
    access_token-failed t e w old got = ground (arith, old, got)

    -- A token that is fresh is not empty.
    fresh_token :
        (t : AccessToken) → is_fresh ports doku json env g t ≡ true → (t.token == "") ≡ false
    unfolding is_fresh
    fresh_token t h = ground arith

    -- An access gives the token that is stored then, or fails and stores nothing.
    access_token_outcome :
        (t : AccessToken) (w : World)
        → ((t' : AccessToken) × ((access_token ports doku json env g t w).0 ≡ ok (ok t'.token, t'))
            × ((t'.token == "") ≡ false))
          ⊎ ((e : Error) × ((access_token ports doku json env g t w).0 ≡ ok (err e, t)))
    access_token_outcome t w = elim (Bool-cases (is_fresh ports doku json env g t)) [
      | inl young ↦ inl (t, ap (λ p. p.0) (access_token-fresh t w young), fresh_token t young)
      | inr old ↦ elim (Result-cases (request_token ports doku json env g w).0) [
        | inl (fresh, got) ↦
            inl (fresh, access_token-renewed t fresh w old got, requested fresh w got)
        | inr (e, bad) ↦ inr (e, access_token-failed t e w old bad)
      ]
    ]

    -- After an access to the token the gateway either has a token, which is not empty and is the one that
    -- was given, or the access failed and the gateway has the token that it had before. A later access
    -- that finds a stored token fresh gives it without a request.
    pub access_token-Stored :
        (t t' : AccessToken) (r : Result String) (w w' : World)
        → access_token ports doku json env g t w ≡ (ok (r, t'), w')
        → (((r ≡ ok t'.token) × ((t'.token == "") ≡ false)) ⊎ ((is_ok r ≡ false) × (t' ≡ t)))
          × (is_fresh ports doku json env g t' ≡ true
              → (later : World)
              → access_token ports doku json env g t' later ≡ (ok (ok t'.token, t'), later))
    access_token-Stored t t' r w w' h = (
      elim (access_token_outcome t w) [
        | inl (s, got, some_text) ↦
            let same : (r ≡ ok s.token) × (t' ≡ s) = ground (arith, got, h) in
            inl (rw (same.1, same.0) (refl, some_text))
        | inr (e, bad) ↦
            let same : (r ≡ err e) × (t' ≡ t) = ground (arith, bad, h) in
            inr (rw (same.1, same.0) (refl, refl))
      ],
      λ young later. access_token-fresh t' later young,
    )

    -- The signature that the API asks of a notification: of the method, the address, the token, the
    -- hash of the body and the time, with colons between them.
    abbrev pub signed_with : Headers → String → String → String
    signed_with headers body token = doku.hmac_base64 g.secret_key (
        joined (
          header "x-http-method" headers
          ∷ ":"
          ∷ header "x-endpoint-url" headers
          ∷ ":"
          ∷ token
          ∷ ":"
          ∷ ports.to_lower (doku.sha256_hex body)
          ∷ ":"
          ∷ header "x-timestamp" headers
          ∷ []))

    -- What an accepted notification has passed.
    accepted :
        (headers : Headers) (body token : String) (r : Result String)
        → token_or_empty ports doku json env g r ≡ token
        → (t s t' : AccessToken) (event : WebhookEvent) (w w' : World)
        → (access_token ports doku json env g t w).0 ≡ ok (r, s)
        → doku_parse_webhook ports doku json env g headers body t w ≡ (ok (ok event, t'), w')
        → (t' ≡ s)
          × (header "x-signature" headers ≡ signed_with headers body token)
          × (va_event ports doku json env g body (json.va_notification body) ≡ ok event)
    unfolding doku_parse_webhook verify_webhook_signature webhook_signature
    accepted headers body token r e t s t' event w w' got h =
        let found : header "x-signature" headers ≡ signed_with headers body token = ground (
          arith,
          got,
          h,
          e,
          ==_iff (webhook_signature ports doku json env g headers token body)
              (header "x-signature" headers),
        ) in
        (ground (arith, got, h), found, ground (arith, got, h, e))

    reported :
        (body : String) (event : WebhookEvent)
        → va_event ports doku json env g body (json.va_notification body) ≡ ok event
        → event.status ≡ PaymentStatus.paid
        → (n : VaNotification) × (json.va_notification body ≡ some n)
          × ((n.response_code ≡ "00") ⊎ (n.response_code ≡ "2002700"))
          × (event.external_id ≡ n.trx_id)
          × (event.amount ≡ n.amount)
    reported body event h paid = elim (Option-cases (json.va_notification body)) [
      | inl bad ↦ absurd (ground (arith, bad))
      | inr (n, e) ↦ (
        n,
        e,
        paid_code n.response_code (ground (arith, e)),
        ground (arith, e),
        ground (arith, e),
      )
    ]

    -- A notification is reported as paid only where its signature is the HMAC, under the secret key, of
    -- its method, address and time, its body's hash and the token that the gateway then has; where the
    -- access to the token failed, the text has the empty token in its place. Its code is 00 or 2002700,
    -- and the event has its reference and amount.
    pub doku_parse_webhook-paid :
        (headers : Headers) (body : String) (t t' : AccessToken) (event : WebhookEvent)
        (w w' : World)
        → doku_parse_webhook ports doku json env g headers body t w ≡ (ok (ok event, t'), w')
        → event.status ≡ PaymentStatus.paid
        → ((((access_token ports doku json env g t w).0 ≡ ok (ok t'.token, t'))
              × (header "x-signature" headers ≡ signed_with headers body t'.token))
            ⊎ ((e : Error) × ((access_token ports doku json env g t w).0 ≡ ok (err e, t'))
                × (header "x-signature" headers ≡ signed_with headers body "")))
          × ((n : VaNotification) × (json.va_notification body ≡ some n)
              × ((n.response_code ≡ "00") ⊎ (n.response_code ≡ "2002700"))
              × (event.external_id ≡ n.trx_id)
              × (event.amount ≡ n.amount))
    doku_parse_webhook-paid headers body t t' event w w' h paid = elim (access_token_outcome t w) [
      | inl (s, got, _) ↦
          let (same, genuine, rest) =
            accepted headers body s.token (ok s.token) refl t s t' event w w' got h in
          (inl (rw same (got, genuine)), reported body event rest paid)
      | inr (e, bad) ↦
          let (same, genuine, rest) =
            accepted headers body "" (err e) refl t t t' event w w' bad h in
          (inr (rw same (e, bad, genuine)), reported body event rest paid)
    ]
