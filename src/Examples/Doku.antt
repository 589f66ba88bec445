-- ===== src/Examples/Doku.antt =====
-- The adapter of DOKU, with a server that gives tokens for a quarter of an hour.
use wanpay.Base.{pos, true, false, String, none, some, [], ◌∷◌, ◌≡◌, refl, ◌==◌, ◌⊎◌, ◌+ℤ◌, wrap64}
use wanpay.Entity.Payment.{PaymentStatus}
use wanpay.Db.Error.{Error, Result, ok, err, is_ok}
use wanpay.Db.Monad.{World}
use wanpay.Payment.Types.{WebhookEvent, Headers}
use wanpay.Provider.Http.{header}
use wanpay.Provider.Doku.{
  signed_with, DokuPorts, DokuGateway, DokuJson, AccessToken, VaNotification, missing, seconds,
  expires_in, doku_status, is_fresh, request_token, access_token, webhook_signature,
  verify_webhook_signature, doku_parse_webhook, access_token-Stored, doku_parse_webhook-paid,
}
use wanpay.Examples.Data.{env}
use wanpay.Examples.Ports.{start}
use wanpay.Examples.Providers.{ports}

-- One key, and hashes that keep the text.
abbrev doku : DokuPorts (Unit {0})
doku = record {
  pem_decode = λ s. some s;
  parse_pkcs8 = λ s. none;
  parse_pkcs1 = λ s. some tt;
  sign_rsa = λ k s. some s;
  sha256_hex = λ s. "";
  hmac_hex = λ key s. s;
  hmac_base64 = λ key s. s;
  trim = λ s. s;
  timestamp = λ t. "";
  unix_nano = λ t. "";
  decimal = λ n. "";
  scan = λ s. none;
}

abbrev notification : VaNotification
notification = record { response_code = "00"; trx_id = "wpay-1"; amount = pos 10000 }

abbrev json : DokuJson
json = record {
  token_response = λ s. some (record { access_token = "tok"; expires_in = missing });
  va_create = λ s. none;
  qr_create = λ s. none;
  response_code = λ s. none;
  disb_response = λ s. none;
  va_notification = λ s. some notification;
  disb_notification = λ s. none;
}

abbrev adapter : DokuGateway (Unit {0})
adapter = record {
  client_id = "client";
  secret_key = "secret";
  hmac_key = "secret";
  private_key = tt;
  base_url = "";
}

abbrev no_token : AccessToken
no_token = record { token = ""; token_exp = pos 0 }

abbrev new_token : AccessToken
new_token = record { token = "tok"; token_exp = pos 905000000000 }

abbrev given : Result String
given = ok "tok"

abbrev headers : Headers
headers = ("x-http-method", "POST") ∷ ("x-signature", "POST::tok::") ∷ []

abbrev paid_event : WebhookEvent
paid_event = record {
  external_id = "wpay-1";
  status = PaymentStatus.paid;
  paid_at = none;
  amount = pos 10000;
  raw_payload = "{}";
}

access_token-Stored_example :
    (((given ≡ ok new_token.token) × ((new_token.token == "") ≡ false))
      ⊎ ((is_ok given ≡ false) × (new_token ≡ no_token)))
    × (is_fresh ports doku json env adapter new_token ≡ true
        → (later : World)
        → access_token ports doku json env adapter new_token later
          ≡ (ok (ok new_token.token, new_token), later))
unfolding access_token request_token is_fresh seconds expires_in ◌+ℤ◌ wrap64
access_token-Stored_example =
    access_token-Stored ports doku json env adapter no_token new_token given start start refl

doku_parse_webhook-paid_example :
    ((((access_token ports doku json env adapter no_token start).0
          ≡ ok (ok new_token.token, new_token))
        × (header "x-signature" headers
            ≡ signed_with ports doku json env adapter headers "{}" new_token.token))
      ⊎ ((e : Error) × ((access_token ports doku json env adapter no_token start).0
            ≡ ok (err e, new_token))
          × (header "x-signature" headers
              ≡ signed_with ports doku json env adapter headers "{}" "")))
    × ((n : VaNotification) × (json.va_notification "{}" ≡ some n)
        × ((n.response_code ≡ "00") ⊎ (n.response_code ≡ "2002700"))
        × (paid_event.external_id ≡ n.trx_id)
        × (paid_event.amount ≡ n.amount))
unfolding doku_parse_webhook verify_webhook_signature webhook_signature header access_token
    request_token is_fresh seconds expires_in ◌+ℤ◌ wrap64 doku_status
doku_parse_webhook-paid_example =
    doku_parse_webhook-paid ports doku json env adapter headers "{}" no_token new_token paid_event
      start start refl refl
