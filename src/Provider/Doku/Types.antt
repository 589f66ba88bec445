-- ===== src/Provider/Doku/Types.antt =====
-- doku/doku.go: the adapter's data, its constructor, and the tables of channels and statuses.
use wanpay.Base.{
  ◌*◌, ◌+◌, ℤ, pos, negsuc, sub_ℕ, wrap64, Bool, not, ◌||◌, String, Option, none, some, ◌==◌,
  if◌then◌else◌,
}
use wanpay.Entity.Fee.{Time}
use wanpay.Entity.Payment.{PaymentStatus}
use wanpay.Entity.Disbursement.{DisbursementStatus}
use wanpay.Db.Error.{external, wrap, Result, ok, err}

-- What the PKCS8 reader of crypto/x509 gives: a key of RSA, or one of another kind.
pub data Pkcs8Key (Key : Type 0) : Type 0 where
  rsa : Key → Pkcs8Key Key
  other_key : Pkcs8Key Key

-- `sign_rsa` is signRSASHA256's signature in base64, `sha256_hex` the hash in hexadecimal, `hmac_hex` and
-- `hmac_base64` (key, text) are HMAC-SHA512 in the two encodings. `timestamp` is a time of the zone WIB,
-- `decimal` is "%.2f" of the amount as a float64, and `scan` what Sscanf reads for "%d".
pub record DokuPorts (Key : Type 0) : Type 0 where
  pub pem_decode : String → Option String
  pub parse_pkcs8 : String → Option (Pkcs8Key Key)
  pub parse_pkcs1 : String → Option Key
  pub sign_rsa : Key → String → Option String
  pub sha256_hex : String → String
  pub hmac_hex : String → String → String
  pub hmac_base64 : String → String → String
  pub trim : String → String
  pub timestamp : Time → String
  pub unix_nano : Time → String
  pub decimal : ℤ → String
  pub scan : String → Option ℤ

pub record DokuConfig : Type 0 where
  pub enabled : Bool
  pub client_id : String
  pub secret_key : String
  pub private_key_pem : String
  pub is_production : Bool

pub record DokuGateway (Key : Type 0) : Type 0 where
  pub client_id : String
  pub secret_key : String
  pub hmac_key : String
  pub private_key : Key
  pub base_url : String

-- The two fields of the gateway that change.
pub record AccessToken : Type 0 where
  pub token : String
  pub token_exp : ℤ

-- `expiresIn`, which may be a number (here as an int), a text, or neither.
pub data ExpiresIn : Type 0 where
  number : ℤ → ExpiresIn
  digits : String → ExpiresIn
  missing : ExpiresIn

pub record TokenResponse : Type 0 where
  pub access_token : String
  pub expires_in : ExpiresIn

pub record VaCreateResponse : Type 0 where
  pub response_code : String
  pub virtual_account_no : String

pub record QrCreateResponse : Type 0 where
  pub reference_no : String
  pub qr_content : String

pub record DokuDisbResponse : Type 0 where
  pub response_code : String
  pub partner_reference_no : String

pub record VaNotification : Type 0 where
  pub response_code : String
  pub trx_id : String
  pub amount : ℤ

pub record DokuDisbNotification : Type 0 where
  pub response_code : String
  pub partner_reference_no : String
  pub amount : ℤ
  pub failure_code : String

-- `json.Unmarshal` into each of these types; of other answers the response code counts.
pub record DokuJson : Type 0 where
  pub token_response : String → Option TokenResponse
  pub va_create : String → Option VaCreateResponse
  pub qr_create : String → Option QrCreateResponse
  pub response_code : String → Option String
  pub disb_response : String → Option DokuDisbResponse
  pub va_notification : String → Option VaNotification
  pub disb_notification : String → Option DokuDisbNotification

-- A bank that is not in the map has the empty channel.
unfoldable pub bank_channel : String → String
bank_channel bank =
    if bank == "BCA"
    then "VIRTUAL_ACCOUNT_BANK_BCA"
    else if bank == "BNI"
    then "VIRTUAL_ACCOUNT_BANK_BNI"
    else if bank == "BRI"
    then "VIRTUAL_ACCOUNT_BANK_BRI"
    else if bank == "BSI"
    then "VIRTUAL_ACCOUNT_BANK_BSI"
    else if bank == "MANDIRI"
    then "VIRTUAL_ACCOUNT_BANK_MANDIRI"
    else if bank == "PERMATA"
    then "VIRTUAL_ACCOUNT_BANK_PERMATA"
    else if bank == "CIMB"
    then "VIRTUAL_ACCOUNT_BANK_CIMB"
    else ""

unfoldable pub doku_status : String → PaymentStatus
doku_status code =
    if code == "00" || code == "2002700"
    then PaymentStatus.paid
    else if code == "03"
    then PaymentStatus.pending
    else if code == "05"
    then PaymentStatus.cancelled
    else PaymentStatus.failed

unfoldable pub doku_disb_status : String → DisbursementStatus
doku_disb_status code =
    if code == "2000000" || code == "00"
    then DisbursementStatus.completed
    else if code == "2020000"
    then DisbursementStatus.processing
    else DisbursementStatus.failed

-- time.Duration(n) * time.Second, in 64 bits.
unfoldable pub seconds : ℤ → ℤ
seconds (pos n) = wrap64 (pos (n * 1000000000))
seconds (negsuc n) = wrap64 (sub_ℕ 0 ((n + 1) * 1000000000))

module _ {Key : Type 0} (doku : DokuPorts Key) where
  -- The time to live that an answer names, 900 where it names none.
  unfoldable pub expires_in : ExpiresIn → ℤ
  expires_in (number n) = n
  expires_in (digits s) = elim (doku.scan s) [ none ↦ pos 900 | some n ↦ n ]
  expires_in missing = pos 900

  abbrev rsa_only : Pkcs8Key Key → Result Key
  rsa_only (rsa k) = ok k
  rsa_only other_key = err (external "private key is not RSA")

  abbrev pkcs1_of : Option Key → Result Key
  pkcs1_of none = err (external "parse PKCS8: %v; parse PKCS1: %v")
  pkcs1_of (some k) = ok k

  abbrev key_of_block : String → Option (Pkcs8Key Key) → Result Key
  key_of_block der (some k) = rsa_only k
  key_of_block der none = pkcs1_of (doku.parse_pkcs1 der)

  abbrev key_of : Option String → Result Key
  key_of none = err (external "failed to decode PEM block")
  key_of (some der) = key_of_block der (doku.parse_pkcs8 der)

  unfoldable pub parse_rsa_private_key : String → Result Key
  parse_rsa_private_key pem = key_of (doku.pem_decode pem)

  abbrev with_key : DokuConfig → Result Key → Result (Option (DokuGateway Key))
  with_key cfg (err e) = err (wrap "doku: parse private_key_pem" e)
  with_key cfg (ok k) = ok (
      some (record {
        client_id = cfg.client_id;
        secret_key = cfg.secret_key;
        hmac_key = doku.trim cfg.secret_key;
        private_key = k;
        base_url =
            if cfg.is_production then "https://api.doku.com" else "https://api-sandbox.doku.com";
      }))

  -- `none` where the provider is not enabled.
  unfoldable pub new_doku : DokuConfig → Result (Option (DokuGateway Key))
  new_doku cfg =
      if not cfg.enabled
      then ok none
      else if cfg.client_id == "" || cfg.secret_key == ""
      then err (external "doku: client_id and secret_key are required when enabled")
      else if cfg.private_key_pem == ""
      then err (external "doku: private_key is required when enabled (RSA PKCS8 PEM for B2B token)")
      else with_key cfg (parse_rsa_private_key cfg.private_key_pem)
