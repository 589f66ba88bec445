-- ===== src/Examples/Admins.antt =====
-- Administrators, their tokens and the guards.
use Prim.Native.String.{◌++◌ as append_text}
use wanpay.Base.{
  if◌then◌else◌, ltb_ℤ, nat_eq, pos, ◌+ℤ◌, wrap64, true, false, String, none, some, [], ◌∷◌, ◌≡◌,
  refl, ◌==◌, ==_refl, if◌then◌else◌, arith,
}
use wanpay.Entity.Fee.{FeeConfig, FeeDefault}
use wanpay.Entity.Merchant.{can_transact}
use wanpay.Db.Error.{ok, err, unauthorized, is_ok}
use wanpay.Db.Monad.{Env, World, statement, query}
use wanpay.Db.Merchants.{find_merchant_by_id}
use wanpay.Db.Accounts.{update_merchant, update_merchant_row}
use wanpay.Db.Admins.{
  find_admin_by_id, update_admin, update_admin_row, update_admin_password, is_role,
}
use wanpay.Db.FeeWrites.{default_written}
use wanpay.Merchant.{regenerate_api_key}
use wanpay.Auth.Jwt.{
  unix, TokenType, Claims, verify, generate, stamped, verify-generate, Signed, verify-Signed,
}
use wanpay.Auth.Guards.{
  api_key_auth, regenerate_api_key-api_key_auth, admin_jwt_auth, Net, as_cidr, webhook_ip_allowlist,
  webhook_ip_allowlist_lem,
}
use wanpay.Admin.Types.{AdminConfig, CreateAdminInput}
use wanpay.Admin.Sessions.{
  expiry_of, Bcrypt, IsBcrypt, ttl, unix_of, issue_tokens, refresh_token, login, credentials,
  login_answer, login_lem, refresh_token-issue_tokens, deactivate_admin,
  deactivate_admin-refresh_token, change_password, change_password-login, base_claims,
}
use wanpay.Admin.Fees.{update_fee_default, default_with, update_fee_default-unlogged}
use wanpay.Admin.Access.{admin_jwt_auth-issue_tokens}
use wanpay.Examples.Data.{env, shop, root, flat, tables}
use wanpay.Examples.Ports.{start}
use wanpay.Examples.Tokens.{codec, codec-IsCodec}

abbrev bcrypt : Bcrypt
bcrypt = record {
  matches = λ hash password. hash == append_text "#" password;
  hash_password = λ n password. ok (append_text "#" password);
}

bcrypt-IsBcrypt : IsBcrypt bcrypt
bcrypt-IsBcrypt = record { matches_own = λ n password hash h. ground (arith, ==_refl hash, h) }

abbrev cfg : AdminConfig
cfg = record { jwt_secret = "s"; access_token_ttl_hours = pos 8; refresh_token_ttl_hours = pos 168 }

-- A minute later.
abbrev later : Env
later = record env { now = 65000000000 }

abbrev claims : Claims
claims = base_claims root TokenType.access (pos 9)

verify-generate_example :
    verify codec 6000000000 "s" (generate codec 5000000000 "s" claims)
    ≡ ok (stamped codec claims 5000000000)
verify-generate_example = verify-generate codec 5000000000 6000000000 "s" claims codec-IsCodec

verify-Signed_example :
    Signed codec 6000000000 "s"
      (generate codec 5000000000 "s" claims)
      (stamped codec claims 5000000000)
verify-Signed_example =
    verify-Signed codec 6000000000 "s" (generate codec 5000000000 "s" claims)
      (stamped codec claims 5000000000) verify-generate_example

login_lem_example :
    (login codec cfg env bcrypt (credentials "root@example.com" "secret99") start).0
    ≡ ok (issue_tokens codec cfg env root)
unfolding login_answer
login_lem_example = login_lem codec cfg env bcrypt (credentials "root@example.com" "secret99") start

refresh_token-issue_tokens_example :
    let tokens = issue_tokens codec cfg env root in
    ((refresh_token codec cfg later tokens.refresh_token start).0
      ≡ ok (issue_tokens codec cfg later root))
    × (is_ok (refresh_token codec cfg later tokens.access_token start).0 ≡ false)
unfolding ttl unix_of ◌+ℤ◌ wrap64
refresh_token-issue_tokens_example =
    refresh_token-issue_tokens codec cfg env later root root start codec-IsCodec refl refl refl refl

abbrev refresh_claims : Claims
refresh_claims = base_claims root TokenType.refresh (pos 900)

deactivate_admin-refresh_token_example :
    is_ok
      (refresh_token codec cfg later
        (generate codec 5000000000 "s" refresh_claims)
        (deactivate_admin env "ad2" "ad1" start).1).0
    ≡ false
unfolding deactivate_admin find_admin_by_id update_admin update_admin_row is_role query statement
deactivate_admin-refresh_token_example =
    deactivate_admin-refresh_token codec cfg env later "ad2" "ad1"
      (generate codec 5000000000 "s" refresh_claims) (stamped codec refresh_claims 5000000000) start
      refl (verify-generate codec 5000000000 65000000000 "s" refresh_claims codec-IsCodec) refl

change_password-login_example :
    let w' = (change_password env bcrypt "ad1" "secret99" "changed1" start).1 in
    (login codec cfg later bcrypt (credentials "root@example.com" "changed1") w').0
    ≡ ok (issue_tokens codec cfg later root)
unfolding change_password find_admin_by_id update_admin_password query statement
change_password-login_example =
    change_password-login codec cfg env later bcrypt "ad1" "secret99" "changed1" root start
      bcrypt-IsBcrypt refl refl refl refl refl

abbrev hired : CreateAdminInput
hired = record {
  requester_id = "ad1";
  email = "new@example.com";
  password = "welcome1";
  role = "finance";
}

admin_jwt_auth-issue_tokens_example :
    let tokens = issue_tokens codec cfg env root in
    let guard = admin_jwt_auth codec 65000000000 "s" in
    let end = unix_of (expiry_of env.now cfg.access_token_ttl_hours) in
    (guard (append_text "Bearer " tokens.access_token) ≡ (
      if ltb_ℤ end (unix later.now)
      then err (unauthorized "invalid token")
      else ok ("ad1", "super_admin")))
    × (is_ok (guard (append_text "Bearer " tokens.refresh_token)) ≡ false)
unfolding ttl unix_of ◌+ℤ◌ wrap64
admin_jwt_auth-issue_tokens_example =
    admin_jwt_auth-issue_tokens codec cfg env later root codec-IsCodec

-- With a default fee.
abbrev priced : FeeDefault
priced = record {
  id = "f";
  va = flat 4500;
  qris = flat 100;
  disbursement = flat 5000;
  updated_by = "";
  updated_at = 0;
  created_at = 0;
}

abbrev priced_world : World
priced_world = record { db = record tables { fee_default = some priced }; clock = 0 }

abbrev cheaper : FeeConfig
cheaper = record { va = flat 4000; qris = flat 100; disbursement = flat 5000 }

-- The fourth statement fails.
abbrev breaking : Env
breaking = record env { statement_fails = λ n. nat_eq n 3 }

update_fee_default-unlogged_example :
    let (r, w') = update_fee_default breaking "ad1" "promotion" cheaper priced_world in
    (is_ok r ≡ false)
    × (w'.db.fee_default
        ≡ some (default_written breaking (default_with priced cheaper "ad1") priced))
    × (w'.db.fee_audit_logs ≡ [])
update_fee_default-unlogged_example =
    update_fee_default-unlogged breaking "ad1" "promotion" cheaper root priced priced_world refl
      refl refl refl refl refl

-- A merchant whose key has the hash "#key".
abbrev hash : String → String
hash raw = append_text "#" raw

abbrev keyed : World
keyed = record {
  db = record tables { merchants = record shop { api_key = "#key" } ∷ [] };
  clock = 0;
}

regenerate_api_key-api_key_auth_example :
    (api_key_auth hash later "wpay_test_00ff" (regenerate_api_key env hash "m1" keyed).1).0
    ≡ ok "m1"
unfolding regenerate_api_key find_merchant_by_id update_merchant update_merchant_row can_transact
    query statement
regenerate_api_key-api_key_auth_example =
    regenerate_api_key-api_key_auth hash env later "m1" "wpay_test_00ff"
      (record shop { api_key = "#key" }) keyed refl refl refl refl

-- One network is known.
abbrev net : Net String String
net = record {
  parse_ip = λ s. some s;
  is_v4 = λ ip. true;
  parse_cidr = λ s. if s == "10.0.0.1/32" then some "10.0.0.1" else none;
  contains = λ n ip. n == ip;
}

webhook_ip_allowlist_lem_example :
    webhook_ip_allowlist net (λ provider. some ("office" ∷ [])) "xendit" "6.6.6.6" ≡ ok tt
unfolding as_cidr
webhook_ip_allowlist_lem_example =
    webhook_ip_allowlist_lem net (λ provider. some ("office" ∷ [])) "xendit" "6.6.6.6"
      ("office" ∷ []) refl
