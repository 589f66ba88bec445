-- ===== src/Admin/Sessions/Defs.antt =====
-- Login, RefreshToken, issueTokens, CreateAdmin, ListAdmins, DeactivateAdmin, GetMe and ChangePassword.
-- bcrypt is a parameter: a call of GenerateFromPassword draws a salt, and counts as a step of the clock.
use wanpay.Base.{
  ℕ, suc, ◌*◌, ◌-◌, ◌/◌, ℤ, pos, negsuc, ◌+ℤ◌, wrap64, Bool, true, false, not, ◌==◌, String, none,
  List, map,
}
use wanpay.Entity.Fee.{Time}
use wanpay.Entity.Admin.{Admin}
use wanpay.Db.Error.{Error, bad_request, unauthorized, Result}
use wanpay.Db.Monad.{Env, M, ◌>>=◌, ◌>>◌, pure, throw_if, lift, attempt, wrapped, or_unauthorized}
use wanpay.Db.Admins.{
  find_admin_by_id, find_admin_by_email, save_admin, update_last_login, update_admin,
  update_admin_password, list_admins,
}
use wanpay.Auth.Jwt.{TokenType, Claims, TokenCodec, is_refresh, generate, verify}
use wanpay.Admin.Types.{
  AdminLoginInput, AdminTokenOutput, CreateAdminInput, AdminOutput, AdminConfig, to_admin_output,
}

-- golang.org/x/crypto/bcrypt: CompareHashAndPassword, and GenerateFromPassword with the salt that a call
-- draws.
pub record Bcrypt : Type 0 where
  pub matches : String → String → Bool
  pub hash_password : ℕ → String → Result String

abbrev pub invalid_credentials : Error
invalid_credentials = unauthorized "invalid credentials"

-- `time.Duration(hours) * time.Hour`
unfoldable pub ttl : ℤ → ℤ
ttl (pos h) = wrap64 (pos (h * 3600000000000))
ttl (negsuc h) = wrap64 (negsuc (suc h * 3600000000000 - 1))

-- `now.Add(d)`, and `Unix()` of it, rounded down.
abbrev pub expiry_of : Time → ℤ → ℤ
expiry_of now hours = pos now +ℤ ttl hours

unfoldable pub unix_of : ℤ → ℤ
unix_of (pos n) = pos (n / 1000000000)
unix_of (negsuc n) = negsuc (n / 1000000000)

abbrev pub base_claims : Admin → TokenType → ℤ → Claims
base_claims a type exp = record {
  sub = a.id;
  email = a.email;
  role = a.role;
  type = type;
  exp = exp;
  iat = pos 0;
}

unfoldable pub new_admin : CreateAdminInput → String → Admin
new_admin input hash = record {
  id = "";
  email = input.email;
  password_hash = hash;
  role = input.role;
  is_active = true;
  last_login_at = none;
  created_at = 0;
  updated_at = 0;
}

module _ (codec : TokenCodec) (cfg : AdminConfig) (env : Env) where
  unfoldable pub issue_tokens : Admin → AdminTokenOutput
  issue_tokens a = record {
    access_token =
        generate codec env.now cfg.jwt_secret
          (base_claims a TokenType.access (unix_of (expiry_of env.now cfg.access_token_ttl_hours)));
    refresh_token =
        generate codec env.now cfg.jwt_secret (
          base_claims a TokenType.refresh
            (unix_of (expiry_of env.now cfg.refresh_token_ttl_hours)));
    expires_at = expiry_of env.now cfg.access_token_ttl_hours;
  }

  unfoldable pub refresh_token : String → M AdminTokenOutput
  refresh_token token = do
    claims ←
        or_unauthorized "invalid refresh token" (lift (verify codec env.now cfg.jwt_secret token))
    throw_if (not (is_refresh claims.type)) (unauthorized "not a refresh token")
    a ← or_unauthorized "admin no longer exists" (find_admin_by_id env claims.sub)
    throw_if (not a.is_active) (unauthorized "account is deactivated")
    pure (issue_tokens a)

  module _ (bcrypt : Bcrypt) where
    unfoldable pub login : AdminLoginInput → M AdminTokenOutput
    login input = do
      a ← or_unauthorized "invalid credentials" (find_admin_by_email env input.email)
      throw_if (not a.is_active) invalid_credentials
      throw_if (not (bcrypt.matches a.password_hash input.password)) invalid_credentials
      _ ← attempt (update_last_login env a.id)
      pure (issue_tokens a)

module _ (env : Env) where
  unfoldable pub list_admins_page : ℤ → ℤ → M (List AdminOutput × ℕ)
  list_admins_page page limit = do
    (admins, total) ← wrapped "list admins" (list_admins env page limit)
    pure (map to_admin_output admins, total)

  unfoldable pub deactivate_admin : String → String → M (Unit {0})
  deactivate_admin caller_id admin_id = do
    throw_if (caller_id == admin_id) (bad_request "cannot deactivate your own account")
    a ← find_admin_by_id env admin_id
    _ ← update_admin env (record a { is_active = false })
    pure tt

  unfoldable pub get_me : String → M AdminOutput
  get_me admin_id = do a ← find_admin_by_id env admin_id; pure (to_admin_output a)

  module _ (bcrypt : Bcrypt) where
    generate_hash : String → M String
    generate_hash password w =
        (bcrypt.hash_password w.clock password, record w { clock = suc w.clock })

    unfoldable pub create_admin : CreateAdminInput → M AdminOutput
    unfolding generate_hash
    create_admin input = do
      hash ← wrapped "hash password" (generate_hash input.password)
      a ← wrapped "create admin" (save_admin env (new_admin input hash))
      pure (to_admin_output a)

    unfoldable pub change_password : String → String → String → M (Unit {0})
    unfolding generate_hash
    change_password admin_id old_password new_password = do
      a ← find_admin_by_id env admin_id
      throw_if (not (bcrypt.matches a.password_hash old_password))
          (unauthorized "incorrect current password")
      hash ← wrapped "hash new password" (generate_hash new_password)
      update_admin_password env admin_id hash
