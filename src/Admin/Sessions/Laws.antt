-- ===== src/Admin/Sessions/Laws.antt =====
-- Who is let in: logins, refreshed tokens, changed passwords and deactivated accounts.
use wanpay.Base.{
  ℕ, suc, ltb_ℤ, true, false, ◌&&◌, String, Option, none, some, ◌≡◌, refl, sym, subst, ==_refl,
  ==→≡, find, any, find-update, find-update_where, find-append_one, find_sound, arith,
  if◌then◌else◌, Option-cases, Bool-cases, inl, inr,
}
use wanpay.Entity.Admin.{Admin}
use wanpay.Db.Error.{Result, ok, err, is_ok, Result-cases}
use wanpay.Db.Monad.{Env, World, statement, query}
use wanpay.Db.Admins.{
  has_admin_id, has_admin_email, find_admin_by_id, find_admin_by_email, update_admin,
  update_admin_row, update_admin_password, with_password, admin_written, save_admin, insert_admin,
}
use wanpay.Auth.Jwt.{TokenType, Claims, TokenCodec, IsCodec, verify, unix, verify-generate}
use wanpay.Admin.Types.{AdminLoginInput, AdminTokenOutput, CreateAdminInput, AdminConfig}
use wanpay.Admin.Sessions.Defs.{
  Bcrypt, invalid_credentials, unix_of, expiry_of, issue_tokens, refresh_token, login,
  deactivate_admin, create_admin, new_admin, change_password, base_claims,
}

module _ (codec : TokenCodec) (cfg : AdminConfig) (env : Env) (bcrypt : Bcrypt) where
  -- What a login answers, from the row that is read.
  unfoldable pub login_answer : AdminLoginInput → Option Admin → Result AdminTokenOutput
  login_answer input none = err invalid_credentials
  login_answer input (some a) =
      if a.is_active && bcrypt.matches a.password_hash input.password
      then ok (issue_tokens codec cfg env a)
      else err invalid_credentials

  -- A login that reaches the database gives tokens exactly to an active administrator with the right
  -- password; every other one has one and the same answer, and so has a database that fails.
  pub login_lem :
      (input : AdminLoginInput) (w : World)
      → (login codec cfg env bcrypt input w).0 ≡ (
          if env.statement_fails w.clock
          then err invalid_credentials
          else login_answer input (find (has_admin_email input.email) w.db.admins))
  unfolding login find_admin_by_email query statement login_answer
  login_lem input w = elim (Option-cases (find (has_admin_email input.email) w.db.admins)) [
    | inl e ↦ ground arith
    | inr (a, e) ↦ ground arith
  ]

module _ (env : Env) where
  deactivated :
      (caller_id admin_id : String) (w : World)
      → is_ok (deactivate_admin env caller_id admin_id w).0 ≡ true
      → (row : Admin) × (row.is_active ≡ false)
        × (find (has_admin_id admin_id) (deactivate_admin env caller_id admin_id w).1.db.admins
            ≡ some row)
  unfolding deactivate_admin find_admin_by_id update_admin update_admin_row query statement
  deactivated caller_id admin_id w h =
      elim (Option-cases (find (has_admin_id admin_id) w.db.admins)) [
        | inl missing ↦ absurd (ground arith)
        | inr (a, e) ↦
            let same = ==→≡ a.id admin_id (find_sound (has_admin_id admin_id) w.db.admins a e) in
            let off = record a { is_active = false } in
            let own = subst (λ id. find (has_admin_id id) w.db.admins ≡ some a) (sym same) e in
            let e' =
              find-update (has_admin_id a.id) (admin_written env off) w.db.admins a (λ x. refl)
                own in
            (admin_written env off a, refl, ground (arith, same, e, own, e'))
      ]

module _ (codec : TokenCodec) (cfg : AdminConfig) (env later : Env) where
  -- Until it expires, the refresh token of an administrator whose account is still active gives new
  -- tokens with what the account's row says by then; the access token never does.
  pub refresh_token-issue_tokens :
      (a row : Admin) (w : World)
      → IsCodec codec
      → find (has_admin_id a.id) w.db.admins ≡ some row
      → row.is_active ≡ true
      → later.statement_fails w.clock ≡ false
      → ltb_ℤ (unix_of (expiry_of env.now cfg.refresh_token_ttl_hours)) (unix later.now) ≡ false
      → let tokens = issue_tokens codec cfg env a in
        ((refresh_token codec cfg later tokens.refresh_token w).0
          ≡ ok (issue_tokens codec cfg later row))
        × (is_ok (refresh_token codec cfg later tokens.access_token w).0 ≡ false)
  unfolding refresh_token issue_tokens find_admin_by_id query statement
  refresh_token-issue_tokens a row w laws e active up young =
      let claims =
        base_claims a TokenType.refresh (unix_of (expiry_of env.now cfg.refresh_token_ttl_hours)) in
      let claims' =
        base_claims a TokenType.access (unix_of (expiry_of env.now cfg.access_token_ttl_hours)) in
      (
        ground (arith, verify-generate codec env.now later.now cfg.jwt_secret claims laws),
        ground (arith, verify-generate codec env.now later.now cfg.jwt_secret claims' laws),
      )

  refresh_token-inactive :
      (token : String) (c : Claims) (row : Admin) (w : World)
      → verify codec later.now cfg.jwt_secret token ≡ ok c
      → find (has_admin_id c.sub) w.db.admins ≡ some row
      → row.is_active ≡ false
      → is_ok (refresh_token codec cfg later token w).0 ≡ false
  unfolding refresh_token find_admin_by_id query statement
  refresh_token-inactive token c row w v e off = rw v (ground (arith, e))

  -- Once an account has been deactivated, no token of it is refreshed.
  pub deactivate_admin-refresh_token :
      (caller_id admin_id token : String) (c : Claims) (w : World)
      → is_ok (deactivate_admin env caller_id admin_id w).0 ≡ true
      → verify codec later.now cfg.jwt_secret token ≡ ok c
      → c.sub ≡ admin_id
      → is_ok (refresh_token codec cfg later token (deactivate_admin env caller_id admin_id w).1).0
        ≡ false
  deactivate_admin-refresh_token caller_id admin_id token c w h v same =
      let (row, off, e) = deactivated env caller_id admin_id w h in
      refresh_token-inactive token c row (deactivate_admin env caller_id admin_id w).1 v (rw same e)
        off

-- A hash that bcrypt has made matches the password that it was made of.
pub record IsBcrypt (bcrypt : Bcrypt) : Type 0 where
  pub matches_own :
      (n : ℕ) (password hash : String)
      → bcrypt.hash_password n password ≡ ok hash
      → bcrypt.matches hash password ≡ true

module _ (env : Env) (bcrypt : Bcrypt) where
  changed :
      (admin_id old_password new_password : String) (a : Admin) (w : World)
      → IsBcrypt bcrypt
      → find (has_admin_id admin_id) w.db.admins ≡ some a
      → find (has_admin_email a.email) w.db.admins ≡ some a
      → is_ok (change_password env bcrypt admin_id old_password new_password w).0 ≡ true
      → let w' = (change_password env bcrypt admin_id old_password new_password w).1 in
        (hash : String) × (bcrypt.matches hash new_password ≡ true)
        × (find (has_admin_email a.email) w'.db.admins ≡ some (with_password env hash a))
  unfolding change_password find_admin_by_id update_admin_password query statement
  changed admin_id old_password new_password a w laws e by_email h =
      elim (Result-cases (bcrypt.hash_password (suc w.clock) new_password)) [
        | inr (x, bad) ↦ absurd (ground arith)
        | inl (hash, made) ↦ (
          hash,
          laws.matches_own (suc w.clock) new_password hash made,
          ground (
            arith,
            find_sound (has_admin_id admin_id) w.db.admins a e,
            find-update_where (has_admin_email a.email) (has_admin_id admin_id)
                (with_password env hash) w.db.admins a (λ (x : Admin). refl) by_email,
          ),
        )
      ]

  created :
      (input : CreateAdminInput) (w : World)
      → IsBcrypt bcrypt
      → is_ok (create_admin env bcrypt input w).0 ≡ true
      → let w' = (create_admin env bcrypt input w).1 in
        (row : Admin) × (row.is_active ≡ true)
        × (row.role ≡ input.role)
        × (bcrypt.matches row.password_hash input.password ≡ true)
        × (find (has_admin_email input.email) w'.db.admins ≡ some row)
  unfolding create_admin save_admin insert_admin new_admin statement
  created input w laws h = elim (Result-cases (bcrypt.hash_password w.clock input.password)) [
    | inr (x, bad) ↦ absurd (ground arith)
    | inl (hash, made) ↦ elim (Bool-cases (any (has_admin_email input.email) w.db.admins)) [
      | inl taken ↦ absurd (ground arith)
      | inr free ↦
          let row = record (new_admin input hash) {
            id = env.uuid (suc w.clock);
            created_at = env.now;
            updated_at = env.now;
          } in
          (
            row,
            refl,
            refl,
            laws.matches_own w.clock input.password hash made,
            ground (
              arith,
              find-append_one (has_admin_email input.email) w.db.admins row free
                  (==_refl input.email),
            ),
          )
    ]
  ]

abbrev pub credentials : String → String → AdminLoginInput
credentials email password = record { email = email; password = password }

module _ (codec : TokenCodec) (cfg : AdminConfig) (env later : Env) (bcrypt : Bcrypt) where
  -- Where no other account has the administrator's address, a password that has been changed is the one
  -- that the next login of the active account takes.
  pub change_password-login :
      (admin_id old_password new_password : String) (a : Admin) (w : World)
      → IsBcrypt bcrypt
      → find (has_admin_id admin_id) w.db.admins ≡ some a
      → find (has_admin_email a.email) w.db.admins ≡ some a
      → a.is_active ≡ true
      → is_ok (change_password env bcrypt admin_id old_password new_password w).0 ≡ true
      → later.statement_fails
          (change_password env bcrypt admin_id old_password new_password w).1.clock
        ≡ false
      → let w' = (change_password env bcrypt admin_id old_password new_password w).1 in
        (login codec cfg later bcrypt (credentials a.email new_password) w').0
        ≡ ok (issue_tokens codec cfg later a)
  unfolding login_answer issue_tokens
  change_password-login admin_id old_password new_password a w laws e by_email active h up =
      let w' = (change_password env bcrypt admin_id old_password new_password w).1 in
      let (hash, right, found) =
        changed env bcrypt admin_id old_password new_password a w laws e by_email h in
      ground (
        arith,
        login_lem codec cfg later bcrypt (credentials a.email new_password) w',
        right,
        found,
      )

  -- Who has created an account can log in to it.
  pub create_admin-login :
      (input : CreateAdminInput) (w : World)
      → IsBcrypt bcrypt
      → is_ok (create_admin env bcrypt input w).0 ≡ true
      → later.statement_fails (create_admin env bcrypt input w).1.clock ≡ false
      → let w' = (create_admin env bcrypt input w).1 in
        is_ok (login codec cfg later bcrypt (credentials input.email input.password) w').0 ≡ true
  unfolding login_answer
  create_admin-login input w laws h up =
      let w' = (create_admin env bcrypt input w).1 in
      let (row, active, role, right, found) = created env bcrypt input w laws h in
      ground (
        arith,
        login_lem codec cfg later bcrypt (credentials input.email input.password) w',
        right,
        found,
      )
