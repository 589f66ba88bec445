-- ===== src/Db/Admins.antt =====
-- internal/infrastructure/database/postgres/admin_repo.go and provider_balance_repo.go, with their SQL
-- and the constraints of the tables.
use Prim.Native.Nat.{Ordering}
use Prim.Native.String.{compare}
use wanpay.Base.{
  ℕ, ℤ, Bool, true, not, ◌||◌, String, none, some, List, [], ◌∷◌, ◌++◌, ◌==◌, if◌then◌else◌, find,
  any, update,
}
use wanpay.Entity.Admin.{Admin, ProviderBalance, role_super_admin, role_ops, role_finance}
use wanpay.Db.Error.{SqlError, sql, row_or_none, Result, ok, err}
use wanpay.Db.Tables.{Db}
use wanpay.Db.Disbursements.{is_provider}
use wanpay.Db.Pages.{listed}
use wanpay.Db.Monad.{Env, M, statement, query, wrapped, found}

abbrev pub has_admin_id : String → Admin → Bool
has_admin_id id a = a.id == id

abbrev pub has_admin_email : String → Admin → Bool
has_admin_email email a = a.email == email

unfoldable pub find_admin_by_id : Env → String → M Admin
find_admin_by_id env id =
    found "admin %s not found" "get admin by id"
      (query env (λ d. row_or_none (find (has_admin_id id) d.admins)))

unfoldable pub find_admin_by_email : Env → String → M Admin
find_admin_by_email env email =
    found "admin not found" "get admin by email"
      (query env (λ d. row_or_none (find (has_admin_email email) d.admins)))

-- The check of the column `role`.
unfoldable pub is_role : String → Bool
is_role s = s == role_super_admin || s == role_ops || s == role_finance

-- `INSERT` with is_active = true, under uq_admins_email.
unfoldable pub insert_admin : Env → Admin → ℕ → Db → Result (Admin × Db)
insert_admin env a n d =
    let row = record a {
      id = env.uuid n;
      is_active = true;
      last_login_at = none;
      created_at = env.now;
      updated_at = env.now;
    } in
    if not (is_role a.role)
    then err (sql SqlError.check_violation)
    else if any (has_admin_email a.email) d.admins
    then err (sql SqlError.unique_violation)
    else ok (row, record d { admins = d.admins ++ row ∷ [] })

unfoldable pub save_admin : Env → Admin → M Admin
save_admin env a = wrapped "insert admin" (statement env (insert_admin env a))

abbrev pub logged_in : Env → Admin → Admin
logged_in env a = record a { last_login_at = some env.now; updated_at = env.now }

unfoldable pub update_last_login : Env → String → M (Unit {0})
update_last_login env id = wrapped "update admin last_login_at" (
    statement env
      (λ n d. ok (tt, record d { admins = update (has_admin_id id) (logged_in env) d.admins })))

-- The columns that `UPDATE admins SET …` writes.
abbrev pub admin_written : Env → Admin → Admin → Admin
admin_written env a row = record row {
  role = a.role;
  is_active = a.is_active;
  updated_at = env.now;
}

unfoldable pub update_admin_row : Env → Admin → ℕ → Db → Result (Admin × Db)
update_admin_row env a n d = elim (find (has_admin_id a.id) d.admins) [
  | none ↦ err (sql SqlError.no_rows)
  | some row ↦
      if not (is_role a.role)
      then err (sql SqlError.check_violation)
      else ok (
        admin_written env a row,
        record d { admins = update (has_admin_id a.id) (admin_written env a) d.admins },
      )
]

unfoldable pub update_admin : Env → Admin → M Admin
update_admin env a =
    found "admin %s not found" "update admin" (statement env (update_admin_row env a))

abbrev pub with_password : Env → String → Admin → Admin
with_password env hash a = record a { password_hash = hash; updated_at = env.now }

unfoldable pub update_admin_password : Env → String → String → M (Unit {0})
update_admin_password env id hash = wrapped "update admin password" (
    statement env (λ n d.
      ok (tt, record d { admins = update (has_admin_id id) (with_password env hash) d.admins })))

unfoldable pub list_admins : Env → ℤ → ℤ → M (List Admin × ℕ)
list_admins env page limit =
    listed env (λ a. a.created_at) "count admins" "list admins" page limit (λ d. d.admins)

abbrev pub of_provider : String → ProviderBalance → Bool
of_provider provider b = b.provider == provider

abbrev pub balance_written : Env → ProviderBalance → ProviderBalance → ProviderBalance
balance_written env b row = record row {
  balance_idr = b.balance_idr;
  last_reconciled_at = b.last_reconciled_at;
  note = b.note;
  updated_at = env.now;
}

-- `INSERT … ON CONFLICT (provider) DO UPDATE`; the check comes before the conflict.
unfoldable pub upsert_balance_row : Env → ProviderBalance → ℕ → Db → Result (ProviderBalance × Db)
upsert_balance_row env b n d =
    if not (is_provider b.provider)
    then err (sql SqlError.check_violation)
    else elim (find (of_provider b.provider) d.provider_balances) [
      | none ↦
          let row = record b { id = env.uuid n; created_at = env.now; updated_at = env.now } in
          ok (row, record d { provider_balances = d.provider_balances ++ row ∷ [] })
      | some row ↦ ok (
        balance_written env b row,
        record d {
          provider_balances =
              update (of_provider b.provider) (balance_written env b) d.provider_balances;
        },
      )
    ]

unfoldable pub upsert_provider_balance : Env → ProviderBalance → M ProviderBalance
upsert_provider_balance env b =
    wrapped "upsert provider balance" (statement env (upsert_balance_row env b))

unfoldable pub find_balance_by_provider : Env → String → M ProviderBalance
find_balance_by_provider env provider =
    found "provider balance for %s not found" "get provider balance"
      (query env (λ d. row_or_none (find (of_provider provider) d.provider_balances)))

-- `ORDER BY provider ASC`
unfoldable pub insert_by_provider : ProviderBalance → List ProviderBalance → List ProviderBalance
insert_by_provider b [] = b ∷ []
insert_by_provider b (c ∷ cs) =
    let rest = insert_by_provider b cs in
    elim (compare b.provider c.provider) [ Ordering.gt ↦ c ∷ rest | _ ↦ b ∷ c ∷ cs ]

unfoldable pub by_provider : List ProviderBalance → List ProviderBalance
unfolding insert_by_provider
by_provider [] = []
by_provider (b ∷ bs) = insert_by_provider b (by_provider bs)

unfoldable pub list_all_balances : Env → M (List ProviderBalance)
list_all_balances env =
    wrapped "list provider balances" (query env (λ d. ok (by_provider d.provider_balances)))
