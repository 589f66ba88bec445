-- ===== src/Db/Accounts.antt =====
-- internal/infrastructure/database/postgres/merchant_repo.go: the writes to merchants and to bank
-- accounts, with the SQL of gen/merchant.sql.go and the constraints of the tables.
use wanpay.Base.{
  ℕ, pos, leb, leb_ℤ, Bool, true, false, not, ◌&&◌, String, none, some, List, [], ◌∷◌, ◌++◌, ◌==◌,
  if◌then◌else◌, find, any, select, update, length,
}
use wanpay.Entity.Merchant.{Merchant, MerchantBankAccount}
use wanpay.Db.Error.{SqlError, sql, row_or_none, Result, ok, err}
use wanpay.Db.Tables.{Db}
use wanpay.Db.Monad.{Env, M, statement, query, wrapped, found}
use wanpay.Db.Merchants.{live_with_id, has_account_id, is_live}
use wanpay.Db.Disbursements.{is_bank_code}

abbrev pub is_live_email : String → Merchant → Bool
is_live_email email m = m.email == email && is_live m

unfoldable pub find_merchant_by_email : Env → String → M Merchant
find_merchant_by_email env email =
    found "merchant with email %s not found" "get merchant by email"
      (query env (λ d. row_or_none (find (is_live_email email) d.merchants)))

-- uq_merchant_email and uq_merchant_api_key, among the other live rows.
abbrev pub clashes : Merchant → Merchant → Bool
clashes m x =
    not (x.id == m.id) && is_live x && (if x.email == m.email then true else x.api_key == m.api_key)

-- The columns that `INSERT` leaves out have the table's defaults.
abbrev pub merchant_row : Env → Merchant → ℕ → Merchant
merchant_row env m n = record m {
  id = env.uuid n;
  daily_cashout_limit = pos 0;
  deleted_at = none;
  created_at = env.now;
  updated_at = env.now;
}

unfoldable pub insert_merchant : Env → Merchant → ℕ → Db → Result (Merchant × Db)
insert_merchant env m n d =
    let row = merchant_row env m n in
    if any (clashes row) d.merchants
    then err (sql SqlError.unique_violation)
    else ok (row, record d { merchants = d.merchants ++ row ∷ [] })

unfoldable pub save_merchant : Env → Merchant → M Merchant
save_merchant env m = wrapped "insert merchant" (statement env (insert_merchant env m))

abbrev pub merchant_written : Env → Merchant → Merchant → Merchant
merchant_written env m row = record m {
  deleted_at = row.deleted_at;
  created_at = row.created_at;
  updated_at = env.now;
}

unfoldable pub update_merchant_row : Env → Merchant → ℕ → Db → Result (Merchant × Db)
update_merchant_row env m n d = elim (find (live_with_id m.id) d.merchants) [
  | none ↦ err (sql SqlError.no_rows)
  | some row ↦
      if not (leb_ℤ (pos 0) m.daily_cashout_limit)
      then err (sql SqlError.check_violation)
      else if any (clashes m) d.merchants
      then err (sql SqlError.unique_violation)
      else ok (
        merchant_written env m row,
        record d { merchants = update (live_with_id m.id) (merchant_written env m) d.merchants },
      )
]

unfoldable pub update_merchant : Env → Merchant → M Merchant
update_merchant env m = wrapped "update merchant" (statement env (update_merchant_row env m))

abbrev pub account_of : String → MerchantBankAccount → Bool
account_of merchant_id a = a.merchant_id == merchant_id

-- `SELECT COUNT(*) … FOR UPDATE`
unfoldable pub counted : Env → String → ℕ → Db → Result (ℕ × Db)
counted env merchant_id n d =
    if env.locks_counts
    then ok (length (select (account_of merchant_id) d.bank_accounts), d)
    else err (sql SqlError.feature_not_supported)

unfoldable pub count_bank_accounts : Env → String → M ℕ
count_bank_accounts env merchant_id =
    wrapped "count bank accounts" (statement env (counted env merchant_id))

abbrev pub is_primary_of : String → MerchantBankAccount → Bool
is_primary_of merchant_id a = a.merchant_id == merchant_id && a.is_primary

abbrev pub not_primary : Env → MerchantBankAccount → MerchantBankAccount
not_primary env a = record a { is_primary = false; updated_at = env.now }

unfoldable pub unset_primary_bank_accounts : Env → String → M (Unit {0})
unset_primary_bank_accounts env merchant_id = wrapped "unset primary bank accounts" (
    statement env (λ n d. ok (
      tt,
      record d {
        bank_accounts = update (is_primary_of merchant_id) (not_primary env) d.bank_accounts;
      },
    )))

-- uq_merchant_bank_account and uq_merchant_primary_account, among the other rows.
abbrev pub account_clashes : MerchantBankAccount → MerchantBankAccount → Bool
account_clashes a x =
    not (x.id == a.id)
    && x.merchant_id == a.merchant_id
    && (if x.bank_code == a.bank_code && x.account_number == a.account_number
        then true
        else x.is_primary && a.is_primary)

abbrev pub account_row : Env → MerchantBankAccount → ℕ → MerchantBankAccount
account_row env a n = record a { id = env.uuid n; created_at = env.now; updated_at = env.now }

unfoldable pub insert_bank_account :
    Env → MerchantBankAccount → ℕ → Db → Result (MerchantBankAccount × Db)
insert_bank_account env a n d =
    let row = account_row env a n in
    if not (is_bank_code a.bank_code)
    then err (sql SqlError.check_violation)
    else if any (account_clashes row) d.bank_accounts
    then err (sql SqlError.unique_violation)
    else if not (any (λ (m : Merchant). m.id == a.merchant_id) d.merchants)
    then err (sql SqlError.foreign_key_violation)
    else ok (row, record d { bank_accounts = d.bank_accounts ++ row ∷ [] })

unfoldable pub save_bank_account : Env → MerchantBankAccount → M MerchantBankAccount
save_bank_account env a = wrapped "insert bank account" (statement env (insert_bank_account env a))

abbrev pub account_written : Env → MerchantBankAccount → MerchantBankAccount → MerchantBankAccount
account_written env a row = record a {
  merchant_id = row.merchant_id;
  created_at = row.created_at;
  updated_at = env.now;
}

unfoldable pub update_bank_account_row :
    Env → MerchantBankAccount → ℕ → Db → Result (MerchantBankAccount × Db)
update_bank_account_row env a n d = elim (find (has_account_id a.id) d.bank_accounts) [
  | none ↦ err (sql SqlError.no_rows)
  | some row ↦
      if not (is_bank_code a.bank_code)
      then err (sql SqlError.check_violation)
      else if any (account_clashes (account_written env a row)) d.bank_accounts
      then err (sql SqlError.unique_violation)
      else ok (
        account_written env a row,
        record d {
          bank_accounts = update (has_account_id a.id) (account_written env a) d.bank_accounts;
        },
      )
]

unfoldable pub update_bank_account : Env → MerchantBankAccount → M MerchantBankAccount
update_bank_account env a =
    wrapped "update bank account" (statement env (update_bank_account_row env a))

unfoldable pub delete_bank_account : Env → String → M (Unit {0})
delete_bank_account env id = wrapped "delete bank account" (
    statement env (λ n d. ok (
      tt,
      record d {
        bank_accounts = select (λ (a : MerchantBankAccount). not (a.id == id)) d.bank_accounts;
      },
    )))

-- `ORDER BY is_primary DESC, created_at ASC`
abbrev comes_before : MerchantBankAccount → MerchantBankAccount → Bool
comes_before a b =
    if a.is_primary
    then (if b.is_primary then leb a.created_at b.created_at else true)
    else not b.is_primary && leb a.created_at b.created_at

unfoldable pub insert_account_in_order :
    MerchantBankAccount → List MerchantBankAccount → List MerchantBankAccount
insert_account_in_order a [] = a ∷ []
insert_account_in_order a (b ∷ bs) =
    let rest = insert_account_in_order a bs in if comes_before a b then a ∷ b ∷ bs else b ∷ rest

unfoldable pub in_order : List MerchantBankAccount → List MerchantBankAccount
unfolding insert_account_in_order
in_order [] = []
in_order (a ∷ xs) = insert_account_in_order a (in_order xs)

unfoldable pub find_bank_accounts_by_merchant_id : Env → String → M (List MerchantBankAccount)
find_bank_accounts_by_merchant_id env merchant_id = wrapped "list bank accounts" (
    query env (λ d. ok (
      in_order
        (select (λ (a : MerchantBankAccount). a.merchant_id == merchant_id) d.bank_accounts))))
