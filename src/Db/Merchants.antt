-- ===== src/Db/Merchants.antt =====
-- internal/infrastructure/database/postgres/merchant_repo.go: what is read of
-- merchants, their lists, and their deletion.
use Prim.Native.String.{◌++◌ as append_text}
use wanpay.Base.{
  ℕ, ℤ, Bool, true, false, ◌&&◌, ◌||◌, String, Option, none, some, List, ◌==◌, find, select, update,
  if◌then◌else◌,
}
use wanpay.Entity.Merchant.{Merchant, MerchantStatus, MerchantBankAccount}
use wanpay.Db.Error.{row_or_none, ok}
use wanpay.Db.Pages.{listed}
use wanpay.Db.Monad.{Env, M, statement, query, wrapped, found}

abbrev is_unset {ℓ} : {A : Type ℓ} → Option A → Bool
is_unset none = true
is_unset (some _) = false

abbrev pub is_live : Merchant → Bool
is_live m = is_unset m.deleted_at

-- `id = $1 AND deleted_at IS NULL`
abbrev pub live_with_id : String → Merchant → Bool
live_with_id id m = m.id == id && is_live m

unfoldable pub find_merchant_by_id : Env → String → M Merchant
find_merchant_by_id env id =
    found "merchant %s not found" "get merchant by id"
      (query env (λ d. row_or_none (find (live_with_id id) d.merchants)))

abbrev pub has_account_id : String → MerchantBankAccount → Bool
has_account_id id a = a.id == id

unfoldable pub find_bank_account_by_id : Env → String → M MerchantBankAccount
find_bank_account_by_id env id =
    found "bank account %s not found" "get bank account by id"
      (query env (λ d. row_or_none (find (has_account_id id) d.bank_accounts)))

abbrev pub has_merchant_id : String → Merchant → Bool
has_merchant_id id m = m.id == id

-- `SELECT id FROM merchants WHERE id = $1 FOR UPDATE`, a deleted merchant's row too.
unfoldable pub lock_merchant : Env → String → M Merchant
lock_merchant env id =
    wrapped "lock merchant" (query env (λ d. row_or_none (find (has_merchant_id id) d.merchants)))

abbrev pub live_with_key : String → Merchant → Bool
live_with_key hashed m = m.api_key == hashed && is_live m

-- `api_key = $1 AND deleted_at IS NULL`
unfoldable pub find_by_api_key : Env → String → M Merchant
find_by_api_key env hashed =
    found "merchant not found" "get merchant by api_key"
      (query env (λ d. row_or_none (find (live_with_key hashed) d.merchants)))

abbrev pub is_primary_account : String → MerchantBankAccount → Bool
is_primary_account merchant_id a = a.merchant_id == merchant_id && a.is_primary

unfoldable pub find_primary_bank_account : Env → String → M MerchantBankAccount
find_primary_bank_account env merchant_id =
    found "no primary bank account for merchant %s" "get primary bank account"
      (query env (λ d. row_or_none (find (is_primary_account merchant_id) d.bank_accounts)))

abbrev pub deleted : Env → Merchant → Merchant
deleted env m = record m { deleted_at = some env.now; updated_at = env.now }

-- A merchant that is not there, or deleted already, is no error.
unfoldable pub soft_delete : Env → String → M (Unit {0})
soft_delete env id = wrapped "soft delete merchant" (
    statement env
      (λ n d. ok (tt, record d { merchants = update (live_with_id id) (deleted env) d.merchants })))

unfoldable pub merchant_status_text : MerchantStatus → String
merchant_status_text MerchantStatus.pending = "pending"
merchant_status_text MerchantStatus.active = "active"
merchant_status_text MerchantStatus.suspended = "suspended"
merchant_status_text MerchantStatus.inactive = "inactive"

pub record ListMerchantFilter : Type 0 where
  pub status : String
  pub search : String
  pub page : ℤ
  pub limit : ℤ

-- `text ILIKE pattern` of Postgres is a parameter.
module _ (ilike : String → String → Bool) where
  unfoldable pub matches_merchant : ListMerchantFilter → Merchant → Bool
  unfolding merchant_status_text
  matches_merchant f m =
      is_live m
      && (if f.status == "" then true else merchant_status_text m.status == f.status)
      && (if f.search == ""
          then true
          else (let pattern = append_text f.search "%" in
              ilike m.name pattern || ilike m.email pattern))

  unfoldable pub list_merchant_rows : Env → ListMerchantFilter → M (List Merchant × ℕ)
  list_merchant_rows env f =
      listed env (λ m. m.created_at) "count merchants" "list merchants" f.page f.limit
        (λ d. select (matches_merchant f) d.merchants)
