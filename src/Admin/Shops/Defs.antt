-- ===== src/Admin/Shops/Defs.antt =====
-- ListMerchants, DeactivateMerchant, DeleteMerchant, UpdateDailyCashoutLimit, VerifyBankAccount,
-- GetProviderBalances and UpdateProviderBalance, and the methods that are those of merchants.
use wanpay.Base.{ℤ, pos, leb_ℤ, Bool, true, not, String, none, List, map, ◌==◌, if◌then◌else◌}
use wanpay.Entity.Merchant.{MerchantStatus}
use wanpay.Entity.Admin.{ProviderBalance}
use wanpay.Db.Error.{not_found}
use wanpay.Db.Monad.{Env, M, ◌>>=◌, ◌>>◌, pure, throw_if, wrapped}
use wanpay.Db.Merchants.{
  find_merchant_by_id, find_bank_account_by_id, soft_delete, list_merchant_rows,
}
use wanpay.Db.Accounts.{update_merchant, update_bank_account}
use wanpay.Db.Admins.{upsert_provider_balance, list_all_balances}
use wanpay.Merchant.{
  CreateMerchantInput, CreateMerchantOutput, MerchantOutput, BankAccountOutput, to_merchant_output,
  create_merchant, get_merchant, activate, suspend, regenerate_api_key, list_bank_accounts,
}
use wanpay.Admin.Types.{AdminListMerchantsFilter, MerchantListOutput}

unfoldable pub normalize_pagination : ℤ → ℤ → ℤ × ℤ
normalize_pagination page limit =
    let page' = if leb_ℤ page (pos 0) then pos 1 else page in
    let limit' = if leb_ℤ limit (pos 0) then pos 20 else limit in
    (page', if leb_ℤ limit' (pos 100) then limit' else pos 100)

module _ (env : Env) where
  unfoldable pub list_merchants :
      (String → String → Bool) → AdminListMerchantsFilter → M MerchantListOutput
  list_merchants ilike filter = do
    (merchants, total) ← wrapped "list merchants" (
        list_merchant_rows ilike env (record {
          status = filter.status;
          search = filter.search;
          page = filter.page;
          limit = filter.limit;
        }))
    let (page, limit) = normalize_pagination filter.page filter.limit
    pure (record {
      items = map (λ m. to_merchant_output m (pos 0)) merchants;
      total = total;
      page = page;
      limit = limit;
    })

  unfoldable pub admin_create_merchant :
      (String → String) → CreateMerchantInput → M CreateMerchantOutput
  admin_create_merchant hash input = create_merchant env hash input

  unfoldable pub admin_get_merchant : String → M MerchantOutput
  admin_get_merchant merchant_id = get_merchant env merchant_id

  unfoldable pub approve_merchant : String → M (Unit {0})
  approve_merchant merchant_id = activate env merchant_id

  unfoldable pub suspend_merchant : String → M (Unit {0})
  suspend_merchant merchant_id = suspend env merchant_id

  unfoldable pub deactivate_merchant : String → M (Unit {0})
  deactivate_merchant merchant_id = do
    m ← find_merchant_by_id env merchant_id
    _ ← update_merchant env (record m { status = MerchantStatus.inactive })
    pure tt

  unfoldable pub delete_merchant : String → M (Unit {0})
  delete_merchant merchant_id = soft_delete env merchant_id

  unfoldable pub update_daily_cashout_limit : String → ℤ → M (Unit {0})
  update_daily_cashout_limit merchant_id limit_idr = do
    m ← find_merchant_by_id env merchant_id
    _ ←
        wrapped "update daily cashout limit"
          (update_merchant env (record m { daily_cashout_limit = limit_idr }))
    pure tt

  unfoldable pub regenerate_merchant_api_key : (String → String) → String → M String
  regenerate_merchant_api_key hash merchant_id = regenerate_api_key env hash merchant_id

  unfoldable pub verify_bank_account : String → String → M (Unit {0})
  verify_bank_account merchant_id account_id = do
    a ← find_bank_account_by_id env account_id
    throw_if (not (a.merchant_id == merchant_id)) (not_found "bank account not found")
    _ ← update_bank_account env (record a { is_verified = true })
    pure tt

  unfoldable pub list_merchant_bank_accounts : String → M (List BankAccountOutput)
  list_merchant_bank_accounts merchant_id = list_bank_accounts env merchant_id

  unfoldable pub get_provider_balances : M (List ProviderBalance)
  get_provider_balances = list_all_balances env

  -- The other fields of the entity are left zero.
  unfoldable pub update_provider_balance : String → ℤ → M (Unit {0})
  update_provider_balance provider balance_idr = do
    _ ← upsert_provider_balance env (record {
      id = "";
      provider = provider;
      balance_idr = balance_idr;
      last_reconciled_at = none;
      note = "";
      created_at = 0;
      updated_at = 0;
    })
    pure tt
