-- ===== src/Merchant/Defs.antt =====
-- The methods of merchantUsecase but ListWebhookEvents. `hash` is SHA-256 in hexadecimal; a call of
-- `crypto/rand` counts as a step of the clock.
use Prim.Native.String.{◌++◌ as append_text}
use wanpay.Base.{
  suc, leb, ℤ, pos, Bool, true, false, not, String, none, List, map, ◌==◌, if◌then◌else◌,
}
use wanpay.Entity.Merchant.{Merchant, MerchantStatus, MerchantBankAccount, max_bank_accounts}
use wanpay.Db.Error.{conflict, not_found, unprocessable_entity, is_app, Result, ok, err}
use wanpay.Db.Monad.{Env, M, ◌>>=◌, ◌>>◌, pure, throw, throw_if, attempt, wrapped, run_in_tx}
use wanpay.Db.Merchants.{find_merchant_by_id, find_bank_account_by_id}
use wanpay.Db.Mutations.{get_balance}
use wanpay.Db.Accounts.{
  find_merchant_by_email, save_merchant, update_merchant, count_bank_accounts,
  unset_primary_bank_accounts, save_bank_account, update_bank_account, delete_bank_account,
  find_bank_accounts_by_merchant_id,
}
use wanpay.Merchant.Types.{
  CreateMerchantInput, UpdateMerchantInput, AddBankAccountInput, CreateMerchantOutput,
  MerchantOutput, BankAccountOutput, to_merchant_output, to_bank_account_output,
}

abbrev given_or : String → String → String
given_or new old = if new == "" then old else new

abbrev balance_or_zero : Result ℤ → ℤ
balance_or_zero (ok b) = b
balance_or_zero (err _) = pos 0

unfoldable pub new_account : AddBankAccountInput → MerchantBankAccount
new_account input = record {
  id = "";
  merchant_id = input.merchant_id;
  bank_code = input.bank_code;
  account_number = input.account_number;
  account_name = input.account_name;
  is_primary = input.set_as_primary;
  is_verified = false;
  created_at = 0;
  updated_at = 0;
}

unfoldable pub new_merchant : CreateMerchantInput → String → String → String → Merchant
new_merchant input hashed_key hashed_secret raw_secret = record {
  id = "";
  name = input.name;
  email = input.email;
  phone = input.phone;
  status = MerchantStatus.pending;
  api_key = hashed_key;
  webhook_url = input.webhook_url;
  webhook_secret = hashed_secret;
  webhook_signing_key = raw_secret;
  fee_config = input.fee_config;
  is_production = input.is_production;
  daily_cashout_limit = pos 0;
  deleted_at = none;
  created_at = 0;
  updated_at = 0;
}

module _ (env : Env) where
  random : M String
  random w = (ok (env.random_hex w.clock), record w { clock = suc w.clock })

  -- A registered address is a conflict; an error that is no `*AppError` is passed on.
  check_email : Result Merchant → M (Unit {0})
  check_email (ok m) = throw (conflict "email %s is already registered")
  check_email (err e) = throw_if (not (is_app e)) e

  unfoldable pub get_merchant : String → M MerchantOutput
  get_merchant id = do
    m ← find_merchant_by_id env id
    balance ← attempt (get_balance env id)
    pure (to_merchant_output m (balance_or_zero balance))

  unfoldable pub update_details : UpdateMerchantInput → M MerchantOutput
  update_details input = do
    m ← find_merchant_by_id env input.merchant_id
    m' ← wrapped "update merchant" (
        update_merchant env (record m {
          name = given_or input.name m.name;
          email = given_or input.email m.email;
          phone = given_or input.phone m.phone;
          webhook_url = given_or input.webhook_url m.webhook_url;
        }))
    balance ← attempt (get_balance env m'.id)
    pure (to_merchant_output m' (balance_or_zero balance))

  set_status : MerchantStatus → String → M (Unit {0})
  set_status status merchant_id = do
    m ← find_merchant_by_id env merchant_id
    _ ← update_merchant env (record m { status = status })
    pure tt

  unfoldable pub suspend : String → M (Unit {0})
  unfolding set_status
  suspend merchant_id = set_status MerchantStatus.suspended merchant_id

  unfoldable pub activate : String → M (Unit {0})
  unfolding set_status
  activate merchant_id = set_status MerchantStatus.active merchant_id

  unset_if : Bool → String → M (Unit {0})
  unset_if false merchant_id = pure tt
  unset_if true merchant_id = wrapped "unset primary" (unset_primary_bank_accounts env merchant_id)

  -- The body of the transaction.
  unfoldable pub insert_account : AddBankAccountInput → M MerchantBankAccount
  unfolding unset_if
  insert_account input = do
    count ← count_bank_accounts env input.merchant_id
    throw_if (leb max_bank_accounts count) (unprocessable_entity "maximum %d bank accounts allowed")
    unset_if input.set_as_primary input.merchant_id
    save_bank_account env (new_account input)

  unfoldable pub add_bank_account : AddBankAccountInput → M BankAccountOutput
  add_bank_account input = do
    a ← run_in_tx env (insert_account input)
    pure (to_bank_account_output a)

  unfoldable pub list_bank_accounts : String → M (List BankAccountOutput)
  list_bank_accounts merchant_id = do
    accounts ← find_bank_accounts_by_merchant_id env merchant_id
    pure (map to_bank_account_output accounts)

  unfoldable pub remove_bank_account : String → String → M (Unit {0})
  remove_bank_account merchant_id account_id = do
    a ← find_bank_account_by_id env account_id
    throw_if (not (a.merchant_id == merchant_id)) (not_found "bank account not found")
    throw_if a.is_primary
        (unprocessable_entity "cannot remove primary bank account — set another as primary first")
    delete_bank_account env account_id

  unfoldable pub set_primary_bank_account : String → String → M (Unit {0})
  set_primary_bank_account merchant_id account_id = do
    a ← find_bank_account_by_id env account_id
    throw_if (not (a.merchant_id == merchant_id)) (not_found "bank account not found")
    wrapped "unset primary" (unset_primary_bank_accounts env merchant_id)
    _ ← update_bank_account env (record a { is_primary = true })
    pure tt

  module _ (hash : String → String) where
    -- The raw key and its hash.
    generate_api_key : Bool → M (String × String)
    unfolding random
    generate_api_key is_production = do
      suffix ← random
      pure (
          let raw = append_text (if is_production then "wpay_live_" else "wpay_test_") suffix in
          (raw, hash raw))

    unfoldable pub create_merchant : CreateMerchantInput → M CreateMerchantOutput
    unfolding random generate_api_key check_email
    create_merchant input = do
      existing ← attempt (find_merchant_by_email env input.email)
      check_email existing
      (raw_key, hashed_key) ← generate_api_key input.is_production
      raw_secret ← random
      m ←
          wrapped "create merchant"
            (save_merchant env (new_merchant input hashed_key (hash raw_secret) raw_secret))
      pure (record {
        id = m.id;
        name = m.name;
        status = m.status;
        api_key = raw_key;
        webhook_secret = raw_secret;
        created_at = m.created_at;
      })

    unfoldable pub regenerate_api_key : String → M String
    unfolding generate_api_key
    regenerate_api_key merchant_id = do
      m ← find_merchant_by_id env merchant_id
      (raw_key, hashed_key) ← generate_api_key m.is_production
      _ ← wrapped "update api key" (update_merchant env (record m { api_key = hashed_key }))
      pure raw_key
