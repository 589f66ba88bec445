-- ===== src/Merchant/Limits.antt =====
-- How many bank accounts a merchant has.
use wanpay.Base.{
  true, false, String, List, ◌≡◌, ◌⊎◌, update, arith, if◌then◌else◌, ℕ, length, select,
}
use wanpay.Entity.Merchant.{MerchantBankAccount}
use wanpay.Db.Error.{Result, is_ok}
use wanpay.Db.Monad.{Env, World, statement, run_in_tx, begun, M, pure, ◌>>=◌}
use wanpay.Db.Tables.{Db}
use wanpay.Db.Accounts.{account_of, counted, count_bank_accounts, is_primary_of, not_primary}
use wanpay.Merchant.Types.{AddBankAccountInput}
use wanpay.Merchant.Defs.{insert_account, add_bank_account}

-- A transaction whose result is then put into the answer.
module _ {A B : Type 0} (env : Env) (m : M A) (f : A → B) (w : World) where
  abbrev answered : Result B × World
  answered = (run_in_tx env m >>= λ a. pure (f a)) w

  -- How the answer ends, by how the transaction did.
  Ends : Result B × World → Type 0
  Ends r =
      ((is_ok r.0 ≡ true) × (is_ok (m (begun env w)).0 ≡ true) × (r.1.db ≡ (m (begun env w)).1.db))
      ⊎ ((is_ok r.0 ≡ false) × (r.1.db ≡ env.others w.clock w.db))

-- How many accounts a merchant has.
abbrev pub accounts_of : String → Db → ℕ
accounts_of merchant_id d = length (select (account_of merchant_id) d.bank_accounts)

module _ (env : Env) where
  -- The accounts before the new one is inserted.
  unset_accounts : AddBankAccountInput → World → List MerchantBankAccount
  unset_accounts input w =
      let unset = update (is_primary_of input.merchant_id) (not_primary env) w.db.bank_accounts in
      if input.set_as_primary then unset else w.db.bank_accounts

  -- Where the server refuses to lock a count, adding a bank account never succeeds.
  add_bank_account_refused :
      (input : AddBankAccountInput) (w : World)
      → env.locks_counts ≡ false
      → is_ok (add_bank_account env input w).0 ≡ false
  unfolding add_bank_account insert_account count_bank_accounts counted statement run_in_tx
  add_bank_account_refused input w unlocked = ground (arith, unlocked)
