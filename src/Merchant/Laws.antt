-- ===== src/Merchant/Laws.antt =====
-- Bank accounts: one primary account, and whose account it is.
use wanpay.Base.{
  suc, true, false, not, ◌&&◌, String, some, List, [], ◌∷◌, ◌≡◌, ◌⊎◌, inl, inr, ◌==◌, ==_iff,
  ==_refl, find, find_sound, update, All, arith, Option-cases, ==→≡, subst,
}
use wanpay.Entity.Merchant.{MerchantBankAccount}
use wanpay.Db.Error.{is_ok}
use wanpay.Db.Monad.{Env, World, statement, query}
use wanpay.Db.Merchants.{find_bank_account_by_id, has_account_id}
use wanpay.Db.Accounts.{
  unset_primary_bank_accounts, update_bank_account, update_bank_account_row, is_primary_of,
  not_primary, account_written,
}
use wanpay.Merchant.Defs.{remove_bank_account, set_primary_bank_account}

none_primary :
    (env : Env) (merchant_id : String) (xs : List MerchantBankAccount)
    → All
        (λ a. is_primary_of merchant_id a ≡ false)
        (update (is_primary_of merchant_id) (not_primary env) xs)
none_primary env merchant_id [] = tt
none_primary env merchant_id (a ∷ xs) = (ground arith, none_primary env merchant_id xs)

-- No primary account of the merchant but one id.
abbrev pub OnlyPrimary : String → String → List MerchantBankAccount → Type 0
OnlyPrimary merchant_id account_id xs =
    All (λ x. (is_primary_of merchant_id x && not (x.id == account_id)) ≡ false) xs

one_primary :
    (env : Env) (merchant_id : String) (a : MerchantBankAccount) (xs : List MerchantBankAccount)
    → OnlyPrimary merchant_id a.id (
        update
          (has_account_id a.id)
          (account_written env a)
          (update (is_primary_of merchant_id) (not_primary env) xs))
one_primary env merchant_id a [] = tt
one_primary env merchant_id a (x ∷ xs) =
    (ground (arith, ==_refl a.id), one_primary env merchant_id a xs)

module _ (env : Env) where
  -- When an account has been made the primary one, it belongs to the merchant, and no other account
  -- of the merchant is primary.
  pub set_primary_bank_account_lem :
      (merchant_id account_id : String) (w : World)
      → is_ok (set_primary_bank_account env merchant_id account_id w).0 ≡ true
      → let d' = (set_primary_bank_account env merchant_id account_id w).1.db in
        ((a : MerchantBankAccount) × (find (has_account_id account_id) w.db.bank_accounts ≡ some a)
          × (a.merchant_id ≡ merchant_id))
        × OnlyPrimary merchant_id account_id d'.bank_accounts
  unfolding set_primary_bank_account find_bank_account_by_id unset_primary_bank_accounts
      update_bank_account update_bank_account_row statement query
  set_primary_bank_account_lem merchant_id account_id w h =
      elim (Option-cases (find (has_account_id account_id) w.db.bank_accounts)) [
        | inl missing ↦ absurd (ground arith)
        | inr (a, e) ↦
            let own = find_sound (has_account_id account_id) w.db.bank_accounts a e in
            let same = ==→≡ a.id account_id own in
            let only =
              subst
                (λ id. OnlyPrimary merchant_id id (
                  update (has_account_id a.id)
                    (account_written env (record a { is_primary = true }))
                    (update (is_primary_of merchant_id) (not_primary env) w.db.bank_accounts)))
                same
                (one_primary env merchant_id (record a { is_primary = true }) w.db.bank_accounts) in
            ((a, e, ground (arith, ==_iff a.merchant_id merchant_id)), ground (arith, e, only))
      ]

  -- The two statements are no transaction: where the second one fails, the merchant is left with no
  -- primary account at all.
  pub set_primary_bank_account-loses_primary :
      (merchant_id : String) (a : MerchantBankAccount) (w : World)
      → find (has_account_id a.id) w.db.bank_accounts ≡ some a
      → a.merchant_id ≡ merchant_id
      → env.statement_fails w.clock ≡ false
      → env.statement_fails (suc w.clock) ≡ false
      → env.statement_fails (suc (suc w.clock)) ≡ true
      → let (r, w') = set_primary_bank_account env merchant_id a.id w in
        (is_ok r ≡ false) × All (λ x. is_primary_of merchant_id x ≡ false) w'.db.bank_accounts
  unfolding set_primary_bank_account find_bank_account_by_id unset_primary_bank_accounts
      update_bank_account statement query
  set_primary_bank_account-loses_primary merchant_id a w e own up up₁ down =
      ground
        (arith, ==_iff a.merchant_id merchant_id, none_primary env merchant_id w.db.bank_accounts)

  -- A merchant removes no account of another merchant, and not its primary one: the request is
  -- refused and nothing is written.
  pub remove_bank_account-refused :
      (merchant_id : String) (a : MerchantBankAccount) (account_id : String) (w : World)
      → find (has_account_id account_id) w.db.bank_accounts ≡ some a
      → ((a.merchant_id == merchant_id) ≡ false) ⊎ (a.is_primary ≡ true)
      → let (r, w') = remove_bank_account env merchant_id account_id w in
        (is_ok r ≡ false) × (w'.db ≡ w.db)
  unfolding remove_bank_account find_bank_account_by_id query
  remove_bank_account-refused merchant_id a account_id w e bad = ground arith
