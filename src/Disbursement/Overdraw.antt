-- ===== src/Disbursement/Overdraw.antt =====
-- A disbursement of the whole balance, from its reservation to the callback that completes it.
use wanpay.Base.{
  ℕ, suc, ℤ, pos, ◌+ℤ◌, ◌-ℤ◌, sym, subst, ◌<ℤ◌, Fits64, sub64, sub64-eq, int_laws, some, ◌≡◌, true,
  false, arith, any, any_of_find, find, ==_refl, ◌∙◌,
}
use wanpay.Entity.Merchant.{Merchant, MerchantBankAccount}
use wanpay.Entity.Disbursement.{Disbursement, DisbursementStatus}
use wanpay.Db.Error.{is_ok}
use wanpay.Db.Monad.{Env, World, statement, query}
use wanpay.Db.Merchants.{lock_merchant, has_merchant_id}
use wanpay.Db.Mutations.{balance, get_balance, get_merchant_balance, as_bigint}
use wanpay.Db.Disbursements.{
  pending_total, sum_pending_disbursements, save_disbursement, insert_disbursement,
  disbursement_checks, same_disbursement,
}
use wanpay.Disbursement.Types.{DisburseInput}
use wanpay.Disbursement.Disburse.{reservation, check_daily_limit, reserve, reserve-IsCovered}
use wanpay.Disbursement.Callback.{record_callback, record_callback-balance}

minus_zero : (a : ℤ) → a -ℤ pos 0 ≡ a
minus_zero a = omega int_laws

module _ (env : Env) (merchant : Merchant) (account : MerchantBankAccount) where
  -- The whole balance can be reserved, whatever the fee.
  reserve-whole :
      (input : DisburseInput) (fee : ℤ) (row : Merchant) (w : World)
      → find (has_merchant_id input.merchant_id) w.db.merchants ≡ some row
      → balance input.merchant_id w.db.mutations ≡ input.amount
      → pending_total input.merchant_id w.db.disbursements ≡ pos 0
      → Fits64 (input.amount)
      → merchant.daily_cashout_limit ≡ pos 0
      → disbursement_checks (reservation input account fee) ≡ true
      → any (same_disbursement input.provider "") w.db.disbursements ≡ false
      → ((n : ℕ) → env.statement_fails n ≡ false)
      → is_ok (reserve env merchant account input fee w).0 ≡ true
  unfolding reserve check_daily_limit lock_merchant get_balance get_merchant_balance
      sum_pending_disbursements save_disbursement insert_disbursement disbursement_checks
      reservation query statement as_bigint
  reserve-whole input fee row w found exact nothing fits unlimited checks free up =
      let n = w.clock in
      let available : sub64 input.amount (pos 0) ≡ input.amount =
        sub64-eq input.amount (pos 0) (subst Fits64 (sym (minus_zero input.amount)) fits)
        ∙ minus_zero input.amount in
      ground (
        arith,
        up n,
        up (suc n),
        up (suc (suc n)),
        up (suc (suc (suc n))),
        any_of_find (has_merchant_id input.merchant_id) w.db.merchants row found,
        available,
      )

  -- A merchant whose balance is just the amount of a disbursement can reserve it, whatever the fee;
  -- and once a callback has recorded the completion of a disbursement of this merchant, amount and
  -- fee, and no other request touched the ledger in between, the balance is negative, if the fee is
  -- positive. The premises of the reservation: nothing is in flight, there is no daily limit, the
  -- amount and its sum with the fee are int64 values, the merchant exists, no statement fails, and
  -- the row meets the constraints of its table.
  pub reserve-overdraws :
      (env' : Env) (input : DisburseInput) (fee : ℤ) (row merchant' : Merchant) (d : Disbursement)
      → (w w' : World) → find (has_merchant_id input.merchant_id) w.db.merchants ≡ some row
      → balance input.merchant_id w.db.mutations ≡ input.amount
      → pending_total input.merchant_id w.db.disbursements ≡ pos 0
      → Fits64 input.amount
      → Fits64 (input.amount +ℤ fee)
      → pos 0 <ℤ fee
      → merchant.daily_cashout_limit ≡ pos 0
      → disbursement_checks (reservation input account fee) ≡ true
      → any (same_disbursement input.provider "") w.db.disbursements ≡ false
      → ((n : ℕ) → env.statement_fails n ≡ false)
      → (d.merchant_id ≡ input.merchant_id) × (d.amount ≡ input.amount) × (d.fee_amount ≡ fee)
      → d.status ≡ DisbursementStatus.completed
      → (env'.others w'.clock w'.db).mutations
        ≡ (reserve env merchant account input fee w).1.db.mutations
      → is_ok (record_callback env' d merchant' w').0 ≡ true
      → (is_ok (reserve env merchant account input fee w).0 ≡ true)
        × (balance input.merchant_id (record_callback env' d merchant' w').1.db.mutations <ℤ pos 0)
  reserve-overdraws env' input fee row merchant' d w w' found exact nothing fits sum positive
        unlimited checks free up (owner, amount, cost) s quiet h =
      let reserved =
        reserve-whole input fee row w found exact nothing fits unlimited checks free up in
      let difference : Fits64 (
          balance input.merchant_id w.db.mutations
          -ℤ pending_total input.merchant_id w.db.disbursements) =
        rw (exact, nothing, minus_zero input.amount) fits in
      let (_, _, ledger) = reserve-IsCovered env merchant account input fee w difference reserved in
      let before : balance input.merchant_id (env'.others w'.clock w'.db).mutations ≡ input.amount =
        rw (quiet, ledger) exact in
      let fits' : Fits64 (d.amount +ℤ d.fee_amount) = rw (amount, cost) sum in
      let after = record_callback-balance env' d merchant' w' input.merchant_id s fits' h in
      (
        reserved,
        rw (after, owner, ==_refl input.merchant_id, before, amount, cost)
            (omega (int_laws, positive)),
      )
