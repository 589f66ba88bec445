-- ===== src/Disbursement/Disburse/Laws.antt =====
-- What a reservation guarantees, and how it ends.
use wanpay.Base.{
  ℕ, suc, ℤ, pos, ◌+ℤ◌, ◌-ℤ◌, ◌≤ℤ◌, ◌<ℤ◌, Fits64, sub64, sub64-eq, add64-eq, int_laws, ltb_ℤ,
  String, none, some, [], ◌∷◌, ◌++◌, ◌≡◌, refl, ◌⊎◌, true, false, arith, ◌==◌, ==_refl, find,
  select, not, ◌&&◌, any-false,
}
use wanpay.Entity.Merchant.{Merchant, MerchantBankAccount, can_transact}
use wanpay.Entity.Disbursement.{Disbursement, DisbursementStatus}
use wanpay.Db.Error.{is_ok, err, Error}
use wanpay.Db.Monad.{Env, World, statement, query}
use wanpay.Db.Merchants.{
  lock_merchant, find_merchant_by_id, find_bank_account_by_id, live_with_id, has_account_id,
}
use wanpay.Db.Mutations.{balance, get_balance, get_merchant_balance}
use wanpay.Db.Disbursements.{
  pending_total, today_total, sum_pending_disbursements, sum_disbursements_today, save_disbursement,
  insert_disbursement, update_disbursement, update_disbursement_status, has_disbursement_id,
  pending_total-append, held_by, same_disbursement, select-update_final,
}
use wanpay.Fee.{FloatOps}
use wanpay.Disbursement.Types.{DisburseInput, DisbursementGateways}
use wanpay.Disbursement.Disburse.Defs.{reservation, check_daily_limit, reserve, conclude, disburse}

-- The row that a reservation makes.
abbrev pub reserved_row : Env → DisburseInput → MerchantBankAccount → ℤ → ℕ → Disbursement
reserved_row env input account fee n = record (reservation input account fee) {
  id = env.uuid n;
  failure_reason = "";
  completed_at = none;
  failed_at = none;
  created_at = env.now;
  updated_at = env.now;
}

module _ (env : Env) (merchant : Merchant) (account : MerchantBankAccount) where
  -- The world in which the row is inserted.
  inserting : DisburseInput → World → World
  unfolding check_daily_limit
  inserting input w = record {
    db = w.db;
    clock =
        (check_daily_limit env merchant input
          (record w { clock = suc (suc (suc w.clock)) })).1.clock;
  }

  reserve-ok :
      (input : DisburseInput) (fee : ℤ) (w : World)
      → is_ok (reserve env merchant account input fee w).0 ≡ true
      → let b = balance input.merchant_id w.db.mutations in
        let q = pending_total input.merchant_id w.db.disbursements in
        (ltb_ℤ (sub64 b q) input.amount ≡ false)
        × ((reserve env merchant account input fee w).1.db ≡ record (w.db) {
          disbursements =
              w.db.disbursements
              ++ reserved_row env input account fee (inserting input w).clock ∷ [];
        })
  unfolding reserve inserting lock_merchant get_balance get_merchant_balance
      sum_pending_disbursements sum_disbursements_today save_disbursement insert_disbursement query
      statement
  reserve-ok input fee w h = ground arith

  -- A reservation that succeeds keeps the merchant's open disbursements within its balance: what is
  -- held grows by the amount, is at most the balance, and the ledger is untouched. The premise says
  -- that the difference of balance and held funds is an int64.
  pub reserve-IsCovered :
      (input : DisburseInput) (fee : ℤ) (w : World)
      → Fits64 (
          balance input.merchant_id w.db.mutations
          -ℤ pending_total input.merchant_id w.db.disbursements)
      → is_ok (reserve env merchant account input fee w).0 ≡ true
      → let d' = (reserve env merchant account input fee w).1.db in
        (pending_total input.merchant_id d'.disbursements
          ≡ pending_total input.merchant_id w.db.disbursements +ℤ input.amount)
        × (pending_total input.merchant_id d'.disbursements
            ≤ℤ balance input.merchant_id d'.mutations)
        × (d'.mutations ≡ w.db.mutations)
  unfolding reservation
  reserve-IsCovered input fee w fits h =
      let b = balance input.merchant_id w.db.mutations in
      let q = pending_total input.merchant_id w.db.disbursements in
      let d' = (reserve env merchant account input fee w).1.db in
      let (enough, wrote) = reserve-ok input fee w h in
      let row = reserved_row env input account fee (inserting input w).clock in
      let grown : pending_total input.merchant_id d'.disbursements ≡ q +ℤ input.amount = rw wrote (
        ground (
          arith,
          pending_total-append input.merchant_id w.db.disbursements row,
          ==_refl input.merchant_id,
        )) in
      let same : d'.mutations ≡ w.db.mutations = ground (arith, wrote) in
      let room : input.amount ≤ℤ b -ℤ q = ground (arith, enough, sub64-eq b q fits) in
      (grown, rw (grown, same) (omega (int_laws, room)), same)

  -- A reservation that succeeds is within a daily limit that is positive: what the merchant has
  -- disbursed since the start of the day, with the new amount, is at most the limit. The premise says
  -- that this sum is an int64; the day starts where the environment's `day_start` has it.
  pub reserve-daily_limit :
      (input : DisburseInput) (fee : ℤ) (w : World)
      → pos 0 <ℤ merchant.daily_cashout_limit
      → Fits64 (today_total env input.merchant_id w.db.disbursements +ℤ input.amount)
      → is_ok (reserve env merchant account input fee w).0 ≡ true
      → today_total env input.merchant_id w.db.disbursements +ℤ input.amount
        ≤ℤ merchant.daily_cashout_limit
  unfolding reserve lock_merchant get_balance sum_pending_disbursements sum_disbursements_today
      query
  reserve-daily_limit input fee w limited fits h =
      ground
        (arith, add64-eq (today_total env input.merchant_id w.db.disbursements) input.amount fits)

module _ (env : Env) where
  -- Where the provider refuses, the caller gets an error; and if the update of the row does not fail
  -- the row is failed, and holds no funds any more.
  pub conclude-released :
      (d row : Disbursement) (e : Error) (w : World) (merchant_id : String)
      → find (has_disbursement_id d.id) w.db.disbursements ≡ some row
      → env.statement_fails w.clock ≡ false
      → (d.external_id == "") ≡ true
      → let (r, w') = conclude env d (err e) w in
        (is_ok r ≡ false)
        × (select (held_by d.id merchant_id) w'.db.disbursements ≡ [])
        × (w'.db.mutations ≡ w.db.mutations)
  unfolding conclude update_disbursement update_disbursement_status statement
  conclude-released d row e w merchant_id found up fresh =
      let x = record d { status = DisbursementStatus.failed; failure_reason = env.error_text e } in
      let free =
        any-false (λ y. not (y.id == x.id) && same_disbursement row.provider x.external_id y)
          w.db.disbursements (λ y. ground arith) in
      let gone = select-update_final env x merchant_id w.db.disbursements refl in
      ground (arith, free, gone)

module _ (env : Env) (ops : FloatOps) (gateways : DisbursementGateways) where
  -- No money leaves for a merchant that may not transact, nor to an account that is another
  -- merchant's or not verified: the request is refused and nothing is written.
  pub disburse-refused :
      (input : DisburseInput) (merchant : Merchant) (account : MerchantBankAccount) (w : World)
      → find (live_with_id input.merchant_id) w.db.merchants ≡ some merchant
      → find (has_account_id input.bank_account_id) w.db.bank_accounts ≡ some account
      → (can_transact merchant ≡ false)
        ⊎ (((account.merchant_id == input.merchant_id) ≡ false) ⊎ (account.is_verified ≡ false))
      → let (r, w') = disburse env ops gateways input w in (is_ok r ≡ false) × (w'.db ≡ w.db)
  unfolding disburse find_merchant_by_id find_bank_account_by_id query
  disburse-refused input merchant account w m a bad = ground arith
