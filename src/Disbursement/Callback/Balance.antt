-- ===== src/Disbursement/Callback/Balance.antt =====
-- Callbacks and the merchant's balance.
use wanpay.Base.{
  suc, pos, ◌+ℤ◌, ◌-ℤ◌, Fits64, add64-eq, String, some, List, ◌≡◌, ◌⊎◌, true, false, arith, ◌==◌,
  if◌then◌else◌, find,
}
use wanpay.Entity.Merchant.{Merchant}
use wanpay.Entity.Disbursement.{Disbursement, DisbursementStatus, is_final_disbursement}
use wanpay.Db.Error.{is_ok, ok}
use wanpay.Db.Monad.{Env, World, query, run_in_tx}
use wanpay.Db.Merchants.{find_merchant_by_id}
use wanpay.Db.Mutations.{balance, balance-append, mutation_row}
use wanpay.Db.Disbursements.{find_disbursement_by_external_id, same_external}
use wanpay.Disbursement.Types.{
  DisbursementGateways, DisbursementGateway, DisbursementWebhookEvent, disb_gateway,
}
use wanpay.Disbursement.Callback.Defs.{cash_out, record_callback, handle_disbursement_callback}
use wanpay.Disbursement.Callback.Laws.{record_callback-Debited}

module _ (env : Env) where
  -- A completion that is recorded lowers the balance of the disbursement's merchant by the amount
  -- plus the fee, and leaves every other balance alone. The premise says that the sum is an int64.
  pub record_callback-balance :
      (d : Disbursement) (merchant : Merchant) (w : World) (merchant_id : String)
      → d.status ≡ DisbursementStatus.completed
      → Fits64 (d.amount +ℤ d.fee_amount)
      → is_ok (record_callback env d merchant w).0 ≡ true
      → let before = balance merchant_id (env.others w.clock w.db).mutations in
        balance merchant_id (record_callback env d merchant w).1.db.mutations ≡ (
          if d.merchant_id == merchant_id
          then before +ℤ (pos 0 -ℤ (d.amount +ℤ d.fee_amount))
          else before)
  record_callback-balance d merchant w merchant_id s fits h =
      let before = (env.others w.clock w.db).mutations in
      let row = mutation_row env (cash_out d) (suc (suc w.clock)) in
      let debited = record_callback-Debited env d merchant w s in
      let grown = balance-append merchant_id before row in
      let sum = add64-eq d.amount d.fee_amount fits in ground (arith, debited, grown, sum)

  record_callback-atomic :
      (d : Disbursement) (merchant : Merchant) (w : World)
      → is_ok (record_callback env d merchant w).0 ≡ false
      → (record_callback env d merchant w).1.db ≡ env.others w.clock w.db
  unfolding record_callback run_in_tx
  record_callback-atomic d merchant w h = ground arith

  -- A callback that returns an error has written nothing: the database is as it was, or as other
  -- requests had left it when the transaction began.
  pub handle_disbursement_callback-atomic :
      (gateways : DisbursementGateways) (provider : String) (headers : List (String × String))
      → (body : String) (w : World)
      → is_ok (handle_disbursement_callback env gateways provider headers body w).0 ≡ false
      → let d' = (handle_disbursement_callback env gateways provider headers body w).1.db in
        (d' ≡ w.db) ⊎ (d' ≡ env.others (suc (suc w.clock)) w.db)
  unfolding handle_disbursement_callback disb_gateway find_disbursement_by_external_id
      find_merchant_by_id query
  handle_disbursement_callback-atomic gateways provider headers body w h =
      grind (arith, record_callback-atomic)

  -- A callback for a disbursement that is completed or failed already changes nothing.
  pub handle_disbursement_callback-final :
      (gateways : DisbursementGateways) (gw : DisbursementGateway)
      (event : DisbursementWebhookEvent)
      → (provider : String) (headers : List (String × String)) (body : String) (d : Disbursement)
      → (w : World) → gateways provider ≡ some gw
      → gw.parse_disbursement_webhook headers body ≡ ok event
      → find (same_external provider event.external_id) w.db.disbursements ≡ some d
      → is_final_disbursement d ≡ true
      → (handle_disbursement_callback env gateways provider headers body w).1.db ≡ w.db
  unfolding handle_disbursement_callback disb_gateway find_disbursement_by_external_id query
  handle_disbursement_callback-final gateways gw event provider headers body d w on parsed found
        final =
      ground arith
