-- ===== src/Disbursement/Callback/Laws.antt =====
-- What a provider's callback does to the ledger.
use wanpay.Base.{suc, [], ◌∷◌, ◌++◌, ◌≡◌, false, arith, update, any}
use wanpay.Entity.Merchant.{Merchant}
use wanpay.Entity.Disbursement.{Disbursement, DisbursementStatus}
use wanpay.Entity.Mutation.{MutationReferenceType}
use wanpay.Db.Error.{Result, ok, err}
use wanpay.Db.Monad.{Env, World, statement, begun, run_in_tx}
use wanpay.Db.Mutations.{save_mutation, insert_mutation, mutation_row, refers_to}
use wanpay.Db.Disbursements.{
  update_disbursement, update_disbursement_status, disbursement_written, has_disbursement_id,
}
use wanpay.Db.Outbox.{insert_event, insert_outbox_event}
use wanpay.Disbursement.Callback.Defs.{
  cash_out, debit_if_completed, notify_merchant, record_callback,
}

module _ (env : Env) where
  notify_merchant-ok :
      (d : Disbursement) (merchant : Merchant) (w : World)
      → let d' = (notify_merchant env d merchant w).1.db in
        d' ≡ record (w.db) { outbox = d'.outbox }
  unfolding notify_merchant insert_event insert_outbox_event statement
  notify_merchant-ok d merchant w = ground arith

  -- What a callback that reports a completion has done, by how it ended: the debit of amount and fee
  -- stands in the ledger, or nothing has changed.
  abbrev pub Debited : Disbursement → World → Result (Unit {0}) × World → Type 0
  Debited d w (ok _, w') =
      let before = env.others w.clock w.db in
      (w'.db.mutations ≡ before.mutations ++ mutation_row env (cash_out d) (suc (suc w.clock)) ∷ [])
      × (w'.db.disbursements
          ≡ update (has_disbursement_id d.id) (disbursement_written env d) before.disbursements)
      × (any (refers_to d.id MutationReferenceType.disbursement) before.mutations ≡ false)
  Debited d w (err _, w') = w'.db ≡ env.others w.clock w.db

  -- A callback that reports a completion debits the merchant once, or changes nothing: a second one
  -- for the same disbursement fails on the ledger's unique reference.
  pub record_callback-Debited :
      (d : Disbursement) (merchant : Merchant) (w : World)
      → d.status ≡ DisbursementStatus.completed
      → Debited d w (record_callback env d merchant w)
  unfolding record_callback run_in_tx update_disbursement update_disbursement_status
      debit_if_completed save_mutation insert_mutation statement
  record_callback-Debited d merchant w s =
      let w₁ = (update_disbursement env d (begun env w)).1 in
      let w₂ = (debit_if_completed env d w₁).1 in ground (arith, notify_merchant-ok d merchant w₂)
