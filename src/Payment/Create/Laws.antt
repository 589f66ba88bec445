-- ===== src/Payment/Create/Laws.antt =====
-- What creating a payment does.
use wanpay.Base.{ℕ, suc, String, none, some, [], ◌∷◌, ◌++◌, ◌≡◌, true, false, arith, find}
use wanpay.Entity.Merchant.{Merchant, can_transact}
use wanpay.Entity.Payment.{Payment}
use wanpay.Db.Error.{Result, ok, err, forbidden}
use wanpay.Db.Monad.{Env, World, statement, query, run_in_tx}
use wanpay.Db.Payments.{save, insert_payment, payment_checks}
use wanpay.Db.Audits.{save_audit, insert_payment_audit, audit_row}
use wanpay.Db.Merchants.{find_merchant_by_id, live_with_id}
use wanpay.Payment.Types.{CreateVaInput, Gateways}
use wanpay.Payment.Create.Defs.{created_audit, save_payment_with_audit, create_va}

-- The row that `p` becomes.
abbrev pub inserted : Env → Payment → ℕ → Payment
inserted env p n = record p {
  id = env.uuid n;
  paid_at = none;
  failed_at = none;
  cancelled_at = none;
  created_at = env.now;
  updated_at = env.now;
}

module _ (env : Env) where
  -- What saving has done: the row and its audit record, or nothing.
  abbrev pub Saved : Payment → String → World → Result Payment × World → Type 0
  Saved p merchant_id w (ok row, w') =
      let d = env.others w.clock w.db in
      (row ≡ inserted env p (suc w.clock))
      × (payment_checks row ≡ true)
      × (w'.db ≡ record d {
        payments = d.payments ++ row ∷ [];
        audits = d.audits ++ audit_row env (created_audit row merchant_id) (suc (suc w.clock)) ∷ [];
      })
  Saved p merchant_id w (err _, w') = w'.db ≡ env.others w.clock w.db

  -- A new payment is stored together with its audit record, and with neither if anything fails.
  pub save_payment_with_audit-Saved :
      (p : Payment) (merchant_id : String) (w : World)
      → Saved p merchant_id w (save_payment_with_audit env p merchant_id w)
  unfolding save_payment_with_audit run_in_tx save save_audit statement insert_payment
      insert_payment_audit
  save_payment_with_audit-Saved p merchant_id w = ground arith

  module _ (gateways : Gateways) where
    -- A merchant that may not transact is refused before the provider is called, and nothing is
    -- written.
    pub create_va-forbidden :
        (input : CreateVaInput) (m : Merchant) (w : World)
        → find (live_with_id input.merchant_id) w.db.merchants ≡ some m
        → can_transact m ≡ false
        → env.statement_fails w.clock ≡ false
        → create_va env gateways input w ≡ (
          err (forbidden "merchant account is not active or webhook URL not set"),
          record w { clock = suc w.clock },
        )
    unfolding create_va find_merchant_by_id query
    create_va-forbidden input m w e c up = ground arith
