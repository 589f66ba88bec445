-- ===== src/Ledger/Deliveries.antt =====
-- The deliveries of one payment's webhooks, each of which meets the transaction of HandleWebhook with
-- its own copy of the payment.
use wanpay.Base.{String, List, [], ◌∷◌, ◌++◌, ◌≡◌, find}
use wanpay.Entity.Merchant.{Merchant}
use wanpay.Entity.Payment.{Payment}
use wanpay.Entity.Mutation.{Mutation, MutationType}
use wanpay.Db.Tables.{Db}
use wanpay.Db.Monad.{Env, World}
use wanpay.Db.Payments.{has_id}
use wanpay.Fee.{FloatOps}
use wanpay.Payment.Types.{WebhookEvent}
use wanpay.Payment.Webhook.{cash_in, process_event}

-- A webhook as its transaction gets it.
pub record Delivery : Type 0 where
  pub env : Env
  pub provider : String
  pub event : WebhookEvent
  pub seen : Payment
  pub merchant : Merchant

-- The copy is one of the payment, and no other request touches the payment's row or the ledger before
-- the transaction.
abbrev pub IsOf : Payment → Delivery → Type 0
IsOf p x =
    (x.seen.id ≡ p.id)
    × (x.seen.merchant_id ≡ p.merchant_id)
    × (x.seen.amount ≡ p.amount)
    × ((w : World)
        → ((x.env.others w.clock w.db).mutations ≡ w.db.mutations)
          × (find (has_id p.id) (x.env.others w.clock w.db).payments
              ≡ find (has_id p.id) w.db.payments))

-- The ledger after a credit of the payment: one entry more, with the payment's whole amount.
abbrev pub CreditedOnce : Payment → List Mutation → List Mutation → Type 0
CreditedOnce p before after =
    (row : Mutation) × (after ≡ before ++ row ∷ [])
    × (row.type ≡ MutationType.cash_in)
    × (row.merchant_id ≡ p.merchant_id)
    × (row.amount ≡ p.amount)

module _ (ops : FloatOps) where
  unfoldable pub receive : Delivery → World → World
  receive x w = (process_event ops x.env x.provider x.event x.seen x.merchant w).1

  unfoldable pub receive_all : List Delivery → World → World
  receive_all [] w = w
  receive_all (x ∷ xs) w = receive_all xs (receive x w)
