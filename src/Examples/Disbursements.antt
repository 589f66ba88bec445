-- ===== src/Examples/Disbursements.antt =====
-- Disbursements: reservations, answers and callbacks.
use wanpay.Base.{pos, [], add64, wrap64, sub64, ◌+ℤ◌, ◌-ℤ◌, ◌≤ℤ◌, ◌<ℤ◌, ◌≡◌, refl, true, arith}
use wanpay.Entity.Disbursement.{Disbursement, DisbursementStatus}
use wanpay.Db.Error.{is_ok}
use wanpay.Db.Monad.{World, statement, query, run_in_tx}
use wanpay.Db.Mutations.{
  balance, get_balance, get_merchant_balance, as_bigint, save_mutation, insert_mutation,
  mutation_checks,
}
use wanpay.Db.Merchants.{lock_merchant}
use wanpay.Db.Outbox.{insert_event, insert_outbox_event}
use wanpay.Db.Disbursements.{
  pending_total, today_total, sum_pending_disbursements, sum_disbursements_today, save_disbursement,
  insert_disbursement, update_disbursement, update_disbursement_status, disbursement_checks,
  is_bank_code,
}
use wanpay.Disbursement.Disburse.{reservation, reserve, reserve-IsCovered, reserve-daily_limit}
use wanpay.Disbursement.Callback.{
  record_callback, Debited, record_callback-Debited, debit_if_completed, notify_merchant,
}
use wanpay.Disbursement.Overdraw.{reserve-overdraws}
use wanpay.Disbursement.Types.{DisburseInput}
use wanpay.Entity.Merchant.{Merchant}
use wanpay.Examples.Data.{env, shop, account, sent_disbursement, tables}
use wanpay.Examples.Ports.{start, input}

reserved : is_ok (reserve env shop account input (pos 250) start).0 ≡ true
unfolding reserve lock_merchant get_balance get_merchant_balance as_bigint balance
    sum_pending_disbursements pending_total sum_disbursements_today today_total save_disbursement
    insert_disbursement disbursement_checks reservation query statement sub64 add64 wrap64 ◌+ℤ◌ ◌-ℤ◌
    is_bank_code
reserved = refl

reserve-IsCovered_example :
    let d' = (reserve env shop account input (pos 250) start).1.db in
    (pending_total "m1" d'.disbursements ≡ pending_total "m1" tables.disbursements +ℤ pos 5000)
    × (pending_total "m1" d'.disbursements ≤ℤ balance "m1" d'.mutations)
    × (d'.mutations ≡ tables.mutations)
unfolding balance pending_total ◌+ℤ◌ ◌-ℤ◌
reserve-IsCovered_example =
    reserve-IsCovered env shop account input (pos 250) start (ground arith) reserved

reserve-daily_limit_example : today_total env "m1" tables.disbursements +ℤ pos 5000 ≤ℤ pos 20000
unfolding today_total ◌+ℤ◌
reserve-daily_limit_example =
    reserve-daily_limit env shop account input (pos 250) start (ground arith) (ground arith)
      reserved

abbrev completed : Disbursement
completed = record sent_disbursement { status = DisbursementStatus.completed }

-- It pays out the whole balance.
abbrev emptying : Disbursement
emptying = record sent_disbursement { status = DisbursementStatus.completed; amount = pos 9500 }

recorded : is_ok (record_callback env completed shop start).0 ≡ true
unfolding record_callback run_in_tx update_disbursement update_disbursement_status
    debit_if_completed save_mutation insert_mutation mutation_checks notify_merchant insert_event
    insert_outbox_event statement add64 wrap64 ◌+ℤ◌
recorded = refl

record_callback-Debited_example :
    Debited env completed start (record_callback env completed shop start)
record_callback-Debited_example = record_callback-Debited env completed shop start refl

emptied : is_ok (record_callback env emptying shop start).0 ≡ true
unfolding record_callback run_in_tx update_disbursement update_disbursement_status
    debit_if_completed save_mutation insert_mutation mutation_checks notify_merchant insert_event
    insert_outbox_event statement add64 wrap64 ◌+ℤ◌
emptied = refl

-- No disbursement is in flight.
abbrev settled : World
settled = record { db = record tables { disbursements = [] }; clock = 0 }

abbrev whole_balance : DisburseInput
whole_balance = record input { amount = pos 9500 }

abbrev unlimited : Merchant
unlimited = record shop { daily_cashout_limit = pos 0 }

same_ledger :
    tables.mutations
    ≡ (reserve env unlimited account whole_balance emptying.fee_amount settled).1.db.mutations
unfolding reserve lock_merchant get_balance get_merchant_balance as_bigint balance
    sum_pending_disbursements pending_total save_disbursement insert_disbursement
    disbursement_checks reservation query statement sub64 wrap64 ◌+ℤ◌ ◌-ℤ◌ is_bank_code
same_ledger = refl

reserve-overdraws_example :
    (is_ok (reserve env unlimited account whole_balance emptying.fee_amount settled).0 ≡ true)
    × (balance "m1" (record_callback env emptying shop start).1.db.mutations <ℤ pos 0)
unfolding balance pending_total disbursement_checks reservation is_bank_code ◌+ℤ◌ ◌-ℤ◌
reserve-overdraws_example =
    reserve-overdraws env unlimited account env whole_balance emptying.fee_amount shop shop emptying
      settled start refl refl refl (ground arith) (ground arith) (ground arith) refl refl refl
      (λ n. refl) (refl, refl, refl) refl same_ledger emptied
