-- ===== src/Examples/Payments.antt =====
-- Payments: creation, cancellation and webhooks.
use wanpay.Base.{
  ℤ, pos, add64, wrap64, ◌+ℤ◌, ◌-ℤ◌, ◌≤ℤ◌, some, [], ◌∷◌, ◌≡◌, refl, ◌⊎◌, true, false, arith, ◌==◌,
  find, update, if◌then◌else◌,
}
use wanpay.Entity.Payment.{Payment, PaymentStatus, is_final, metadata_string, is_paid_status}
use wanpay.Entity.Audit.{PaymentAudit, AuditEventType}
use wanpay.Db.Error.{ok, is_ok}
use wanpay.Db.Monad.{World, statement, query, run_in_tx}
use wanpay.Db.Payments.{
  has_id, written, find_by_id_for_update, update_payment, update_payment_status, payment_checks,
}
use wanpay.Db.Audits.{save_audit, insert_payment_audit}
use wanpay.Db.Fees.{get_margin, get_holiday_by_date}
use wanpay.Db.Mutations.{balance, save_mutation, insert_mutation, mutation_checks}
use wanpay.Db.Outbox.{insert_event, insert_outbox_event}
use wanpay.Fee.{FeeSource, margin_fee, resolve, merchant_fee, compose}
use wanpay.Payment.Types.{gateway}
use wanpay.Payment.Create.{Saved, save_payment_with_audit, save_payment_with_audit-Saved}
use wanpay.Payment.Cancel.{
  Settled, Tells, TellsAnswer, cancel_payment, cancel_payment-settles, settle_cancel,
  settle_cancel-overwrites_paid, cancel_payment-stuck,
}
use wanpay.Payment.Webhook.{
  apply_event, callback_url, credit_if_paid, notify, record_event, process_event, handle_webhook,
  PaidOutcome, process_event-PaidOutcome, process_event_twice, process_event-balance,
  handle_webhook-atomic, process_event-over_fee,
}
use wanpay.Examples.Data.{
  whole, env, shop, open_payment, paid_payment, orphan_payment, small_payment, tables,
}
use wanpay.Examples.Ports.{start, paid_event, xendit, gateways}

processed : is_ok (process_event whole env "xendit" paid_event open_payment shop start).0 ≡ true
unfolding process_event run_in_tx find_by_id_for_update query record_event update_payment
    update_payment_status save_audit insert_payment_audit statement credit_if_paid save_mutation
    insert_mutation notify insert_event insert_outbox_event callback_url resolve apply_event
    payment_checks mutation_checks is_final merchant_fee get_margin compose add64 wrap64 ◌+ℤ◌
    margin_fee get_holiday_by_date metadata_string
processed = refl

process_event-PaidOutcome_example :
    PaidOutcome env open_payment paid_event tables
      (process_event whole env "xendit" paid_event open_payment shop start).1.db
process_event-PaidOutcome_example =
    process_event-PaidOutcome whole env "xendit" paid_event open_payment shop start refl processed

abbrev after_paid : World
after_paid = record {
  db = (process_event whole env "xendit" paid_event open_payment shop start).1.db;
  clock = 20;
}

process_event_twice_example :
    (process_event whole env "xendit" paid_event open_payment shop after_paid).1.db
    ≡ (process_event whole env "xendit" paid_event open_payment shop start).1.db
process_event_twice_example =
    process_event_twice whole env env "xendit" "xendit" paid_event paid_event open_payment shop shop
      start after_paid refl processed refl

process_event-balance_example :
    (fee : ℤ) × (pos 0 ≤ℤ fee)
    × (fee ≤ℤ pos 10000)
    × (balance "m1"
          (process_event whole env "xendit" paid_event open_payment shop start).1.db.mutations
        ≡ (if "m1" == "m1"
            then balance "m1" tables.mutations +ℤ (pos 10000 -ℤ fee)
            else balance "m1" tables.mutations))
unfolding is_final
process_event-balance_example =
    process_event-balance whole env "xendit" paid_event open_payment open_payment shop start "m1"
      refl refl refl processed

-- The provider is not enabled.
handle_webhook-atomic_example :
    ((handle_webhook whole env gateways "doku" [] "" start).1.db ≡ tables)
    ⊎ ((handle_webhook whole env gateways "doku" [] "" start).1.db ≡ tables)
unfolding handle_webhook gateway
handle_webhook-atomic_example = handle_webhook-atomic whole env gateways "doku" [] "" start refl

process_event-over_fee_example :
    (is_ok (process_event whole env "xendit" paid_event small_payment shop start).0 ≡ false)
    × ((process_event whole env "xendit" paid_event small_payment shop start).1.db ≡ tables)
unfolding is_final resolve merchant_fee get_margin query statement compose margin_fee add64
    get_holiday_by_date wrap64 ◌+ℤ◌
process_event-over_fee_example =
    process_event-over_fee whole env "xendit" paid_event small_payment small_payment shop
      (record {
        base_fee = pos 400;
        platform_margin = pos 100;
        holiday_surcharge = pos 0;
        total_fee = pos 500;
        source = FeeSource.merchant_contract;
        holiday_name = "";
      })
      start refl refl refl refl (omega arith)

save_payment_with_audit-Saved_example :
    Saved env open_payment "m1" start (save_payment_with_audit env open_payment "m1" start)
save_payment_with_audit-Saved_example = save_payment_with_audit-Saved env open_payment "m1" start

cancel_payment-settles_example :
    let (r, w') = cancel_payment env gateways "m1" "p1" start in
    (r ≡ ok tt)
    × ((row : Payment) × (find (has_id "p1") w'.db.payments ≡ some row) × Settled env (ok tt) row)
    × ((a b : PaymentAudit) × (w'.db.audits ≡ a ∷ b ∷ [])
        × Tells a "p1" AuditEventType.status_changed PaymentStatus.pending PaymentStatus.cancelling
            "merchant:m1"
        × TellsAnswer b "p1" "m1" (ok tt))
    × (w'.db.mutations ≡ tables.mutations)
unfolding payment_checks
cancel_payment-settles_example =
    cancel_payment-settles env gateways (λ n d. refl) "m1" open_payment xendit (ok tt) start refl
      refl refl refl refl (λ id w. refl) (λ w. refl) (λ n. refl)

cancel_payment-stuck_example :
    let (r, w') = cancel_payment env gateways "m1" "p4" start in
    (is_ok r ≡ false)
    × (w'.db.payments
        ≡ update
            (has_id "p4")
            (written env (record orphan_payment { status = PaymentStatus.cancelling }))
            tables.payments)
unfolding payment_checks
cancel_payment-stuck_example =
    cancel_payment-stuck env gateways (λ n d. refl) "m1" orphan_payment start refl refl refl refl
      refl (λ n. refl)

settle_cancel-overwrites_paid_example :
    let (r, w') = settle_cancel env paid_payment "m1" (ok tt) start in
    (r ≡ ok tt)
    × ((q : Payment) × (find (has_id "p3") w'.db.payments ≡ some q)
        × (is_paid_status q.status ≡ false))
    × (w'.db.mutations ≡ tables.mutations)
unfolding payment_checks
settle_cancel-overwrites_paid_example =
    settle_cancel-overwrites_paid env gateways (λ n d. refl) paid_payment paid_payment "m1" (ok tt)
      start refl refl refl (λ n. refl)
