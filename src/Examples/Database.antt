-- ===== src/Examples/Database.antt =====
-- The ledger, the pages, the fees and what a merchant reads.
use wanpay.Base.{◌≤◌, pos, add64, wrap64, ◌+ℤ◌, List, [], ◌∷◌, ◌≡◌, refl, true, find, if◌then◌else◌}
use wanpay.Entity.Payment.{PaymentMethod}
use wanpay.Entity.Mutation.{Mutation, MutationReferenceType}
use wanpay.Db.Error.{ok}
use wanpay.Db.Monad.{query, statement}
use wanpay.Db.Mutations.{IsLedger, mutation_checks, occurrences}
use wanpay.Db.Fees.{active_on, get_margin, get_holiday_by_date}
use wanpay.Fee.{
  FeeSource, FeeResolution, compute_method_fee, is_zero_fee, margin_fee, merchant_fee, compose,
  resolve, resolve-parts, surcharge_of,
}
use wanpay.Payment.Types.{to_payment_output}
use wanpay.Payment.Read.{ListPaymentsInput, PaymentListOutput}
use wanpay.Ledger.{Honest, Incoming, Request, serve_all, occurrences-serve_all, Delivery}
use wanpay.Examples.Data.{open_payment, whole, env, shop, paid_payment, credit_row, margin, tables}
use wanpay.Examples.Ports.{start, paid_event, gateways, payers}

abbrev new_row : Mutation
new_row = record credit_row { id = ""; reference_id = "p1" }

ledger : IsLedger tables.mutations
unfolding mutation_checks
ledger = (refl, refl, tt)

abbrev resolution : FeeResolution
resolution = record {
  base_fee = pos 400;
  platform_margin = pos 100;
  holiday_surcharge = pos 0;
  total_fee = pos 500;
  source = FeeSource.merchant_contract;
  holiday_name = "";
}

resolved : (resolve whole env shop PaymentMethod.va (pos 10000) start).0 ≡ ok resolution
unfolding resolve merchant_fee is_zero_fee get_margin get_holiday_by_date query statement compose
    compute_method_fee margin_fee add64 wrap64 ◌+ℤ◌
resolved = refl

resolve-parts_example :
    (pos 500 ≡ add64 (add64 (pos 400) (pos 100)) (pos 0))
    × (pos 100 ≡ (
        if true
        then compute_method_fee whole (margin_fee whole margin PaymentMethod.va) (pos 10000)
        else pos 0))
    × (pos 0 ≡ surcharge_of whole env (find (active_on 7) tables.fee_holidays) (pos 10000))
resolve-parts_example =
    resolve-parts whole env shop PaymentMethod.va (pos 10000) margin resolution start refl
      (λ n. refl) resolved

abbrev list_input : ListPaymentsInput
list_input = record {
  merchant_id = "m1";
  status = "paid";
  provider = "";
  method = "";
  start_date = "";
  end_date = "";
  page = pos 1;
  limit = pos 20;
}

abbrev listed_page : PaymentListOutput
listed_page = record {
  items = to_payment_output paid_payment ∷ [];
  total = 1;
  page = pos 1;
  limit = pos 20;
}

-- Three deliveries of one event, and a callback.
abbrev requests : List Incoming
requests =
    (env, Request.webhook "xendit" [] "")
    ∷ (env, Request.webhook "xendit" [] "")
    ∷ (env, Request.callback "xendit" [] "")
    ∷ (env, Request.webhook "xendit" [] "")
    ∷ []

quiet : Honest env
quiet n d h = h

-- One event is delivered twice, with the copy that was read before.
abbrev delivery : Delivery
delivery = record {
  env = env;
  provider = "xendit";
  event = paid_event;
  seen = open_payment;
  merchant = shop;
}

two_requests :
    occurrences "p1" MutationReferenceType.payment
      (serve_all whole gateways payers requests start).db.mutations
    ≤ 1
two_requests =
    occurrences-serve_all whole gateways payers requests start "p1" MutationReferenceType.payment
      (quiet, (quiet, (quiet, (quiet, tt)))) ledger
