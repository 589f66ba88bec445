-- ===== src/Payment/Read/Laws.antt =====
-- What a merchant reads of its payments.
use wanpay.Base.{
  ◌≤◌, String, Option, some, List, ◌≡◌, refl, false, arith, ◌==◌, ==_iff, find, length, All, select,
  map, [], ◌∷◌, ap, suc, Option-cases, inl, inr,
}
use wanpay.Entity.Fee.{Time}
use wanpay.Entity.Payment.{Payment}
use wanpay.Db.Error.{ok, Result-cases}
use wanpay.Db.Monad.{Env, World, query}
use wanpay.Db.Pages.{listed-All}
use wanpay.Db.Payments.{has_id, matches, find_by_id, list, select_matches-owned}
use wanpay.Payment.Types.{PaymentOutput, to_payment_output}
use wanpay.Payment.Read.Defs.{
  ListPaymentsInput, PaymentListOutput, payment_filter, list_payments, get_payment,
}

-- A merchant that reads a payment is its owner, and sees the stored row; nothing is written.
pub get_payment-owned :
    (env : Env) (merchant_id payment_id : String) (out : PaymentOutput) (w : World)
    → (get_payment env merchant_id payment_id w).0 ≡ ok out
    → ((p : Payment) × (find (has_id payment_id) w.db.payments ≡ some p)
        × (p.merchant_id ≡ merchant_id)
        × (out ≡ to_payment_output p))
      × ((get_payment env merchant_id payment_id w).1.db ≡ w.db)
unfolding get_payment find_by_id query
get_payment-owned env merchant_id payment_id out w h =
    elim (Option-cases (find (has_id payment_id) w.db.payments)) [
      | inl missing ↦ absurd (ground arith)
      | inr (p, e) ↦
          ((p, e, ground (arith, ==_iff p.merchant_id merchant_id), ground arith), ground arith)
    ]

length-map : (xs : List Payment) → length (map to_payment_output xs) ≡ length xs
length-map [] = refl
length-map (x ∷ xs) = ap suc (length-map xs)

module _ (parse_date : String → Option Time) (env : Env) where
  -- A merchant's list shows at most 100 payments, each of them its own, and counts all that match.
  pub list_payments-owned :
      (input : ListPaymentsInput) (out : PaymentListOutput) (w : World)
      → (input.merchant_id == "") ≡ false
      → (list_payments parse_date env input w).0 ≡ ok out
      → let f = payment_filter parse_date input in
        (length out.items ≤ 100)
        × (out.total ≡ length (select (matches f) w.db.payments))
        × ((rows : List Payment) × (out.items ≡ map to_payment_output rows)
            × All (λ p. p.merchant_id ≡ input.merchant_id) rows)
  unfolding list_payments list payment_filter
  list_payments-owned input out w own h =
      let f = payment_filter parse_date input in
      elim (Result-cases (list env f w).0) [
        | inr (x, e) ↦ absurd (ground arith)
        | inl ((rows, total), e) ↦
            let (counted, few, all) =
              listed-All env (λ p. p.created_at) (λ p. p.merchant_id ≡ input.merchant_id)
                "count payments" "list payments" f.page f.limit (λ d. select (matches f) d.payments)
                rows total w (select_matches-owned f w.db.payments own) e in
            (ground (arith, few, length-map rows), ground arith, (rows, ground arith, all))
      ]
