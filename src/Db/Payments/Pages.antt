-- ===== src/Db/Payments/Pages.antt =====
-- What a merchant's filter selects.
use wanpay.Base.{true, false, List, ◌≡◌, ◌==◌, ==_iff, arith, select, All, All-select, All-trivial}
use wanpay.Entity.Payment.{Payment}
use wanpay.Db.Payments.Filter.{ListPaymentFilter, matches}

matches-owned :
    (f : ListPaymentFilter) (p : Payment)
    → (f.merchant_id == "") ≡ false
    → matches f p ≡ true
    → p.merchant_id ≡ f.merchant_id
unfolding matches
matches-owned f p h m = ground (arith, ==_iff p.merchant_id f.merchant_id)

-- Under a merchant's filter no row of another merchant matches.
pub select_matches-owned :
    (f : ListPaymentFilter) (rows : List Payment)
    → (f.merchant_id == "") ≡ false
    → All (λ p. p.merchant_id ≡ f.merchant_id) (select (matches f) rows)
select_matches-owned f rows h =
    All-select (λ p. Unit {0}) (λ p. p.merchant_id ≡ f.merchant_id) (matches f) rows
      (All-trivial rows) (λ p t m. matches-owned f p h m)
