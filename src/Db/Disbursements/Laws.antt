-- ===== src/Db/Disbursements/Laws.antt =====
-- The funds that a merchant's open disbursements hold.
use wanpay.Base.{
  ◌+ℤ◌, ◌≡◌, refl, Bool, false, ◌&&◌, String, List, [], ◌∷◌, ◌++◌, if◌then◌else◌, arith, select,
  update,
}
use wanpay.Entity.Disbursement.{Disbursement}
use wanpay.Db.Tables.{sum_by-append_one}
use wanpay.Db.Monad.{Env}
use wanpay.Db.Disbursements.Defs.{
  in_flight, is_in_flight, amount_of, pending_total, has_disbursement_id, disbursement_written,
}

-- A new row holds its amount if it is open and its merchant's.
pub pending_total-append :
    (merchant_id : String) (ds : List Disbursement) (d : Disbursement)
    → pending_total merchant_id (ds ++ d ∷ []) ≡ (
        if in_flight merchant_id d
        then pending_total merchant_id ds +ℤ d.amount
        else pending_total merchant_id ds)
unfolding pending_total
pending_total-append merchant_id ds d = sum_by-append_one (in_flight merchant_id) amount_of ds d

-- The rows with an id that hold funds of a merchant.
abbrev pub held_by : String → String → Disbursement → Bool
held_by id merchant_id d = has_disbursement_id id d && in_flight merchant_id d

-- A row that is written with a final status holds nothing any more.
pub select-update_final :
    (env : Env) (x : Disbursement) (merchant_id : String) (ds : List Disbursement)
    → is_in_flight x.status ≡ false
    → select
        (held_by x.id merchant_id)
        (update (has_disbursement_id x.id) (disbursement_written env x) ds)
      ≡ []
select-update_final env x merchant_id [] h = refl
select-update_final env x merchant_id (d ∷ ds) h =
    ground (arith, select-update_final env x merchant_id ds)
