-- ===== src/Entity/Mutation.antt =====
-- internal/domain/entity/mutation.go: the ledger's records.
use wanpay.Base.{ℤ, String, sub64}
use wanpay.Entity.Fee.{Time}

pub data MutationType : Type 0 where
  cash_in cash_out : MutationType

pub data MutationReferenceType : Type 0 where
  payment disbursement : MutationReferenceType

pub record Mutation : Type 0 where
  pub id : String
  pub reference_id : String
  pub reference_type : MutationReferenceType
  pub merchant_id : String
  pub type : MutationType
  pub amount : ℤ
  pub fee_amount : ℤ
  pub currency : String
  pub description : String
  pub created_at : Time

net_amount_of : MutationType → Mutation → ℤ
net_amount_of MutationType.cash_in m = sub64 m.amount m.fee_amount
net_amount_of MutationType.cash_out m = m.amount

unfoldable pub net_amount : Mutation → ℤ
unfolding net_amount_of
net_amount m = net_amount_of m.type m
