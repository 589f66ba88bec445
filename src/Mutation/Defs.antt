-- ===== src/Mutation/Defs.antt =====
-- internal/usecase/mutation.go and internal/usecase/impl/mutation.go.
use wanpay.Base.{ℕ, ℤ, pos, leb_ℤ, not, String, Option, List, map, ◌==◌, if◌then◌else◌}
use wanpay.Entity.Fee.{Time}
use wanpay.Entity.Mutation.{Mutation, MutationType, MutationReferenceType, net_amount}
use wanpay.Db.Error.{bad_request, not_found}
use wanpay.Db.Monad.{Env, M, ◌>>=◌, ◌>>◌, pure, throw_if, wrapped}
use wanpay.Db.Mutations.{ListMutationFilter, list_mutation_rows, find_mutation_by_id, get_balance}

pub record ListMutationsInput : Type 0 where
  pub merchant_id : String
  pub type : Option String
  pub start_date : Option Time
  pub end_date : Option Time
  pub page : ℤ
  pub limit : ℤ

pub record MutationOutput : Type 0 where
  pub id : String
  pub reference_id : String
  pub reference_type : MutationReferenceType
  pub type : MutationType
  pub amount : ℤ
  pub fee_amount : ℤ
  pub net_amount : ℤ
  pub currency : String
  pub description : String
  pub created_at : Time

pub record MutationListOutput : Type 0 where
  pub items : List MutationOutput
  pub total : ℕ
  pub page : ℤ
  pub limit : ℤ

unfoldable pub to_mutation_output : Mutation → MutationOutput
to_mutation_output m = record {
  id = m.id;
  reference_id = m.reference_id;
  reference_type = m.reference_type;
  type = m.type;
  amount = m.amount;
  fee_amount = m.fee_amount;
  net_amount = net_amount m;
  currency = m.currency;
  description = m.description;
  created_at = m.created_at;
}

abbrev pub mutation_filter : ListMutationsInput → ListMutationFilter
mutation_filter input = record {
  merchant_id = input.merchant_id;
  type = input.type;
  start_date = input.start_date;
  end_date = input.end_date;
  page = input.page;
  limit = input.limit;
}

module _ (env : Env) where
  unfoldable pub read_balance : String → M ℤ
  read_balance merchant_id = get_balance env merchant_id

  unfoldable pub get_mutation : String → String → M MutationOutput
  get_mutation merchant_id mutation_id = do
    m ← find_mutation_by_id env mutation_id
    throw_if (not (m.merchant_id == merchant_id)) (not_found "mutation %s not found")
    pure (to_mutation_output m)

  -- The page's size that is answered has no upper bound, unlike the size that is read.
  unfoldable pub list_mutations : ListMutationsInput → M MutationListOutput
  list_mutations input = do
    throw_if (input.merchant_id == "") (bad_request "merchant_id is required")
    (mutations, total) ← wrapped "list mutations" (list_mutation_rows env (mutation_filter input))
    pure (record {
      items = map to_mutation_output mutations;
      total = total;
      page = if leb_ℤ input.page (pos 0) then pos 1 else input.page;
      limit = if leb_ℤ input.limit (pos 0) then pos 20 else input.limit;
    })
