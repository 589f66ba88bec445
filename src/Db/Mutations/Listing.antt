-- ===== src/Db/Mutations/Listing.antt =====
-- internal/infrastructure/database/postgres/mutation_repo.go, List.
use wanpay.Base.{
  ℕ, leb, ℤ, Bool, true, false, ◌&&◌, String, Option, List, ◌≡◌, ◌==◌, ==_iff, arith, select, All,
  All-select, All-trivial, if◌then◌else◌,
}
use wanpay.Entity.Fee.{Time}
use wanpay.Entity.Mutation.{Mutation, MutationType}
use wanpay.Db.Pages.{optional, listed}
use wanpay.Db.Monad.{Env, M}

-- `string(m.Type)`
unfoldable pub mutation_type_text : MutationType → String
mutation_type_text MutationType.cash_in = "cash_in"
mutation_type_text MutationType.cash_out = "cash_out"

pub record ListMutationFilter : Type 0 where
  pub merchant_id : String
  pub type : Option String
  pub start_date : Option Time
  pub end_date : Option Time
  pub page : ℤ
  pub limit : ℤ

unfoldable pub matches_mutation : ListMutationFilter → Mutation → Bool
unfolding mutation_type_text
matches_mutation f m =
    (if f.merchant_id == "" then true else m.merchant_id == f.merchant_id)
    && optional (λ s. mutation_type_text m.type == s) f.type
    && optional (λ t. leb t m.created_at) f.start_date
    && optional (λ t. leb m.created_at t) f.end_date

unfoldable pub list_mutation_rows : Env → ListMutationFilter → M (List Mutation × ℕ)
list_mutation_rows env f =
    listed env (λ m. m.created_at) "count mutations" "list mutations" f.page f.limit
      (λ d. select (matches_mutation f) d.mutations)

owned :
    (f : ListMutationFilter) (m : Mutation)
    → (f.merchant_id == "") ≡ false
    → matches_mutation f m ≡ true
    → m.merchant_id ≡ f.merchant_id
unfolding matches_mutation
owned f m h e = ground (arith, ==_iff m.merchant_id f.merchant_id)

-- Under a merchant's filter no row of another merchant matches.
pub select_mutations-owned :
    (f : ListMutationFilter) (rows : List Mutation)
    → (f.merchant_id == "") ≡ false
    → All (λ m. m.merchant_id ≡ f.merchant_id) (select (matches_mutation f) rows)
select_mutations-owned f rows h =
    All-select (λ m. Unit {0}) (λ m. m.merchant_id ≡ f.merchant_id) (matches_mutation f) rows
      (All-trivial rows) (λ m t e. owned f m h e)
