-- ===== src/Mutation/Laws.antt =====
-- A merchant reads its own ledger, and nothing else.
use wanpay.Base.{
  ◌≤◌, pos, ltb_ℤ, true, false, List, ◌≡◌, refl, arith, map, length, select, All, ◌==◌, Bool-cases,
  inl, inr, [], ◌∷◌, ap, suc,
}
use wanpay.Entity.Mutation.{Mutation}
use wanpay.Db.Error.{ok, Result-cases}
use wanpay.Db.Monad.{Env, World}
use wanpay.Db.Pages.{listed-All}
use wanpay.Db.Mutations.{matches_mutation, list_mutation_rows, select_mutations-owned}
use wanpay.Mutation.Defs.{
  ListMutationsInput, MutationListOutput, to_mutation_output, mutation_filter, list_mutations,
}

length-map : (xs : List Mutation) → length (map to_mutation_output xs) ≡ length xs
length-map [] = refl
length-map (x ∷ xs) = ap suc (length-map xs)

module _ (env : Env) where
  -- A list of the ledger was asked for by a named merchant: it shows at most 100 rows, all of them
  -- the merchant's, and counts every row that matches.
  pub list_mutations-owned :
      (input : ListMutationsInput) (out : MutationListOutput) (w : World)
      → (list_mutations env input w).0 ≡ ok out
      → ((input.merchant_id == "") ≡ false)
        × (length out.items ≤ 100)
        × (out.total ≡ length (select (matches_mutation (mutation_filter input)) w.db.mutations))
        × ((rows : List Mutation) × (out.items ≡ map to_mutation_output rows)
            × All (λ m. m.merchant_id ≡ input.merchant_id) rows)
  unfolding list_mutations list_mutation_rows
  list_mutations-owned input out w h =
      let f = mutation_filter input in
      elim (Bool-cases (input.merchant_id == "")) [
        | inl unnamed ↦ absurd (ground arith)
        | inr named ↦ elim (Result-cases (list_mutation_rows env f w).0) [
          | inr (x, e) ↦ absurd (ground arith)
          | inl ((rows, total), e) ↦
              let (counted, few, all) =
                listed-All env (λ m. m.created_at) (λ m. m.merchant_id ≡ input.merchant_id)
                  "count mutations" "list mutations" f.page f.limit
                  (λ d. select (matches_mutation f) d.mutations) rows total w
                  (select_mutations-owned f w.db.mutations named) e in
              (named, ground (arith, few, length-map rows), ground arith, (rows, ground arith, all))
        ]
      ]

  -- The size of a page that the answer names can be larger than the 100 rows that a page shows.
  pub list_mutations-limit :
      (input : ListMutationsInput) (out : MutationListOutput) (w : World)
      → ltb_ℤ (pos 100) input.limit ≡ true
      → (list_mutations env input w).0 ≡ ok out
      → (out.limit ≡ input.limit) × (length out.items ≤ 100)
  unfolding list_mutations
  list_mutations-limit input out w large h =
      let (named, few, counted, rest) = list_mutations-owned input out w h in
      elim (Result-cases (list_mutation_rows env (mutation_filter input) w).0) [
        | inr (x, e) ↦ absurd (ground arith)
        | inl ((rows, total), e) ↦ (ground (arith, named), few)
      ]
