-- ===== src/Db/Mutations/Defs.antt =====
-- internal/infrastructure/database/postgres/mutation_repo.go, with the SQL of gen/mutation.sql.go
-- and the constraints of the table.
use wanpay.Base.{
  ℕ, ℤ, pos, ◌-ℤ◌, ltb_ℤ, leb_ℤ, is_zero_ℤ, fits64, Bool, true, false, not, ◌&&◌, ◌||◌, String,
  List, [], ◌∷◌, ◌++◌, ◌==◌, if◌then◌else◌, find, any, select,
}
use wanpay.Entity.Merchant.{Merchant}
use wanpay.Entity.Mutation.{Mutation, MutationType, MutationReferenceType}
use wanpay.Db.Error.{SqlError, sql, row_or_none, Result, ok, err}
use wanpay.Db.Tables.{Db, sum_by}
use wanpay.Db.Monad.{Env, M, statement, query, wrapped, found}

abbrev pub same_type : MutationReferenceType → MutationReferenceType → Bool
same_type MutationReferenceType.payment MutationReferenceType.payment = true
same_type MutationReferenceType.disbursement MutationReferenceType.disbursement = true
same_type _ _ = false

abbrev is_cash_out : MutationType → Bool
is_cash_out MutationType.cash_out = true
is_cash_out MutationType.cash_in = false

-- chk_mutation_amount, chk_mutation_fee, chk_mutation_currency and chk_cash_out_fee
unfoldable pub mutation_checks : Mutation → Bool
mutation_checks m =
    ltb_ℤ (pos 0) m.amount
    && (leb_ℤ (pos 0) m.fee_amount && leb_ℤ m.fee_amount m.amount)
    && m.currency == "IDR"
    && (not (is_cash_out m.type) || is_zero_ℤ m.fee_amount)

-- uq_mutation_reference
abbrev pub refers_to : String → MutationReferenceType → Mutation → Bool
refers_to id type m = m.reference_id == id && same_type m.reference_type type

abbrev pub mutation_row : Env → Mutation → ℕ → Mutation
mutation_row env m n = record m { id = env.uuid n; created_at = env.now }

unfoldable pub insert_mutation : Env → Mutation → ℕ → Db → Result (Mutation × Db)
insert_mutation env m n d =
    if not (mutation_checks m)
    then err (sql SqlError.check_violation)
    else if any (refers_to m.reference_id m.reference_type) d.mutations
    then err (sql SqlError.unique_violation)
    else if not (any (λ (c : Merchant). c.id == m.merchant_id) d.merchants)
    then err (sql SqlError.foreign_key_violation)
    else ok
        (mutation_row env m n, record d { mutations = d.mutations ++ mutation_row env m n ∷ [] })

-- What a row adds to its merchant's balance.
abbrev delta_of : MutationType → Mutation → ℤ
delta_of MutationType.cash_in m = m.amount -ℤ m.fee_amount
delta_of MutationType.cash_out m = pos 0 -ℤ m.amount

abbrev pub delta : Mutation → ℤ
delta m = delta_of m.type m

abbrev pub owned_by : String → Mutation → Bool
owned_by merchant_id m = m.merchant_id == merchant_id

unfoldable pub balance : String → List Mutation → ℤ
balance merchant_id ms = sum_by delta (select (owned_by merchant_id) ms)

-- A cast to BIGINT fails out of range.
unfoldable pub as_bigint : ℤ → Result ℤ
as_bigint s = if fits64 s then ok s else err (sql SqlError.out_of_range)

unfoldable pub get_merchant_balance : String → Db → Result ℤ
unfolding balance as_bigint
get_merchant_balance merchant_id d = as_bigint (balance merchant_id d.mutations)

unfoldable pub save_mutation : Env → Mutation → M Mutation
save_mutation env m = wrapped "insert mutation" (statement env (insert_mutation env m))

unfoldable pub find_mutation_by_id : Env → String → M Mutation
find_mutation_by_id env id =
    found "mutation %s not found" "get mutation by id"
      (query env (λ d. row_or_none (find (λ (m : Mutation). m.id == id) d.mutations)))

unfoldable pub find_mutation_by_reference_id : Env → String → MutationReferenceType → M Mutation
find_mutation_by_reference_id env id type =
    found "mutation for reference %s not found" "get mutation by reference_id"
      (query env (λ d. row_or_none (find (refers_to id type) d.mutations)))

unfoldable pub get_balance : Env → String → M ℤ
get_balance env merchant_id =
    wrapped "get merchant balance" (query env (get_merchant_balance merchant_id))
