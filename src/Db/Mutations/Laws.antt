-- ===== src/Db/Mutations/Laws.antt =====
-- The ledger: its balances, and the invariant that the constraints of the table keep.
use wanpay.Base.{
  ℕ, ◌+ℤ◌, ◌≡◌, refl, Bool, true, false, String, List, [], ◌∷◌, ◌++◌, ◌==◌, if◌then◌else◌, arith,
  any, select, ◌||◌, ==_iff, length, ◌≤◌, Bool-cases, inl, inr,
}
use wanpay.Entity.Mutation.{Mutation, MutationReferenceType}
use wanpay.Db.Error.{ok}
use wanpay.Db.Tables.{Db, sum_by-append_one}
use wanpay.Db.Monad.{Env}
use wanpay.Db.Mutations.Defs.{
  mutation_checks, refers_to, same_type, mutation_row, insert_mutation, delta, owned_by, balance,
}

-- A new row changes its own merchant's balance by its delta, and no other balance.
pub balance-append :
    (merchant_id : String) (ms : List Mutation) (m : Mutation)
    → balance merchant_id (ms ++ m ∷ []) ≡ (
        if m.merchant_id == merchant_id
        then balance merchant_id ms +ℤ delta m
        else balance merchant_id ms)
unfolding balance
balance-append merchant_id ms m = sum_by-append_one (owned_by merchant_id) delta ms m

-- Every row passes the checks, and no two rows record the same event.
abbrev pub IsLedger : List Mutation → Type 0
IsLedger [] = Unit
IsLedger (m ∷ ms) =
    (mutation_checks m ≡ true)
    × (any (refers_to m.reference_id m.reference_type) ms ≡ false)
    × IsLedger ms

same_type_comm : (s t : MutationReferenceType) → same_type s t ≡ same_type t s
same_type_comm MutationReferenceType.payment MutationReferenceType.payment = refl
same_type_comm MutationReferenceType.payment MutationReferenceType.disbursement = refl
same_type_comm MutationReferenceType.disbursement MutationReferenceType.payment = refl
same_type_comm MutationReferenceType.disbursement MutationReferenceType.disbursement = refl

any-append_one :
    (p : Mutation → Bool) (ms : List Mutation) (x : Mutation)
    → any p (ms ++ x ∷ []) ≡ (any p ms || p x)
any-append_one p [] x = ground arith
any-append_one p (m ∷ ms) x = ground (arith, any-append_one p ms x)

IsLedger-append :
    (ms : List Mutation) (x : Mutation)
    → IsLedger ms
    → mutation_checks x ≡ true
    → any (refers_to x.reference_id x.reference_type) ms ≡ false
    → IsLedger (ms ++ x ∷ [])
IsLedger-append [] x h c u = (c, refl, tt)
IsLedger-append (m ∷ ms) x h c u = ground (
  arith,
  any-append_one (refers_to m.reference_id m.reference_type) ms x,
  same_type_comm m.reference_type x.reference_type,
  ==_iff m.reference_id x.reference_id,
  ==_iff x.reference_id m.reference_id,
  IsLedger-append ms x,
)

-- A successful insert appends one row that passed the checks and records a new event.
pub insert_mutation-ok :
    (env : Env) (m row : Mutation) (n : ℕ) (d d' : Db)
    → insert_mutation env m n d ≡ ok (row, d')
    → (row ≡ mutation_row env m n)
      × (d' ≡ record d { mutations = d.mutations ++ row ∷ [] })
      × (mutation_checks m ≡ true)
      × (any (refers_to m.reference_id m.reference_type) d.mutations ≡ false)
unfolding insert_mutation
insert_mutation-ok env m row n d d' h = ground arith

-- So every insert keeps the ledger well formed.
pub insert_mutation-IsLedger :
    (env : Env) (m row : Mutation) (n : ℕ) (d d' : Db)
    → IsLedger d.mutations
    → insert_mutation env m n d ≡ ok (row, d')
    → IsLedger d'.mutations
unfolding mutation_checks
insert_mutation-IsLedger env m row n d d' l h =
    let (r, e, c, u) = insert_mutation-ok env m row n d d' h in
    ground (arith, IsLedger-append d.mutations (mutation_row env m n))

-- How often an event stands in the ledger.
abbrev pub occurrences : String → MutationReferenceType → List Mutation → ℕ
occurrences id type ms = length (select (refers_to id type) ms)

none_selected : (p : Mutation → Bool) (ms : List Mutation) → any p ms ≡ false → select p ms ≡ []
none_selected p [] h = refl
none_selected p (m ∷ ms) h = ground (arith, none_selected p ms)

same_type→≡ : (s t : MutationReferenceType) → same_type s t ≡ true → s ≡ t
same_type→≡ MutationReferenceType.payment MutationReferenceType.payment h = refl
same_type→≡ MutationReferenceType.payment MutationReferenceType.disbursement h = cc
same_type→≡ MutationReferenceType.disbursement MutationReferenceType.payment h = cc
same_type→≡ MutationReferenceType.disbursement MutationReferenceType.disbursement h = refl

-- A ledger records each event once at most.
pub occurrences-le-one :
    (id : String) (type : MutationReferenceType) (ms : List Mutation)
    → IsLedger ms
    → occurrences id type ms ≤ 1
occurrences-le-one id type [] l = omega arith
occurrences-le-one id type (m ∷ ms) l = elim (Bool-cases (refers_to id type m)) [
  | inr other ↦ rw other (occurrences-le-one id type ms l.2)
  | inl same ↦ rw (same, none_selected (refers_to id type) ms (absent same)) (omega arith)
]
  where
    absent : refers_to id type m ≡ true → any (refers_to id type) ms ≡ false
    absent h = ground (arith, l.1, ==_iff m.reference_id id, same_type→≡ m.reference_type type)
