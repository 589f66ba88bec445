-- ===== src/Db/Pages.antt =====
-- internal/infrastructure/database/postgres/pagination.go, and what the List methods share: the
-- optional conditions, `ORDER BY created_at DESC`, LIMIT and OFFSET.
use native.Mathlib.Nat.{mul_assoc}
use wanpay.Base.{
  ◌+◌, ◌<◌, ℕ, ◌-◌, ◌*◌, ◌%◌, ◌≤◌, ltb, ℤ, pos, pos_part, leb_ℤ, Bool, true, String, Option, none,
  some, List, [], ◌∷◌, ◌≡◌, arith, if◌then◌else◌, take, drop, length, length-take-le, All, All-take,
  All-drop, Option-cases, Bool-cases, inl, inr, nat_eq,
}
use wanpay.Entity.Fee.{Time}
use wanpay.Db.Error.{SqlError, sql, Result, ok, err, Result-cases}
use wanpay.Db.Tables.{Db}
use wanpay.Db.Monad.{Env, World, M, query, wrapped, ◌>>=◌, pure, statement}

unfoldable pub normalize_page : ℤ → ℤ → ℕ × ℕ
normalize_page page limit =
    let page' = if leb_ℤ page (pos 0) then 1 else pos_part page in
    let limit' = if leb_ℤ limit (pos 0) then 20 else pos_part limit in
    (page', if ltb 100 limit' then 100 else limit')

-- `int32(n)` of a number that is not negative, and `none` where the 32 bits read as a negative one.
abbrev pub int32 : ℕ → Option ℕ
int32 n = let bits = n % 4294967296 in if ltb bits 2147483648 then some bits else none

-- `int32((page - 1) * limit)`
unfoldable pub offset32 : ℕ → ℕ → Option ℕ
offset32 page limit = int32 ((page - 1) * limit)

-- A condition that a filter may leave out.
abbrev pub optional {ℓ} : {A : Type ℓ} → (A → Bool) → Option A → Bool
optional test none = true
optional test (some a) = test a

module _ {A : Type 0} (created : A → Time) where
  -- A stable insertion sort, so that rows of one instant keep an order.
  unfoldable pub insert_by_created : A → List A → List A
  insert_by_created p [] = p ∷ []
  insert_by_created p (q ∷ qs) =
      let rest = insert_by_created p qs in
      if ltb (created p) (created q) then q ∷ rest else p ∷ q ∷ qs

  unfoldable pub newest_first : List A → List A
  unfolding insert_by_created
  newest_first [] = []
  newest_first (p ∷ ps) = insert_by_created p (newest_first ps)

  -- `LIMIT … OFFSET …` on the rows; a negative OFFSET is an error.
  unfoldable pub page_at : ℤ → ℤ → List A → Result (List A)
  page_at page limit rows =
      let (page', limit') = normalize_page page limit in
      elim (offset32 page' limit') [
        | none ↦ err (sql SqlError.negative_offset)
        | some offset ↦ ok (take limit' (drop offset (newest_first rows)))
      ]

  module _ (P : A → Type 0) where
    All-insert_by_created : (p : A) (xs : List A) → P p → All P xs → All P (insert_by_created p xs)
    unfolding insert_by_created
    All-insert_by_created p [] h k = (h, tt)
    All-insert_by_created p (x ∷ xs) h k = ground (arith, All-insert_by_created p xs h k.1)

    All-newest_first : (xs : List A) → All P xs → All P (newest_first xs)
    unfolding newest_first
    All-newest_first [] h = tt
    All-newest_first (x ∷ xs) h =
        All-insert_by_created x (newest_first xs) h.0 (All-newest_first xs h.1)

module _ {A : Type 0} (env : Env) (created : A → Time) where
  -- The number of the rows, and those of one page; where there is none no page is read.
  unfoldable pub listed : String → String → ℤ → ℤ → (Db → List A) → M (List A × ℕ)
  listed count_context list_context page limit rows = do
    total ← wrapped count_context (query env (λ d. ok (length (rows d))))
    (if nat_eq total 0 then pure ([], 0) else (do
      shown ← wrapped list_context (query env (λ d. page_at created page limit (rows d)))
      pure (shown, total)))

pub normalize_page_bounds :
    (page limit : ℤ) → let (p, l) = normalize_page page limit in (1 ≤ p) × (1 ≤ l) × (l ≤ 100)
unfolding normalize_page
normalize_page_bounds page limit = ground arith

-- A page has at most 100 rows, and what all rows have.
pub page_at-All :
    {A : Type 0} (created : A → Time) (P : A → Type 0) (page limit : ℤ) (rows shown : List A)
    → All P rows
    → page_at created page limit rows ≡ ok shown
    → (length shown ≤ 100) × All P shown
unfolding page_at
page_at-All created P page limit rows shown h e =
    let (page', limit') = normalize_page page limit in
    elim (Option-cases (offset32 page' limit')) [
      | inl negative ↦ absurd (ground arith)
      | inr (offset, at) ↦
          let sorted = newest_first created rows in
          let same : shown ≡ take limit' (drop offset sorted) = ground arith in
          rw same (
            omega (
              arith,
              length-take-le limit' (drop offset sorted),
              normalize_page_bounds page limit,
            ),
            All-take P limit' (drop offset sorted)
                (All-drop P offset sorted (All-newest_first created P rows h)),
          )
    ]

-- A list counts all rows, and shows at most 100 of them.
pub listed-All :
    {A : Type 0} (env : Env) (created : A → Time) (P : A → Type 0) (c l : String) (page limit : ℤ)
    (rows : Db → List A) (shown : List A) (total : ℕ) (w : World)
    → All P (rows w.db)
    → (listed env created c l page limit rows w).0 ≡ ok (shown, total)
    → (total ≡ length (rows w.db)) × (length shown ≤ 100) × All P shown
unfolding listed query statement
listed-All env created P c l page limit rows shown total w h e =
    elim (Bool-cases (nat_eq (length (rows w.db)) 0)) [
      | inl empty ↦ let same : shown ≡ [] = ground arith in rw same (ground arith, omega arith, tt)
      | inr more ↦ elim (Result-cases (page_at created page limit (rows w.db))) [
        | inr (x, bad) ↦ absurd (ground arith)
        | inl (page_rows, good) ↦
            let same : shown ≡ page_rows = ground arith in
            let (few, all) = page_at-All created P page limit (rows w.db) page_rows h good in
            rw same (ground arith, few, all)
      ]
    ]

-- A page whose first row has a number below 2 ^ 31 is read at that number.
pub offset32_exact :
    (page limit : ℕ)
    → (page - 1) * limit < 2147483648
    → offset32 page limit ≡ some ((page - 1) * limit)
unfolding offset32
offset32_exact page limit h = ground arith

wraps : (k limit : ℕ) → (1 + 4294967296 * k - 1) * limit % 4294967296 ≡ 0
wraps k limit =
    let e : 1 + 4294967296 * k - 1 ≡ 4294967296 * k = omega arith in
    rw (e, mul_assoc 4294967296 k limit) (omega arith)

-- The conversion to 32 bits loses the high bits: page 1 + 2 ^ 32 * k shows the rows of page 1.
pub offset32-wraps : (k limit : ℕ) → offset32 (1 + 4294967296 * k) limit ≡ offset32 1 limit
unfolding offset32
offset32-wraps k limit = rw (wraps k limit) (ground arith)
