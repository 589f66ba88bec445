-- ===== src/Db/Tables.antt =====
-- The tables, as lists of rows in insertion order. A row of a table is the entity that the mapper
-- makes of it, field by field.
use wanpay.Base.{
  ℕ, ℤ, pos, ◌+ℤ◌, +ℤ_zero, int_laws, Bool, String, Option, List, [], ◌∷◌, ◌++◌, ◌≡◌, arith, select,
  select-append, if◌then◌else◌,
}
use wanpay.Entity.Fee.{Time, FeeDefault, PlatformMargin, FeeHoliday}
use wanpay.Entity.Merchant.{Merchant, MerchantBankAccount}
use wanpay.Entity.Payment.{Payment}
use wanpay.Entity.Disbursement.{Disbursement}
use wanpay.Entity.Mutation.{Mutation}
use wanpay.Entity.Admin.{Admin, ProviderBalance, FeeAuditLog}
use wanpay.Entity.Audit.{PaymentAudit}
use wanpay.Db.Payload.{Payload}

pub record OutboxEvent : Type 0 where
  pub id : String
  pub event_type : String
  pub payload : Payload
  pub target_url : String
  pub attempt_count : ℕ
  pub max_attempts : ℕ
  pub next_retry_at : Time
  pub delivered_at : Option Time
  pub failed_at : Option Time
  pub last_error : Option String
  pub created_at : Time
  pub merchant_id : Option String

-- The two fee tables have one row at most.
pub record Db : Type 0 where
  pub payments : List Payment
  pub audits : List PaymentAudit
  pub mutations : List Mutation
  pub disbursements : List Disbursement
  pub outbox : List OutboxEvent
  pub merchants : List Merchant
  pub bank_accounts : List MerchantBankAccount
  pub fee_default : Option FeeDefault
  pub platform_margin : Option PlatformMargin
  pub fee_holidays : List FeeHoliday
  pub admins : List Admin
  pub provider_balances : List ProviderBalance
  pub fee_audit_logs : List FeeAuditLog

-- `SUM(…)`, exact: Postgres adds BIGINTs as NUMERIC.
abbrev pub sum_by {ℓ} : {A : Type ℓ} → (A → ℤ) → List A → ℤ
sum_by f [] = pos 0
sum_by f (x ∷ xs) = f x +ℤ sum_by f xs

sum_by-append {ℓ} :
    {A : Type ℓ} (f : A → ℤ) (xs ys : List A) → sum_by f (xs ++ ys) ≡ sum_by f xs +ℤ sum_by f ys
sum_by-append f [] ys = omega int_laws
sum_by-append f (x ∷ xs) ys = rw (sum_by-append f xs ys) (omega int_laws)

-- The sum over the rows that pass a test, when a row is added.
pub sum_by-append_one {ℓ} :
    {A : Type ℓ} (p : A → Bool) (f : A → ℤ) (xs : List A) (x : A)
    → sum_by f (select p (xs ++ x ∷ []))
      ≡ (if p x then sum_by f (select p xs) +ℤ f x else sum_by f (select p xs))
sum_by-append_one p f xs x =
    rw (select-append p xs (x ∷ []), sum_by-append f (select p xs) (select p (x ∷ [])))
      (ground (arith, +ℤ_zero (sum_by f (select p xs)), +ℤ_zero (f x)))
