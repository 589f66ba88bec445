-- ===== src/Db/Error.antt =====
-- pkg/apperror/error.go, `fmt.Errorf("…: %w", err)`, and the errors that the database driver
-- returns. A message is kept as its format string, without the values that are printed into it.
use wanpay.Base.{ℕ, ◌≡◌, refl, Bool, true, false, String, Option, none, some, ◌⊎◌, inl, inr}

pub data SqlError : Type 0 where
  connection no_rows unique_violation check_violation foreign_key_violation : SqlError
  out_of_range negative_offset negative_limit feature_not_supported : SqlError

pub data Error : Type 0 where
  app : ℕ → String → Error
  sql : SqlError → Error
  external : String → Error
  wrap : String → Error → Error

pub bad_request : String → Error
bad_request message = app 400 message

pub forbidden : String → Error
forbidden message = app 403 message

pub unauthorized : String → Error
unauthorized message = app 401 message

pub not_found : String → Error
not_found message = app 404 message

pub conflict : String → Error
conflict message = app 409 message

pub unprocessable_entity : String → Error
unprocessable_entity message = app 422 message

-- `apperror.Is`: a wrapped error is no longer an `*AppError`.
pub is_app : Error → Bool
is_app (app code message) = true
is_app _ = false

pub data Result (A : Type 0) : Type 0 where
  ok : A → Result A
  err : Error → Result A

abbrev pub is_ok : {A : Type 0} → Result A → Bool
is_ok (ok a) = true
is_ok (err e) = false

abbrev pub row_or_none : {A : Type 0} → Option A → Result A
row_or_none none = err (sql SqlError.no_rows)
row_or_none (some a) = ok a

-- `errors.Is(err, sql.ErrNoRows)` looks through wrapping.
abbrev pub is_no_rows : Error → Bool
is_no_rows (sql SqlError.no_rows) = true
is_no_rows (wrap _ e) = is_no_rows e
is_no_rows _ = false

pub Result-cases :
    {A : Type 0} (r : Result A) → ((a : A) × (r ≡ ok a)) ⊎ ((e : Error) × (r ≡ err e))
Result-cases (ok a) = inl (a, refl)
Result-cases (err e) = inr (e, refl)
