-- ===== src/Db/FeeWrites.antt =====
-- internal/infrastructure/database/postgres/fee_repo.go: what administrators read and write, with the
-- SQL of gen/fee.sql.go and the constraints of the tables. The numbers of a fee come from JSON and are
-- finite, so that `json.Marshal` of a fee does not fail.
use wanpay.Base.{
  ℕ, nat_eq, ℤ, pos, pos_part, leb_ℤ, Bool, not, ◌&&◌, ◌||◌, String, none, some, List, [], ◌∷◌,
  ◌++◌, ◌==◌, if◌then◌else◌, find, any, update, length, take, drop,
}
use wanpay.Entity.Fee.{FeeDefault, PlatformMargin, FeeHoliday}
use wanpay.Entity.Admin.{
  FeeAuditLog, audit_global_default, audit_merchant_fee, audit_platform_margin,
  audit_holiday_surcharge,
}
use wanpay.Db.Error.{SqlError, sql, row_or_none, Result, ok, err}
use wanpay.Db.Tables.{Db}
use wanpay.Db.Pages.{int32, offset32, newest_first}
use wanpay.Db.Monad.{Env, M, statement, query, wrapped, ◌>>=◌, pure}

abbrev pub default_written : Env → FeeDefault → FeeDefault → FeeDefault
default_written env f row = record row {
  va = f.va;
  qris = f.qris;
  disbursement = f.disbursement;
  updated_by = f.updated_by;
  updated_at = env.now;
}

unfoldable pub update_default_row : Env → FeeDefault → ℕ → Db → Result (FeeDefault × Db)
update_default_row env f n d = elim d.fee_default [
  | none ↦ err (sql SqlError.no_rows)
  | some row ↦
      ok (default_written env f row, record d { fee_default = some (default_written env f row) })
]

unfoldable pub update_default : Env → FeeDefault → M FeeDefault
update_default env f = wrapped "update fee default" (statement env (update_default_row env f))

abbrev pub margin_written : Env → PlatformMargin → PlatformMargin → PlatformMargin
margin_written env m row = record row {
  enabled = m.enabled;
  va = m.va;
  qris = m.qris;
  disbursement = m.disbursement;
  updated_by = m.updated_by;
  updated_at = env.now;
}

unfoldable pub update_margin_row : Env → PlatformMargin → ℕ → Db → Result (PlatformMargin × Db)
update_margin_row env m n d = elim d.platform_margin [
  | none ↦ err (sql SqlError.no_rows)
  | some row ↦
      ok (margin_written env m row, record d { platform_margin = some (margin_written env m row) })
]

unfoldable pub update_margin : Env → PlatformMargin → M PlatformMargin
update_margin env m = wrapped "update platform margin" (statement env (update_margin_row env m))

abbrev pub has_holiday_id : String → FeeHoliday → Bool
has_holiday_id id h = h.id == id

abbrev pub on_day : ℕ → FeeHoliday → Bool
on_day day h = nat_eq h.date day

-- uq_holiday_date; the types have no other values than those of the check.
unfoldable pub insert_fee_holiday : Env → FeeHoliday → ℕ → Db → Result (FeeHoliday × Db)
insert_fee_holiday env h n d =
    let row = record h {
      id = env.uuid n;
      updated_by = h.created_by;
      created_at = env.now;
      updated_at = env.now;
    } in
    if any (on_day h.date) d.fee_holidays
    then err (sql SqlError.unique_violation)
    else ok (row, record d { fee_holidays = d.fee_holidays ++ row ∷ [] })

unfoldable pub create_holiday : Env → FeeHoliday → M FeeHoliday
create_holiday env h = wrapped "insert holiday" (statement env (insert_fee_holiday env h))

unfoldable pub get_holiday_by_id : Env → String → M FeeHoliday
get_holiday_by_id env id =
    wrapped "get holiday by id"
      (query env (λ d. row_or_none (find (has_holiday_id id) d.fee_holidays)))

abbrev pub holiday_written : Env → FeeHoliday → FeeHoliday → FeeHoliday
holiday_written env h row = record h {
  created_by = row.created_by;
  created_at = row.created_at;
  updated_at = env.now;
}

unfoldable pub update_fee_holiday_row : Env → FeeHoliday → ℕ → Db → Result (FeeHoliday × Db)
update_fee_holiday_row env h n d = elim (find (has_holiday_id h.id) d.fee_holidays) [
  | none ↦ err (sql SqlError.no_rows)
  | some row ↦
      if any (λ x. not (x.id == h.id) && on_day h.date x) d.fee_holidays
      then err (sql SqlError.unique_violation)
      else ok (
        holiday_written env h row,
        record d {
          fee_holidays = update (has_holiday_id h.id) (holiday_written env h) d.fee_holidays;
        },
      )
]

unfoldable pub update_holiday : Env → FeeHoliday → M FeeHoliday
update_holiday env h = wrapped "update holiday" (statement env (update_fee_holiday_row env h))

-- `ORDER BY date DESC LIMIT … OFFSET …`: the limit has no upper bound here, and as a negative number
-- of 32 bits it is an error as well.
unfoldable pub holidays_at : ℕ → ℕ → List FeeHoliday → Result (List FeeHoliday)
holidays_at page limit rows = elim (int32 limit) [
  | none ↦ err (sql SqlError.negative_limit)
  | some n ↦ elim (offset32 page limit) [
    | none ↦ err (sql SqlError.negative_offset)
    | some offset ↦ ok (take n (drop offset (newest_first (λ h. h.date) rows)))
  ]
]

unfoldable pub list_holidays : Env → ℤ → ℤ → M (List FeeHoliday × ℕ)
list_holidays env page limit = do
  let page' = if leb_ℤ page (pos 0) then 1 else pos_part page
  let limit' = if leb_ℤ limit (pos 0) then 20 else pos_part limit
  total ← wrapped "count holidays" (query env (λ d. ok (length d.fee_holidays)))
  rows ← wrapped "list holidays" (query env (λ d. holidays_at page' limit' d.fee_holidays))
  pure (rows, total)

-- chk_fee_audit_entity_type
unfoldable pub is_audited_entity : String → Bool
is_audited_entity s =
    s == audit_global_default
    || s == audit_merchant_fee
    || s == audit_platform_margin
    || s == audit_holiday_surcharge

abbrev pub logged : Env → FeeAuditLog → ℕ → FeeAuditLog
logged env l n = record l { id = env.uuid n; created_at = env.now }

unfoldable pub insert_fee_audit_log : Env → FeeAuditLog → ℕ → Db → Result (Unit {0} × Db)
insert_fee_audit_log env l n d =
    if not (is_audited_entity l.entity_type)
    then err (sql SqlError.check_violation)
    else ok (tt, record d { fee_audit_logs = d.fee_audit_logs ++ logged env l n ∷ [] })

unfoldable pub write_audit_log : Env → FeeAuditLog → M (Unit {0})
write_audit_log env l = statement env (insert_fee_audit_log env l)
