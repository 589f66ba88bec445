-- ===== src/Admin/Fees/Laws.antt =====
-- A change of the fees is recorded; where the record cannot be written, the change stays.
use wanpay.Base.{
  ℕ, suc, true, false, String, some, [], ◌∷◌, ◌++◌, ◌≡◌, find, arith, Option-cases, inl, inr,
}
use wanpay.Entity.Fee.{FeeConfig, FeeDefault}
use wanpay.Entity.Admin.{Admin, FeeAuditLog, audit_global_default}
use wanpay.Db.Error.{is_ok}
use wanpay.Db.Monad.{Env, World, statement, query}
use wanpay.Db.Fees.{get_default}
use wanpay.Db.Admins.{has_admin_id, find_admin_by_id}
use wanpay.Db.FeeWrites.{
  update_default, update_default_row, default_written, write_audit_log, insert_fee_audit_log,
  is_audited_entity, logged,
}
use wanpay.Admin.Fees.Defs.{fee_values, audit_log, default_with, update_fee_default}

module _ (env : Env) where
  -- What a change of the default fee adds to the log.
  abbrev pub default_log : String → String → FeeConfig → Admin → FeeDefault → ℕ → FeeAuditLog
  default_log admin_id reason fee a f n =
      logged env
        (audit_log audit_global_default "singleton" admin_id a.email
          (some (fee_values f.va f.qris f.disbursement))
          (fee_values fee.va fee.qris fee.disbursement) reason)
        n

  -- A change of the default fee that succeeds was asked for by an administrator that exists: the new
  -- fee stands in the table, and the log has one more entry, with his address, the fee of before and the
  -- fee of after.
  pub update_fee_default-logged :
      (admin_id reason : String) (fee : FeeConfig) (w : World)
      → is_ok (update_fee_default env admin_id reason fee w).0 ≡ true
      → let d' = (update_fee_default env admin_id reason fee w).1.db in
        (a : Admin) × (f : FeeDefault) × (find (has_admin_id admin_id) w.db.admins ≡ some a)
        × (w.db.fee_default ≡ some f)
        × (d'.fee_default ≡ some (default_written env (default_with f fee admin_id) f))
        × (d'.fee_audit_logs
            ≡ w.db.fee_audit_logs
              ++ default_log admin_id reason fee a f (suc (suc (suc w.clock))) ∷ [])
  unfolding update_fee_default find_admin_by_id get_default update_default update_default_row
      write_audit_log insert_fee_audit_log is_audited_entity statement query
  update_fee_default-logged admin_id reason fee w h =
      elim (Option-cases (find (has_admin_id admin_id) w.db.admins)) [
        | inl missing ↦ absurd (ground arith)
        | inr (a, e) ↦ elim (Option-cases w.db.fee_default) [
          | inl unset ↦ absurd (ground arith)
          | inr (f, e') ↦ (a, f, e, e', ground arith, ground arith)
        ]
      ]

  -- The change and its record are no transaction: where only the last statement fails, the caller is
  -- told of an error, but the new fee is in force and the log does not know of it.
  pub update_fee_default-unlogged :
      (admin_id reason : String) (fee : FeeConfig) (a : Admin) (f : FeeDefault) (w : World)
      → find (has_admin_id admin_id) w.db.admins ≡ some a
      → w.db.fee_default ≡ some f
      → env.statement_fails w.clock ≡ false
      → env.statement_fails (suc w.clock) ≡ false
      → env.statement_fails (suc (suc w.clock)) ≡ false
      → env.statement_fails (suc (suc (suc w.clock))) ≡ true
      → let (r, w') = update_fee_default env admin_id reason fee w in
        (is_ok r ≡ false)
        × (w'.db.fee_default ≡ some (default_written env (default_with f fee admin_id) f))
        × (w'.db.fee_audit_logs ≡ w.db.fee_audit_logs)
  unfolding update_fee_default find_admin_by_id get_default update_default update_default_row
      write_audit_log statement query
  update_fee_default-unlogged admin_id reason fee a f w e e' up up₁ up₂ down = ground arith
