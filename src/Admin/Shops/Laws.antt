-- ===== src/Admin/Shops/Laws.antt =====
-- What a change by an administrator leaves in the tables.
use wanpay.Base.{ℤ, true, String, none, some, ◌≡◌, refl, find, find-update, arith}
use wanpay.Entity.Admin.{ProviderBalance}
use wanpay.Db.Error.{is_ok}
use wanpay.Db.Monad.{Env, World, statement}
use wanpay.Db.Admins.{of_provider, upsert_provider_balance, upsert_balance_row}
use wanpay.Admin.Shops.Defs.{update_provider_balance}

module _ (env : Env) where
  -- Where a balance is held at a provider, a new figure for it erases the note and the time of the last
  -- reconciliation.
  pub update_provider_balance-erases :
      (provider : String) (balance_idr : ℤ) (b : ProviderBalance) (w : World)
      → find (of_provider provider) w.db.provider_balances ≡ some b
      → is_ok (update_provider_balance env provider balance_idr w).0 ≡ true
      → let w' = (update_provider_balance env provider balance_idr w).1 in
        (b' : ProviderBalance) × (find (of_provider provider) w'.db.provider_balances ≡ some b')
        × (b'.balance_idr ≡ balance_idr)
        × (b'.id ≡ b.id)
        × (b'.note ≡ "")
        × (b'.last_reconciled_at ≡ none)
  unfolding update_provider_balance upsert_provider_balance upsert_balance_row statement
  update_provider_balance-erases provider balance_idr b w e h = (
    record b {
      balance_idr = balance_idr;
      last_reconciled_at = none;
      note = "";
      updated_at = env.now;
    },
    ground (
      arith,
      e,
      find-update (of_provider provider)
          (λ (row : ProviderBalance). record row {
            balance_idr = balance_idr;
            last_reconciled_at = none;
            note = "";
            updated_at = env.now;
          })
          w.db.provider_balances b (λ (x : ProviderBalance). refl) e,
    ),
    refl,
    refl,
    refl,
    refl,
  )
