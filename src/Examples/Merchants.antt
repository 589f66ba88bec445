-- ===== src/Examples/Merchants.antt =====
-- Bank accounts.
use wanpay.Base.{
  pos, none, [], ◌∷◌, List, map, length, select, ◌≤◌, true, ◌==◌, nat_eq, false, ◌≡◌, refl, All,
}
use wanpay.Db.Error.{is_ok}
use wanpay.Db.Monad.{Env, run_in_tx, statement, query}
use wanpay.Db.Accounts.{
  is_primary_of, counted, count_bank_accounts, save_bank_account, insert_bank_account,
}
use wanpay.Db.Disbursements.{is_bank_code}
use wanpay.Merchant.{
  AddBankAccountInput, add_bank_account, new_account, insert_account, set_primary_bank_account,
  set_primary_bank_account-loses_primary,
}
use wanpay.Entity.Mutation.{Mutation}
use wanpay.Db.Pages.{listed, page_at, normalize_page, offset32, newest_first, insert_by_created}
use wanpay.Db.Mutations.{matches_mutation, mutation_type_text, list_mutation_rows}
use wanpay.Mutation.{
  ListMutationsInput, MutationListOutput, to_mutation_output, mutation_filter, list_mutations,
  list_mutations-owned,
}
use wanpay.Examples.Data.{credit_row, env, unverified, tables}
use wanpay.Examples.Ports.{start}

abbrev wanted : AddBankAccountInput
wanted = record {
  merchant_id = "m1";
  bank_code = "BNI";
  account_number = "55555";
  account_name = "Shop";
  set_as_primary = false;
}

account_added : is_ok (add_bank_account env wanted start).0 ≡ true
unfolding add_bank_account insert_account count_bank_accounts counted save_bank_account
    insert_bank_account statement run_in_tx is_bank_code new_account
account_added = refl

-- The third statement fails.
abbrev breaking : Env
breaking = record env { statement_fails = λ n. nat_eq n 2 }

set_primary_bank_account-loses_primary_example :
    let (r, w') = set_primary_bank_account breaking "m1" "a2" start in
    (is_ok r ≡ false) × All (λ x. is_primary_of "m1" x ≡ false) w'.db.bank_accounts
set_primary_bank_account-loses_primary_example =
    set_primary_bank_account-loses_primary breaking "m1" unverified start refl refl refl refl refl

abbrev asked : ListMutationsInput
asked = record {
  merchant_id = "m1";
  type = none;
  start_date = none;
  end_date = none;
  page = pos 1;
  limit = pos 20;
}

abbrev answered : MutationListOutput
answered = record {
  items = to_mutation_output credit_row ∷ [];
  total = 1;
  page = pos 1;
  limit = pos 20;
}

list_mutations-owned_example :
    (("m1" == "") ≡ false)
    × (1 ≤ 100)
    × (1 ≡ length (select (matches_mutation (mutation_filter asked)) tables.mutations))
    × ((rows : List Mutation) × (answered.items ≡ map to_mutation_output rows)
        × All (λ m. m.merchant_id ≡ "m1") rows)
unfolding list_mutations list_mutation_rows listed page_at normalize_page offset32 newest_first
    insert_by_created matches_mutation mutation_type_text query statement
list_mutations-owned_example = list_mutations-owned env asked answered start refl
