-- ===== src/Tests/MigrationTests.antt =====
-- Old rows, and the theorems on the migrations at them.
use e_bank_api.Prelude.{
  ℕ, zero, suc, All, ◌==◌, sym, Bool, ◌≡◌, ◌≢◌, refl, String, true, false, some, none, [], ◌∷◌,
  List, arith, eq_iff, if◌then◌else◌,
}
use e_bank_api.Prelude.Int.{+ℤ_zero, ◌+ℤ◌, pos}
use e_bank_api.Prelude.Table.{find}
use e_bank_api.Models.{Account, Transaction, Db}
use e_bank_api.Ledger.{get_account}
use e_bank_api.Ledger.Balances.{IsTrialBalance, side_sum}
use e_bank_api.Accounts.{sum_balance}
use e_bank_api.Accounts.Mirrored.{balance_of, IsMirrored}
use e_bank_api.Migrations.{
  OldAccount, OldTransaction, upgrade_0002, downgrade_0002, upgrade_0005, upgrade_0011, is_granted,
  chk_ids, is_chk,
}
use e_bank_api.Migrations.Deposits.{downgrade-upgrade}
use e_bank_api.Migrations.Renaming.{AreFresh, upgrade_0005_keeps}
use e_bank_api.Migrations.Restored.{upgrade_0011_restores}
use e_bank_api.Tests.Samples.{account, tables, env}
use e_bank_api.Tests.StatementTests.{row}

abbrev two_balances : List OldAccount
two_balances = record { id = "a"; balance = pos 500 } ∷ record { id = "b"; balance = pos 0 } ∷ []

abbrev no_transactions : List OldTransaction
no_transactions = []

downgrade-upgrade_example :
    downgrade_0002 (upgrade_0002 (two_balances, [])) ≡ (two_balances, no_transactions)
downgrade-upgrade_example = downgrade-upgrade two_balances ((b_not_a, tt), (tt, tt))
  where
    b_not_a : ◌≢◌ {A = String} "b" "a"
    b_not_a = ground (arith, eq_iff "b" "a")

-- An account of the old scheme with one deposit of 5, and a draft.
abbrev old_account : Account
old_account = record (account "chk_1" (some "alice") 1) { balance_cached = pos 500 }

abbrev deposit : Transaction
deposit = record (row 1 "t1") { account_id = "chk_1"; amount = pos 500 }

abbrev old : Db
old = record (tables (old_account ∷ [])) { transactions = deposit ∷ [] }

old-IsMirrored : IsMirrored old
unfolding find sum_balance
old-IsMirrored id = by ("chk_1" == id)
  where
    by :
        (b : Bool)
        → balance_of (if b then some old_account else none)
          ≡ (if b then pos 500 else pos 0) +ℤ pos 0
    by true = sym (+ℤ_zero (pos 500))
    by false = sym (+ℤ_zero (pos 0))

fresh : AreFresh env ("chk_1" ∷ []) old
fresh = (
  record { other = chk_not_j0; accounts = (chk_not_j0, tt); transactions = (chk_not_j0, tt) },
  tt,
)
  where
    chk_not_j0 : ◌≢◌ {A = String} "chk_1" "j0"
    chk_not_j0 = ground (arith, eq_iff "chk_1" "j0")

plain : (n : ℕ) → is_chk (env.uuid n) ≡ false
unfolding is_chk
plain zero = refl
plain (suc zero) = refl
plain (suc (suc n)) = refl

upgrade_0005_keeps_example :
    All (λ a. is_chk a.id ≡ false) (upgrade_0005 env old).accounts
    × IsMirrored (upgrade_0005 env old)
    × IsTrialBalance (upgrade_0005 env old)
unfolding chk_ids side_sum is_chk
upgrade_0005_keeps_example = upgrade_0005_keeps env old plain fresh old-IsMirrored refl

-- A customer who restarted the wizard behind the grant.
abbrev frozen : Account
frozen = record (account "a1" (some "alice") 1) { onboarding_status = "in_progress" }

abbrev grant_row : Transaction
grant_row = record (row 1 "t1") { account_id = "a1"; type = "demo_grant" }

abbrev frozen_db : Db
frozen_db = record (tables (frozen ∷ [])) { transactions = grant_row ∷ [] }

upgrade_0011_restores_example :
    (status : String) × (get_account "a1" (upgrade_0011 frozen_db)
      ≡ some (record frozen { onboarding_status = status }))
    × (status ≢ "not_started")
    × (status ≢ "in_progress")
unfolding find is_granted
upgrade_0011_restores_example = upgrade_0011_restores frozen_db "a1" frozen refl refl refl
