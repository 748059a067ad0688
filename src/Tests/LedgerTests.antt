-- ===== src/Tests/LedgerTests.antt =====
-- Runs of the ledger, and its theorems at them.
use mathlib.Core.Option
use e_bank_api.Prelude.{◌≡◌, refl, ◌↔◌, true, none, some, List, [], ◌∷◌, arith}
use e_bank_api.Prelude.Int.{pos, ◌+ℤ◌, ◌-ℤ◌}
use e_bank_api.Prelude.Table.{find, save}
use e_bank_api.Errors.{idempotent_replay}
use e_bank_api.Accounts.{sum_balance}
use e_bank_api.Models.{Account, debit, credit, Db, ok, err, ◌>>=◌}
use e_bank_api.Ledger.{
  Audit, PostArgs, PostingLine, line, sys_cash_id, get_account, check_lines, check_replay,
  write_journal, post, customer_balance,
}
use e_bank_api.Ledger.Checks.{IsEntry, check_lines_iff}
use e_bank_api.Ledger.Balances.{InSync, post-InSync, IsTrialBalance, side_sum, post-IsTrialBalance}
use e_bank_api.Accounts.Mirrored.{IsMirrored}
use e_bank_api.Tests.Samples.{start, env}

abbrev pub audit : Audit
audit = record {
  actor_subject = some "alice";
  request_id = none;
  idempotency_key = some "k1";
  source_ip = none;
  user_agent = none;
  reason = none;
}

abbrev grant_lines : List PostingLine
grant_lines = line sys_cash_id debit (pos 500) ∷ line "a1" credit (pos 500) ∷ []

abbrev pub grant : PostArgs
grant = record {
  entry_type = "welcome_grant";
  lines = grant_lines;
  audit = audit;
  mirror_transactions = true;
}

-- The grant, a transfer and a withdrawal, one after another: balances, postings, replay.
abbrev pub granted : Db
granted = (post env grant start).1

granted_balance :
    Option.map (λ (a : Account). a.balance_cached) (get_account "a1" granted) ≡ some (pos 500)
unfolding post check_replay check_lines write_journal find save ◌+ℤ◌ ◌>>=◌
granted_balance = refl

granted_ledger : customer_balance "a1" granted ≡ pos 500
unfolding customer_balance post check_replay check_lines write_journal ◌+ℤ◌ ◌-ℤ◌ ◌>>=◌ find save
granted_ledger = refl

posted_twice : (post env grant granted).0 ≡ err (idempotent_replay "j0")
unfolding post check_replay check_lines write_journal ◌+ℤ◌ ◌>>=◌ find save
posted_twice = refl

check_lines_iff_example : (check_lines grant_lines ≡ ok tt) ↔ IsEntry grant_lines
check_lines_iff_example = check_lines_iff grant_lines

pub start-InSync : InSync start
unfolding find customer_balance ◌-ℤ◌
start-InSync = record { cached = λ id a ne found. ground arith }

post-InSync_example : InSync (post env grant start).1
post-InSync_example = post-InSync env grant start start-InSync

post-IsTrialBalance_example : IsTrialBalance (post env grant start).1
unfolding side_sum
post-IsTrialBalance_example = post-IsTrialBalance env grant start refl

start-IsMirrored : IsMirrored start
unfolding find sum_balance
start-IsMirrored id = ground arith
