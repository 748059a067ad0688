-- ===== src/Tests/TransferTests.antt =====
-- Runs of transfers and of repeated keys, and the theorems at them.
use mathlib.Core.Option
use e_bank_api.Prelude.{eq_false→ne, ◌==◌, ◌≡◌, refl, if◌then◌else◌, some, arith}
use e_bank_api.Prelude.Int.{pos, ◌+ℤ◌, ◌-ℤ◌, ◌≤ℤ◌}
use e_bank_api.Prelude.Table.{find, save}
use e_bank_api.Errors.{idempotent_replay}
use e_bank_api.Models.{Account, JournalEntry, Db, Env, ok, err, ◌>>=◌}
use e_bank_api.Ledger.{
  Audit, journal_by_key, journal_row, get_account, check_lines, check_replay, write_journal, post,
  transfer, ensure_customer_ledger_account,
}
use e_bank_api.Ledger.Mirror.{adjust}
use e_bank_api.Ledger.Replay.{post_once}
use e_bank_api.Ledger.Transfer.{transfer_args, transfer_effect, transfer_total}
use e_bank_api.Tests.Samples.{alice, bob, start, env}
use e_bank_api.Tests.LedgerTests.{audit, grant, granted}

abbrev rich : Account
rich = record alice { balance_cached = pos 500 }

abbrev again : Audit
again = record audit { idempotency_key = some "k2" }

-- A transfer of 120 after the grant of 500.
abbrev moved_db : Db
moved_db = (transfer env rich bob (pos 120) again granted).1

abbrev first_journal : JournalEntry
first_journal = journal_row grant "j0" start

abbrev transfer_journal : JournalEntry
transfer_journal = journal_row (transfer_args rich bob (pos 120) again) "j9" granted

transfer_runs_ledger :
    transfer env rich bob (pos 120) again granted ≡ (ok transfer_journal, moved_db)
unfolding transfer ensure_customer_ledger_account post check_replay check_lines write_journal
    journal_row find save ◌+ℤ◌ ◌-ℤ◌ ◌>>=◌
transfer_runs_ledger = refl

transfer_effect_example :
    (pos 0 ≤ℤ pos 500 -ℤ pos 120)
    × ((id : _)
        → get_account id moved_db
          ≡ Option.map
              (adjust (
                (if "a1" == id then pos 0 -ℤ pos 120 else pos 0)
                +ℤ (if "b2" == id then pos 120 else pos 0)))
              (get_account id granted))
transfer_effect_example =
    transfer_effect env rich bob (pos 120) again granted transfer_journal moved_db
      transfer_runs_ledger (eq_false→ne "a1" "sys_cash" refl) (eq_false→ne "b2" "sys_cash" refl)

transfer_total_example :
    (j : JournalEntry) × ((transfer env rich bob (pos 120) again start).0 ≡ ok j)
unfolding ◌-ℤ◌ journal_by_key
transfer_total_example =
    transfer_total env rich bob (pos 120) again "k2" start (omega arith) (omega arith) refl refl
      refl

grant_runs : post env grant start ≡ (ok first_journal, granted)
unfolding post check_replay check_lines write_journal journal_row find save ◌+ℤ◌ ◌>>=◌
grant_runs = refl

post_once_example :
    post env (transfer_args rich bob (pos 1) audit) granted
    ≡ (err (idempotent_replay "j0"), granted)
unfolding journal_row
post_once_example =
    post_once env env grant (transfer_args rich bob (pos 1) audit) "k1" first_journal start granted
      grant_runs refl refl (eq_false→ne "k1" "" refl)

-- A database in which another transaction takes the key k1.
abbrev racing : Env
racing = record env { raced = λ k. some "j7" }
