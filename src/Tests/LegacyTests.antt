-- ===== src/Tests/LegacyTests.antt =====
-- Runs of the integer service, and its theorems at them.
use e_bank_api.Prelude.{◌==◌, ◌≡◌, refl, if◌then◌else◌, arith}
use e_bank_api.Prelude.Int.{pos, negsuc, ◌≤ℤ◌, ◌+ℤ◌, ◌-ℤ◌}
use e_bank_api.Prelude.Table.{find, save}
use e_bank_api.Models.{Db, ok, ◌>>=◌}
use e_bank_api.Ledger.{get_account, set_balance, add_transaction}
use e_bank_api.Accounts
use e_bank_api.Accounts.{sum_balance}
use e_bank_api.Accounts.Mirrored.{IsMirrored, balance_of}
use e_bank_api.Legacy.{to_decimal, withdraw, transfer}
use e_bank_api.Legacy.Money.{transfer_moves, withdraw_floor}
use e_bank_api.Tests.Samples.{start, env}

abbrev after_transfer : Db
after_transfer = (transfer env "a1" "c3" (pos 25) start).1

transfer_runs :
    (transfer env "a1" "c3" (pos 25) start).0
    ≡ ok (record { id = "a1"; balance = negsuc 24 }, record { id = "c3"; balance = pos 25 })
unfolding transfer find save set_balance add_transaction Accounts.get_for_update
    Accounts.ensure_account Accounts.record_transaction ◌+ℤ◌ ◌-ℤ◌ ◌>>=◌
transfer_runs = refl

transfer_moves_example :
    balance_of (get_account "c3" after_transfer)
    ≡ balance_of (get_account "c3" start)
      -ℤ (if "a1" == "c3" then to_decimal (pos 25) else pos 0)
      +ℤ (if "c3" == "c3" then to_decimal (pos 25) else pos 0)
unfolding transfer find save set_balance add_transaction Accounts.get_for_update
    Accounts.ensure_account Accounts.record_transaction ◌+ℤ◌ ◌-ℤ◌ ◌>>=◌
transfer_moves_example =
    transfer_moves env "a1" "c3" (pos 25)
      (record { id = "a1"; balance = negsuc 24 }, record { id = "c3"; balance = pos 25 }) start
      after_transfer refl "c3"

abbrev after_withdraw : Db
after_withdraw = (withdraw env "b2" (pos 1000) start).1

withdraw_floor_example :
    (balance_of (get_account "b2" after_withdraw)
      ≡ balance_of (get_account "b2" start) -ℤ to_decimal (pos 1000))
    × (negsuc 100098 ≤ℤ balance_of (get_account "b2" after_withdraw))
unfolding withdraw find save set_balance add_transaction Accounts.get_for_update
    Accounts.record_transaction ◌+ℤ◌ ◌-ℤ◌ ◌>>=◌
withdraw_floor_example =
    withdraw_floor env "b2" (pos 1000) (record { id = "b2"; balance = negsuc 999 }) start
      after_withdraw refl

start-IsMirrored : IsMirrored start
unfolding find sum_balance
start-IsMirrored id = ground arith
