-- ===== src/Legacy/Mirrored.antt =====
-- The integer service keeps the cached balances equal to the sums of the transactions.
use e_bank_api.Prelude.{String}
use e_bank_api.Prelude.Int.{ℤ}
use e_bank_api.Models.{Db, Env}
use e_bank_api.Accounts.Mirrored.{IsMirrored}
use e_bank_api.Routine.{Routine-IsMirrored}
use e_bank_api.Legacy.{deposit, withdraw, transfer}
use e_bank_api.Legacy.Kept.{Keeps-deposit, Keeps-withdraw, Keeps-transfer}

-- Each operation of the integer service, whatever it answers, keeps every cached balance equal to
-- the sum of that account's transactions.
pub operations-IsMirrored :
    (env : Env) (origin destination : String) (amount : ℤ) (db : Db)
    → IsMirrored db
    → IsMirrored (deposit env destination amount db).1
      × IsMirrored (withdraw env origin amount db).1
      × IsMirrored (transfer env origin destination amount db).1
operations-IsMirrored env origin destination amount db h = (
  (Keeps-deposit Routine-IsMirrored env destination amount).after db h,
  (Keeps-withdraw Routine-IsMirrored env origin amount).after db h,
  (Keeps-transfer Routine-IsMirrored env origin destination amount).after db h,
)
