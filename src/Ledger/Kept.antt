-- ===== src/Ledger/Kept.antt =====
-- What every routine keeps, a new ledger account (app/services/ledger.py) keeps.
use e_bank_api.Prelude.{arith}
use e_bank_api.Models.{Account, Db, ◌>>=◌}
use e_bank_api.Models.Keeps.{Keeps}
use e_bank_api.Ledger.{
  ensure_customer_ledger_account, ensure_ledger_account, ensure_system_accounts,
}
use e_bank_api.Routine.{Routine}

pub Keeps-ensures :
    {P : Db → Type 0} (R : Routine P) (a : Account) → Keeps P (ensure_customer_ledger_account a)
unfolding ensure_customer_ledger_account ensure_ledger_account ensure_system_accounts ◌>>=◌
Keeps-ensures R a = R.aside (ensure_customer_ledger_account a) (λ db. ground arith)
