-- ===== src/DemoBank/Kept.antt =====
-- What every routine keeps, further accounts and withdrawals (app/services/demo_service.py) keep.
use e_bank_api.Prelude.{String, Option, ◌≡◌, arith}
use e_bank_api.Models.{Account, or_raise, Db, Env, ◌>>=◌}
use e_bank_api.Models.Keeps.{Keeps, Keeps-or_raise, keeps_rules}
use e_bank_api.Routine.{Routine}
use e_bank_api.Transfers.{require_onboarded_account}
use e_bank_api.Ledger.Kept.{Keeps-ensures}
use e_bank_api.Transfers.Kept.{Keeps-ledger_withdraw, Keeps-reader}
use e_bank_api.Completion.{Client}
use e_bank_api.Completion.Kept.{Keeps-open_extra_draft}
use e_bank_api.Errors.{Error}
use e_bank_api.Onboarding.{get_holder}
use e_bank_api.Ledger
use e_bank_api.Ledger.{Audit}
use e_bank_api.Prelude.Int.{ℤ}
use e_bank_api.DemoBank.{Demo, open_additional_account, withdrawal, withdrawn, withdraw}

module _ {P : Db → Type 0} (R : Routine P) where
  module _ (o : Demo) where
    withdrawal_state : (subject amount : String) (db : Db) → (withdrawal o subject amount db).1 ≡ db
    unfolding withdrawal require_onboarded_account ◌>>=◌
    withdrawal_state subject amount db = ground arith

    withdrawn_state : (id : String) (db : Db) → (withdrawn o id db).1 ≡ db
    unfolding withdrawn ◌>>=◌
    withdrawn_state id db = ground arith

    Keeps-found : (subject amount : String) → Keeps P (withdrawal o subject amount)
    Keeps-found subject amount =
        Keeps-reader P R.posts (Keeps-ensures R) (withdrawal o subject amount)
          (withdrawal_state subject amount)

    Keeps-taken :
        (env : Env) (a : Account) (x : ℤ) (audit : Audit) → Keeps P (Ledger.withdraw env a x audit)
    Keeps-taken = Keeps-ledger_withdraw P R.posts (Keeps-ensures R)

    Keeps-shown : (id : String) → Keeps P (withdrawn o id)
    Keeps-shown id = Keeps-reader P R.posts (Keeps-ensures R) (withdrawn o id) (withdrawn_state id)

    Keeps-holder :
        (e : Error) (subject : String) → Keeps P (λ db. or_raise e (get_holder subject db) db)
    Keeps-holder e subject = record {
      after = λ db h. (Keeps-or_raise P e (get_holder subject db)).after db h;
    }

    pub Keeps-withdraw :
        (env : Env) (subject amount : String) (key : Option String) (c : Client)
        → Keeps P (withdraw o env subject amount key c)
    unfolding withdraw
    Keeps-withdraw env subject amount key c =
        search (keeps_rules, Keeps-found, Keeps-taken, Keeps-shown)

    pub Keeps-open_additional_account :
        (env : Env) (subject : String) → Keeps P (open_additional_account o env subject)
    unfolding open_additional_account
    Keeps-open_additional_account env subject =
        search (keeps_rules, Keeps-holder, Keeps-open_extra_draft) depth 12
