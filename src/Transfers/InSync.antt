-- ===== src/Transfers/InSync.antt =====
-- A customer's transfer and the ledger's own operations keep the cached balances right.
use e_bank_api.Prelude.{true, ◌≡◌, String, arith}
use e_bank_api.Prelude.Int.{ℤ}
use e_bank_api.Models.{Account, Db, Env, ◌>>=◌}
use e_bank_api.Models.Keeps.{Keeps}
use e_bank_api.Ledger
use e_bank_api.Ledger.{
  Audit, PostArgs, ensure_ledger_account, ensure_customer_ledger_account, ensure_system_accounts,
  customer_balance, post, welcome_grant, withdraw,
}
use e_bank_api.Ledger.Balances.{InSync, post-InSync}
use e_bank_api.Transfers.Kept.{
  Keeps-welcome_grant, Keeps-ledger_transfer, Keeps-ledger_withdraw, Keeps-transfer,
}
use e_bank_api.Transfers.{Settings, TransferArgs, transfer}

Keeps-post : (env : Env) (m : PostArgs) → Keeps InSync (post env m)
Keeps-post env m = record { after = λ db h. post-InSync env m db h }

Keeps-ensure_customer : (a : Account) → Keeps InSync (ensure_customer_ledger_account a)
unfolding ensure_customer_ledger_account ensure_ledger_account customer_balance ◌>>=◌
Keeps-ensure_customer a = record {
  after = λ db h. record { cached = λ id b ne found. ground (arith, h.cached id b ne) };
}

mirrored_post :
    (env : Env) (m : PostArgs) → m.mirror_transactions ≡ true → Keeps InSync (post env m)
mirrored_post env m _ = Keeps-post env m

-- The grant, the transfer and the withdrawal of the ledger, whatever they answer, keep every cached
-- customer balance equal to the credits less the debits of that account's postings.
pub ledger_operations-InSync :
    (env : Env) (o d : Account) (x : ℤ) (audit : Audit) (db : Db)
    → InSync db
    → InSync (welcome_grant env o x audit db).1
      × InSync (Ledger.transfer env o d x audit db).1
      × InSync (withdraw env o x audit db).1
ledger_operations-InSync env o d x audit db h = (
  (Keeps-welcome_grant InSync mirrored_post Keeps-ensure_customer env o x audit).after db h,
  (Keeps-ledger_transfer InSync mirrored_post Keeps-ensure_customer env o d x audit).after db h,
  (Keeps-ledger_withdraw InSync mirrored_post Keeps-ensure_customer env o x audit).after db h,
)

-- A customer's transfer, whatever it answers, keeps every cached customer balance equal to the
-- credits less the debits of that account's postings.
pub customer_transfer-InSync :
    (s : Settings) (env : Env) (subject : String) (m : TransferArgs) (db : Db)
    → InSync db
    → InSync (transfer s env subject m db).1
customer_transfer-InSync s env subject m db h =
    (Keeps-transfer InSync mirrored_post Keeps-ensure_customer s env subject m).after db h
