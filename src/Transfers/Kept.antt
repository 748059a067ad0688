-- ===== src/Transfers/Kept.antt =====
-- What every posting and every new ledger account keeps, the operations of the ledger (app/services/ledger.py)
-- and a customer's transfer (app/services/transfer.py) keep.
use mathlib.Core.Path.{subst}
use e_bank_api.OnboardingAccounts.{get_owned_checking, require_ready}
use e_bank_api.Recipients.{resolve}
use e_bank_api.Prelude.{true, sym, ◌≡◌, String, Option, arith}
use e_bank_api.Prelude.Int.{ℤ}
use e_bank_api.Models.{Account, Db, Env, Action, ◌>>=◌}
use e_bank_api.Models.Keeps.{Keeps, keeps_rules}
use e_bank_api.Ledger
use e_bank_api.Ledger.{
  Audit, PostArgs, ensure_ledger_account, ensure_customer_ledger_account, ensure_system_accounts,
  customer_balance, post, welcome_grant, withdraw,
}
use e_bank_api.Transfers.{
  require_active, require_ready, resolve, get_owned_checking, resolved_row,
  require_onboarded_account, ready_if_owned, account_row, active_row, require_owned_account,
  Settings, TransferArgs, within_limit, parties, origin_of, destination_of, locked_pair,
  ledger_step, answer, keyed_transfer, transfer,
}
use e_bank_api.Transfers.Effect.{within_limit_state, answer_state, unless_replay_state}

origin_of_state :
    (subject : String) (source : Option String) (db : Db) → (origin_of subject source db).1 ≡ db
unfolding origin_of require_owned_account require_onboarded_account get_owned_checking
    require_active require_ready ◌>>=◌
origin_of_state subject source db = ground arith

destination_of_state : (s : Settings) (m : TransferArgs) (db : Db) → (destination_of s m db).1 ≡ db
unfolding destination_of active_row account_row resolved_row resolve ◌>>=◌
destination_of_state s m db = ground arith

locked_pair_state : (o d : Account) (db : Db) → (locked_pair o d db).1 ≡ db
unfolding locked_pair account_row ready_if_owned require_ready ◌>>=◌
locked_pair_state o d db = ground arith

parties_state :
    (s : Settings) (subject : String) (m : TransferArgs) (db : Db) → (parties s subject m db).1 ≡ db
unfolding parties ◌>>=◌
parties_state s subject m db =
    grind (arith, origin_of_state, destination_of_state, locked_pair_state)

-- Entries whose transactions are mirrored, as all but the integer service's.
module _ (P : Db → Type 0)
    (posts : (env : Env) (m : PostArgs) → m.mirror_transactions ≡ true → Keeps P (post env m))
    (ensures : (a : Account) → Keeps P (ensure_customer_ledger_account a)) where
  pub Keeps-ledger_transfer :
      (env : Env) (o d : Account) (x : ℤ) (audit : Audit)
      → Keeps P (Ledger.transfer env o d x audit)
  unfolding Ledger.transfer
  Keeps-ledger_transfer env o d x audit = search (keeps_rules, posts, ensures) depth 12

  pub Keeps-ledger_withdraw :
      (env : Env) (a : Account) (x : ℤ) (audit : Audit) → Keeps P (withdraw env a x audit)
  unfolding withdraw
  Keeps-ledger_withdraw env a x audit = search (keeps_rules, posts, ensures) depth 12

  pub Keeps-welcome_grant :
      (env : Env) (a : Account) (x : ℤ) (audit : Audit) → Keeps P (welcome_grant env a x audit)
  unfolding welcome_grant
  Keeps-welcome_grant env a x audit = search (keeps_rules, posts, ensures) depth 12

  -- An action that only reads keeps everything.
  pub Keeps-reader : {A : Type 0} (m : Action A) → ((db : Db) → (m db).1 ≡ db) → Keeps P m
  Keeps-reader m same = record { after = λ db h. subst P (sym (same db)) h }

  pub Keeps-ledger_step :
      (s : Settings) (env : Env) (o d : Account) (x : ℤ) (audit : Audit)
      → Keeps P (ledger_step s env o d x audit)
  unfolding ledger_step
  Keeps-ledger_step s env o d x audit = record {
    after = λ db h.
        let (result, db') = Ledger.transfer env o d x audit db in
        subst P (sym (unless_replay_state result db'))
          ((Keeps-ledger_transfer env o d x audit).after db h);
  }

  pub Keeps-within_limit : (s : Settings) (x : ℤ) → Keeps P (within_limit s x)
  Keeps-within_limit s x = Keeps-reader (within_limit s x) (within_limit_state s x)

  pub Keeps-parties :
      (s : Settings) (subject : String) (m : TransferArgs) → Keeps P (parties s subject m)
  Keeps-parties s subject m = Keeps-reader (parties s subject m) (parties_state s subject m)

  pub Keeps-answer :
      (s : Settings) (o d : Account) (x : ℤ) (memo : Option String) → Keeps P (answer s o d x memo)
  Keeps-answer s o d x memo = Keeps-reader (answer s o d x memo) (answer_state s o d x memo)

  pub Keeps-keyed_transfer :
      (s : Settings) (env : Env) (subject : String) (m : TransferArgs)
      → Keeps P (keyed_transfer s env subject m)
  unfolding keyed_transfer
  Keeps-keyed_transfer s env subject m =
      search (keeps_rules, Keeps-ledger_step, Keeps-within_limit, Keeps-parties, Keeps-answer) depth
        14

  pub Keeps-transfer :
      (s : Settings) (env : Env) (subject : String) (m : TransferArgs)
      → Keeps P (transfer s env subject m)
  unfolding transfer
  Keeps-transfer s env subject m = search (keeps_rules, Keeps-keyed_transfer)
