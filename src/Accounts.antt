-- ===== src/Accounts.antt =====
-- app/repositories/account_repository.py over the session's tables. A row lock
-- (`with_for_update`) reads the row: requests are modelled one after another.
pub mod Mirrored
use Prim.Native.Nat.{Ordering}
use Prim.Native.String.{compare}
use mathlib.Core.Option
use e_bank_api.Prelude.{
  ℕ, ◌+◌, String, ◌==◌, Bool, true, false, ◌&&◌, Option, none, some, List, [], ◌∷◌, ◌++◌, map, ltb,
  leb, eqb, is_some, truthy, if◌then◌else◌,
}
use e_bank_api.Prelude.Int.{ℤ, pos, ◌+ℤ◌, leb_ℤ, ltb_ℤ, eqb_ℤ}
use e_bank_api.Errors.{Error, integrity_error}
use e_bank_api.Models.{
  Account, Transaction, Db, Env, Outcome, ok, err, Action, pure, gets, ◌>>=◌, ◌>>◌, modify,
}
use e_bank_api.Ledger.{get_account, set_balance, add_transaction}

pub record AccountRecord : Type 0 where
  pub id : String
  pub balance : ℤ
  pub owner_subject : Option String
  pub kind : String
  pub currency : String
  pub status : String
  pub overdraft_limit : ℤ
  pub account_number : Option ℕ
  pub digit : Option ℕ
  pub onboarding_status : String

-- `_to_record`, with the balance of `_balance_for`: the column is not nullable.
unfoldable pub to_record : Account → AccountRecord
to_record a = record {
  id = a.id;
  balance = a.balance_cached;
  owner_subject = a.owner_subject;
  kind = a.kind;
  currency = a.currency;
  status = a.status;
  overdraft_limit = a.overdraft_limit;
  account_number = a.account_number;
  digit = a.digit;
  onboarding_status = a.onboarding_status;
}

unfoldable pub get : String → Action (Option AccountRecord)
unfolding to_record
get id = gets (λ db. Option.map to_record (get_account id db))

unfoldable pub get_for_update : String → Action (Option AccountRecord)
unfolding get
get_for_update id = get id

-- `_sum_balance`
unfoldable pub sum_rows : String → List Transaction → ℤ
sum_rows id [] = pos 0
sum_rows id (t ∷ rows) = (if t.account_id == id then t.amount else pos 0) +ℤ sum_rows id rows

unfoldable pub sum_balance : String → Db → ℤ
unfolding sum_rows
sum_balance id db = sum_rows id db.transactions

-- A new row with the columns' defaults.
unfoldable pub new_account : String → Option String → String → String → ℤ → Db → Account
new_account id owner kind currency limit db = record {
  id = id;
  owner_subject = owner;
  kind = kind;
  currency = currency;
  status = "active";
  onboarding_status = "not_started";
  account_number = none;
  digit = none;
  balance_cached = pos 0;
  overdraft_limit = limit;
  created_at = db.now;
}

-- The flush of a new account: `accounts.id` is the primary key.
unfoldable pub insert_account : Account → Action (Unit {0})
insert_account a db =
    if is_some (get_account a.id db)
    then (err integrity_error, db)
    else (ok tt, record db { accounts = db.accounts ++ a ∷ [] })

unfoldable pub ensure_account : String → Action (Unit {0})
unfolding new_account insert_account
ensure_account id db = elim (get_account id db) [
  | none ↦ insert_account (new_account id none "checking" "USD" (pos 0) db) db
  | some _ ↦ (ok tt, db)
]

transaction_row : Env → String → ℤ → String → Option String → Db → Transaction
transaction_row env id amount txn_type counterparty db = record {
  id = db.next_transaction_id;
  public_id = env.uuid db.drawn;
  account_id = id;
  amount = amount;
  type = txn_type;
  counterparty_account_id = counterparty;
  actor_subject = none;
  request_id = none;
  idempotency_key = none;
  memo = none;
  created_at = db.now;
}

-- `account.balance_cached or balance`
balance_or_sum : ℤ → ℤ → ℤ
balance_or_sum cached sum = if eqb_ℤ cached (pos 0) then sum else cached

-- `record_transaction`, with the audit columns left out as its callers do. The flush of the row
-- fails if no account has the id, by the foreign key of `transactions.account_id`.
unfoldable pub record_transaction : Env → String → ℤ → String → Option String → Action AccountRecord
unfolding transaction_row to_record balance_or_sum sum_balance
record_transaction env id amount txn_type counterparty db = elim (get_account id db) [
  | none ↦ (err integrity_error, db)
  | some a ↦
      let db' = add_transaction (transaction_row env id amount txn_type counterparty db) db in
      let balance = a.balance_cached +ℤ amount in
      (
        ok (record (to_record a) { balance = balance_or_sum balance (sum_balance id db') }),
        set_balance a balance db',
      )
]

-- `session.add(Account(...))` and the flush, with no owner.
unfoldable pub add_account : String → Action Account
unfolding new_account insert_account
add_account id db =
    let row = new_account id none "checking" "USD" (pos 0) db in (insert_account row >> pure row) db

-- `create`, for an account with no owner, as the integer service calls it.
unfoldable pub create : Env → String → ℤ → Action AccountRecord
unfolding add_account record_transaction to_record
create env id initial_balance = do
  row ← add_account id
  if eqb_ℤ initial_balance (pos 0)
      then pure (to_record row)
      else record_transaction env id initial_balance "deposit" none
