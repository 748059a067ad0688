-- ===== src/Ledger.antt =====
-- app/services/ledger.py: the append-only double-entry ledger. The proofs are in the children.
pub mod Checks
pub mod Mirror
pub mod Post
pub mod Balances
pub mod Mirrored
pub mod Kept
pub mod Transfer
pub mod Replay
use Prim.Native.String.{◌++◌ as concat}
use e_bank_api.Prelude.{
  ℕ, ◌+◌, String, ◌==◌, Bool, true, false, not, ◌&&◌, ◌||◌, Option, none, some, List, [], ◌∷◌, ◌++◌,
  map, length, truthy, is_some, ltb, if◌then◌else◌,
}
use e_bank_api.Prelude.Int.{ℤ, pos, ◌+ℤ◌, ◌-ℤ◌, ltb_ℤ, leb_ℤ, eqb_ℤ}
use e_bank_api.Prelude.Table.{find, save}
use e_bank_api.Errors.{
  Error, insufficient_funds, ledger_error, idempotent_replay, integrity_error, pending_rollback,
}
use e_bank_api.Models.{
  Account, LedgerAccount, JournalEntry, Side, debit, credit, other_side, LedgerPosting, Transaction,
  Db, Env, Outcome, ok, err, Action, pure, raise, gets, ◌>>=◌, ◌>>◌, raise_if, modify, lift,
  new_uuid,
}

abbrev pub sys_cash_id : String
sys_cash_id = "sys_cash"

pub record PostingLine : Type 0 where
  pub ledger_account_id : String
  pub side : Side
  pub amount : ℤ

-- The keyword arguments that every call of `post` hands on.
pub record Audit : Type 0 where
  pub actor_subject : Option String
  pub request_id : Option String
  pub idempotency_key : Option String
  pub source_ip : Option String
  pub user_agent : Option String
  pub reason : Option String

abbrev pub account_key : Account → String
account_key a = a.id

abbrev pub ledger_account_key : LedgerAccount → String
ledger_account_key l = l.id

abbrev pub get_account : String → Db → Option Account
get_account id db = find account_key id db.accounts

abbrev pub get_ledger_account : String → Db → Option LedgerAccount
get_ledger_account id db = find ledger_account_key id db.ledger_accounts

add_ledger_account : LedgerAccount → Db → Db
add_ledger_account row db = record db { ledger_accounts = db.ledger_accounts ++ row ∷ [] }

unfoldable pub ensure_ledger_account : LedgerAccount → Db → Db
unfolding add_ledger_account
ensure_ledger_account row db = elim (get_ledger_account row.id db) [
  | none ↦ add_ledger_account row db
  | some _ ↦ db
]

abbrev pub cash_row : LedgerAccount
cash_row = record { id = sys_cash_id; code = "cash"; kind = "asset" }

unfoldable pub ensure_system_accounts : Action (Unit {0})
unfolding ensure_ledger_account
ensure_system_accounts = modify (ensure_ledger_account cash_row)

abbrev pub customer_row : Account → LedgerAccount
customer_row account = record {
  id = account.id;
  code = concat "customer:" account.id;
  kind = "liability";
}

unfoldable pub ensure_customer_ledger_account : Account → Action (Unit {0})
unfolding ensure_system_accounts ensure_ledger_account
ensure_customer_ledger_account account = do
  ensure_system_accounts
  modify (ensure_ledger_account (customer_row account))

-- `case((side == "credit", amount), else_=0)` and its sum over the rows of one ledger account
abbrev pub on_side : Side → Side → ℤ → ℤ
on_side debit debit amount = amount
on_side credit credit amount = amount
on_side _ _ amount = pos 0

unfoldable pub posted : Side → String → List LedgerPosting → ℤ
posted side id [] = pos 0
posted side id (p ∷ rows) =
    (if p.ledger_account_id == id then on_side side p.side p.amount else pos 0)
    +ℤ posted side id rows

-- credits - debits
unfoldable pub customer_balance : String → Db → ℤ
unfolding posted
customer_balance id db = posted credit id db.ledger_postings -ℤ posted debit id db.ledger_postings

-- The sum of the amounts of the lines on one side.
unfoldable pub side_total : Side → List PostingLine → ℤ
side_total side [] = pos 0
side_total side (l ∷ lines) = on_side side l.side l.amount +ℤ side_total side lines

-- The body of the checking loop, over what the later lines give.
check_line : Side → ℤ → Outcome (Unit {0}) → Outcome (Unit {0})
check_line (other_side _) amount rest = err (ledger_error "invalid posting side")
check_line _ amount rest =
    if leb_ℤ amount (pos 0) then err (ledger_error "posting amount must be positive") else rest

unfoldable pub check_each : List PostingLine → Outcome (Unit {0})
unfolding check_line
check_each [] = ok tt
check_each (l ∷ lines) = check_line l.side l.amount (check_each lines)

unfoldable pub check_lines : List PostingLine → Outcome (Unit {0})
unfolding side_total check_each
check_lines lines =
    if ltb (length lines) 2
    then err (ledger_error "journal requires at least two postings")
    else if not (eqb_ℤ (side_total debit lines) (side_total credit lines))
    then err (ledger_error "journal is not balanced")
    else if leb_ℤ (side_total debit lines) (pos 0)
    then err (ledger_error "journal amount must be positive")
    else check_each lines

-- `select(JournalEntry).where(idempotency_key == k)`
unfoldable pub journal_by_key : String → List JournalEntry → Option JournalEntry
journal_by_key k [] = none
journal_by_key k (j ∷ rows) =
    let rest = journal_by_key k rows in
    elim j.idempotency_key [ none ↦ rest | some i ↦ if i == k then some j else rest ]

unfoldable pub replay_of : Option JournalEntry → Action (Unit {0})
replay_of none = pure tt
replay_of (some j) = raise (idempotent_replay j.id)

-- The lookup at the head of `post`, made when the key is true.
unfoldable pub check_replay : Option String → Action (Unit {0})
unfolding replay_of journal_by_key
check_replay none = pure tt
check_replay (some k) = λ db. replay_of (journal_by_key k db.journal_entries) db

-- The journal that holds this key when the insert is flushed, by the unique constraint of
-- `journal_entries.idempotency_key`.
unfoldable pub key_holder : Env → Option String → Db → Option String
unfolding journal_by_key
key_holder env none db = none
key_holder env (some k) db = elim (journal_by_key k db.journal_entries) [
  | none ↦ env.raced k
  | some j ↦ some j.id
]

-- The handler of the flush's IntegrityError. Under a key it queries the session, on which SQLAlchemy
-- raises PendingRollbackError between a failed flush and the rollback, which the handler does not do.
unfoldable pub after_conflict : Option String → Error
after_conflict none = integrity_error
after_conflict (some _) = pending_rollback

unfoldable pub insert_journal : Env → JournalEntry → Action (Unit {0})
unfolding key_holder after_conflict
insert_journal env j db = elim (key_holder env j.idempotency_key db) [
  | none ↦ (ok tt, record db { journal_entries = db.journal_entries ++ j ∷ [] })
  | some _ ↦ (err (after_conflict (truthy j.idempotency_key)), db)
]

-- The foreign key of `ledger_postings.ledger_account_id`, for every new row.
unfoldable pub all_known : List PostingLine → List LedgerAccount → Bool
all_known [] rows = true
all_known (l ∷ lines) rows =
    is_some (find ledger_account_key l.ledger_account_id rows) && all_known lines rows

unfoldable pub posting_row : String → PostingLine → LedgerPosting
posting_row journal_id l = record {
  journal_id = journal_id;
  ledger_account_id = l.ledger_account_id;
  side = l.side;
  amount = l.amount;
}

unfoldable pub insert_postings : String → List PostingLine → Action (Unit {0})
unfolding all_known posting_row
insert_postings journal_id lines db =
    if all_known lines db.ledger_accounts
    then (
      ok tt,
      record db { ledger_postings = db.ledger_postings ++ map (posting_row journal_id) lines },
    )
    else (err integrity_error, db)

-- `line.amount if line.side == "credit" else -line.amount`
signed : Side → ℤ → ℤ
signed credit amount = amount
signed _ amount = pos 0 -ℤ amount

unfoldable pub delta : PostingLine → ℤ
unfolding signed
delta l = signed l.side l.amount

-- The type of the mirrored row.
unfoldable pub txn_type : String → Side → String
txn_type entry_type side =
    if entry_type == "welcome_grant"
    then "demo_grant"
    else if entry_type == "transfer"
    then elim side [ debit ↦ "transfer_out" | _ ↦ "transfer_in" ]
    else entry_type

-- The first other line's account that is not the bank's cash.
unfoldable pub counterparty : String → List PostingLine → Option String
counterparty id [] = none
counterparty id (l ∷ lines) =
    if not (l.ledger_account_id == id) && not (l.ledger_account_id == sys_cash_id)
    then some l.ledger_account_id
    else counterparty id lines

-- The keyword arguments of `post`.
pub record PostArgs : Type 0 where
  pub entry_type : String
  pub lines : List PostingLine
  pub audit : Audit
  pub mirror_transactions : Bool

unfoldable pub mirror_row : Env → PostArgs → PostingLine → Db → Transaction
unfolding txn_type counterparty delta
mirror_row env m l db = record {
  id = db.next_transaction_id;
  public_id = env.uuid db.drawn;
  account_id = l.ledger_account_id;
  amount = delta l;
  type = txn_type m.entry_type l.side;
  counterparty_account_id =
      if m.entry_type == "transfer" then counterparty l.ledger_account_id m.lines else none;
  actor_subject = m.audit.actor_subject;
  request_id = m.audit.request_id;
  idempotency_key = m.audit.idempotency_key;
  memo = m.audit.reason;
  created_at = db.now;
}

-- Insert a row: the autoincrement and the default of `public_id` are taken at the flush.
unfoldable pub add_transaction : Transaction → Db → Db
add_transaction t db = record db {
  transactions = db.transactions ++ t ∷ [];
  next_transaction_id = db.next_transaction_id + 1;
  drawn = db.drawn + 1;
}

unfoldable pub set_balance : Account → ℤ → Db → Db
set_balance a balance db = record db {
  accounts = save account_key (record a { balance_cached = balance }) db.accounts;
}

-- One round of the loop that keeps the cached balances and the old transactions in step.
unfoldable pub mirror_line : Env → PostArgs → PostingLine → Db → Db
unfolding mirror_row add_transaction set_balance
mirror_line env m l db =
    if l.ledger_account_id == sys_cash_id then db else elim (get_account l.ledger_account_id db) [
      | none ↦ db
      | some a ↦
          let db' = set_balance a (a.balance_cached +ℤ delta l) db in
          if m.mirror_transactions then add_transaction (mirror_row env m l db') db' else db'
    ]

unfoldable pub mirror_lines : Env → PostArgs → List PostingLine → Db → Db
unfolding mirror_line
mirror_lines env m [] db = db
mirror_lines env m (l ∷ lines) db = mirror_lines env m lines (mirror_line env m l db)

unfoldable pub journal_row : PostArgs → String → Db → JournalEntry
journal_row m id db = record {
  id = id;
  created_at = db.now;
  actor_subject = m.audit.actor_subject;
  request_id = m.audit.request_id;
  idempotency_key = m.audit.idempotency_key;
  source_ip = m.audit.source_ip;
  user_agent = m.audit.user_agent;
  entry_type = m.entry_type;
  reason = m.audit.reason;
}

-- Everything of `post` behind the checks.
unfoldable pub write_journal : Env → PostArgs → Action JournalEntry
unfolding journal_row insert_journal insert_postings mirror_lines new_uuid
write_journal env m = do
  id ← new_uuid env
  journal ← gets (journal_row m id)
  insert_journal env journal
  insert_postings id m.lines
  modify (mirror_lines env m m.lines)
  pure journal

unfoldable pub post : Env → PostArgs → Action JournalEntry
post env m = do
  check_replay (truthy m.audit.idempotency_key)
  lift (check_lines m.lines)
  write_journal env m

abbrev pub line : String → Side → ℤ → PostingLine
line id side amount = record { ledger_account_id = id; side = side; amount = amount }

unfoldable pub welcome_grant : Env → Account → ℤ → Audit → Action JournalEntry
welcome_grant env account amount audit = do
  ensure_customer_ledger_account account
  post env (record {
    entry_type = "welcome_grant";
    lines = line sys_cash_id debit amount ∷ line account.id credit amount ∷ [];
    audit = record audit { reason = some "Welcome demo funds" };
    mirror_transactions = true;
  })

unfoldable pub transfer : Env → Account → Account → ℤ → Audit → Action JournalEntry
transfer env origin destination amount audit = do
  ensure_customer_ledger_account origin
  ensure_customer_ledger_account destination
  raise_if (ltb_ℤ (origin.balance_cached -ℤ amount) origin.overdraft_limit)
      (insufficient_funds origin.id)
  post env (record {
    entry_type = "transfer";
    lines = line origin.id debit amount ∷ line destination.id credit amount ∷ [];
    audit = audit;
    mirror_transactions = true;
  })

unfoldable pub withdraw : Env → Account → ℤ → Audit → Action JournalEntry
withdraw env account amount audit = do
  ensure_customer_ledger_account account
  raise_if (ltb_ℤ (account.balance_cached -ℤ amount) account.overdraft_limit)
      (insufficient_funds account.id)
  post env (record {
    entry_type = "withdraw";
    lines = line account.id debit amount ∷ line sys_cash_id credit amount ∷ [];
    audit = record audit { reason = some "Demo ATM withdraw" };
    mirror_transactions = true;
  })
