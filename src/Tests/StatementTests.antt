-- ===== src/Tests/StatementTests.antt =====
-- A customer who skips the wizard, the statement that follows, and the theorems at them.
use e_bank_api.Prelude.{
  All, ◌<◌, eq_false→ne, ℕ, String, ◌≡◌, refl, false, none, some, List, [], ◌∷◌, map, length, ◌≤◌,
  arith,
}
use e_bank_api.Prelude.Int.{pos, ◌+ℤ◌}
use e_bank_api.Prelude.Table.{find, save}
use e_bank_api.Models.{Transaction, Db, Env, ok, get_db, ◌>>=◌}
use e_bank_api.Money.{hundredths}
use e_bank_api.OnboardingAccounts.{resolve_onboarding_account}
use e_bank_api.Applications.{Opening}
use e_bank_api.Completion.{Client}
use e_bank_api.Accounts.{AccountRecord, to_record}
use e_bank_api.Accounts.Mirrored.{IsMirrored, balance_of}
use e_bank_api.Ledger.{get_account, set_balance, add_transaction}
use e_bank_api.DemoBank.{Demo}
use e_bank_api.Presentation.{Presented, present_transaction, type_filter_match}
use e_bank_api.Queries.{TransactionRecord, Query, to_tx_record, of_types}
use e_bank_api.Filters.{query_of, Clerk, types_for_filter, soft_filter}
use e_bank_api.Filters.Types.{types_for_filter-type_filter_match}
use e_bank_api.Queries
use e_bank_api.Queries.{get_transaction_by_public_id, page}
use e_bank_api.Statements.{
  TransactionDetail, detail_of, found_detail, owned_record, get_transaction, present_row,
  list_transactions, Statement, export_max_rows, export_statement, resolve_owned_checking,
}
use e_bank_api.Statements.Closing.{rows_since}
use e_bank_api.Queries.Cursor.{IsStored, newest}
use e_bank_api.Queries.Pager.{read_all, read_all-newest}
use e_bank_api.Queries.{keep_rows, selected, reverse}
use e_bank_api.Filters.{day, start_of}
use e_bank_api.Statements.Running.{since}
use e_bank_api.Onboarding
use e_bank_api.Events
use e_bank_api.Events.{EventIn}
use e_bank_api.Legacy
use e_bank_api.Accounts
use e_bank_api.Users.{upsert, ensure_session, latest_of}
use e_bank_api.Requests.{Bank, committed, start, event, Reach, here, onwards}
use e_bank_api.Requests.Statements.{new_database, reached-IsMirrored, export_statement_reached}
use e_bank_api.Tests.Samples.{env, alice, start as start_tables}
use e_bank_api.Statements.Owned.{IsOwnAccount, get_transaction-IsOwnAccount, listed_rows-IsOf}
use e_bank_api.Tests.CustomerTests.{ascii, numbering, settings, today}

abbrev pub opening : Opening
opening = record {
  texts = ascii;
  upper = λ s. s;
  fromisoformat = λ s. none;
  decimal = λ s. hundredths (pos 1000000);
  welcome_amount = "10000.00";
  numbering = numbering;
  today = today;
}

abbrev pub demo : Demo
demo = record {
  opening = opening;
  max_withdraw_amount = "10000.00";
  max_checking_accounts_per_user = 5;
}

abbrev pub bank : Bank
bank = record { demo = demo; transfers = settings }

abbrev pub one_env : Env
one_env = record env { uuid = λ n. "u" }

abbrev pub browser : Client
browser = record { request_id = some "r1"; source_ip = none; user_agent = none }

-- Dora starts the wizard, and fifty units are deposited on the account that she gets.
abbrev started : Db
started =
    committed (Onboarding.start one_env numbering "dora" none) (new_database (λ s t. false) 100)

abbrev deposit : EventIn
deposit = record { type = "deposit"; origin = none; destination = some "u"; amount = pos 50 }

abbrev paid : Db
paid = committed (Events.event one_env deposit) started

abbrev reached : Reach bank (new_database (λ s t. false) 100) paid
reached = onwards one_env (onwards one_env here (start "dora" none)) (event deposit)

abbrev pub clerk : Clerk
clerk = record {
  shown = record {
    texts = ascii;
    is_space = λ c. false;
    is_digit = λ c. false;
    upper = λ s. s;
    is_preserved = λ s. false;
  };
  fromisoformat = λ s. none;
  midnight = λ d. 0;
  midnight_after = λ d. none;
  at_least = λ s. none;
  at_most = λ s. none;
}

abbrev dora : AccountRecord
dora = record {
  id = "u";
  balance = pos 5000;
  owner_subject = some "dora";
  kind = "checking";
  currency = "USD";
  status = "active";
  overdraft_limit = pos 0;
  account_number = some 1;
  digit = some 7;
  onboarding_status = "in_progress";
}

found_dora : resolve_owned_checking "dora" (some "u") paid ≡ ok dora
unfolding resolve_owned_checking find committed get_db Events.event ◌>>=◌ Legacy.deposit
    Accounts.get_for_update Onboarding.start upsert resolve_onboarding_account ensure_session
    latest_of save Accounts.record_transaction set_balance add_transaction ◌+ℤ◌
found_dora = refl

reached-IsMirrored_example : IsMirrored paid
reached-IsMirrored_example = reached-IsMirrored bank (λ s t. false) 100 paid reached

few_rows : length (rows_since clerk none paid "u") ≤ export_max_rows
unfolding keep_rows day start_of find committed get_db Events.event ◌>>=◌ Legacy.deposit
    Accounts.get_for_update Onboarding.start upsert resolve_onboarding_account ensure_session
    latest_of save Accounts.record_transaction set_balance add_transaction ◌+ℤ◌
few_rows = omega arith

export_statement_reached_example :
    (s : Statement) × (export_statement clerk "dora" (some "u") (since clerk none) paid ≡ ok s)
    × (s.closing_balance ≡ balance_of (get_account "u" paid))
export_statement_reached_example =
    export_statement_reached bank (λ s t. false) 100 paid reached clerk "dora" (some "u") none dora
      found_dora few_rows

types_for_filter-type_filter_match_example :
    of_types (types_for_filter clerk (some "transfer")) "pix_in"
    ≡ type_filter_match clerk.shown "pix_in" (some "transfer")
types_for_filter-type_filter_match_example =
    types_for_filter-type_filter_match clerk "pix_in" (some "transfer") refl

abbrev pub row : ℕ → String → Transaction
row n key = record {
  id = n;
  public_id = key;
  account_id = "u";
  amount = pos n;
  type = "deposit";
  counterparty_account_id = none;
  actor_subject = none;
  request_id = none;
  idempotency_key = none;
  memo = none;
  created_at = n;
}

abbrev rows : List Transaction
rows = row 1 "t1" ∷ row 2 "t2" ∷ row 3 "t3" ∷ []

abbrev three : Db
three = record (new_database (λ s t. false) 100) { transactions = rows }

abbrev everything : Query
everything = record {
  created_from = none;
  created_to = none;
  types = [];
  min_amount = none;
  max_amount = none;
  direction = none;
  chronological = false;
}

three-IsStored : IsStored rows
three-IsStored = record {
  serial = ((omega arith, (omega arith, tt)), ((omega arith, tt), (tt, tt)));
  unique = (
    (eq_false→ne "t2" "t1" refl, (eq_false→ne "t3" "t1" refl, tt)),
    ((eq_false→ne "t3" "t2" refl, tt), (tt, tt)),
  );
  named = (eq_false→ne "t1" "" refl, (eq_false→ne "t2" "" refl, (eq_false→ne "t3" "" refl, tt)));
}

shorter_than_four : length (newest "u" everything three) < 4
unfolding selected reverse
shorter_than_four = omega arith

-- Two rows at a time.
read_all-newest_example :
    read_all 4 2 "u" everything none three ≡ ok (map to_tx_record (newest "u" everything three))
read_all-newest_example =
    read_all-newest "u" everything three 4 1 three-IsStored refl shorter_than_four

-- Alice's account with one deposit.
abbrev pub deposited : Db
deposited = record start_tables { transactions = record (row 1 "t1") { account_id = "a1" } ∷ [] }

abbrev pub deposit_row : TransactionRecord
unfolding to_tx_record
deposit_row = to_tx_record (record (row 1 "t1") { account_id = "a1" })

abbrev pub deposit_detail : TransactionDetail
deposit_detail = detail_of clerk deposited (to_record alice) deposit_row

pub detail_shown : get_transaction clerk "alice" "t1" deposited ≡ ok deposit_detail
unfolding get_transaction found_detail owned_record find get_transaction_by_public_id
detail_shown = refl

get_transaction-IsOwnAccount_example : IsOwnAccount "alice" "a1" deposited
unfolding detail_of present_row present_transaction to_tx_record
get_transaction-IsOwnAccount_example =
    get_transaction-IsOwnAccount clerk "alice" "t1" deposited deposit_detail detail_shown

abbrev listed : List Presented
listed = present_row clerk deposited "USD" deposit_row ∷ []

rows_listed :
    list_transactions clerk "alice" 20 none (some "a1") (since clerk none) deposited ≡ ok listed
unfolding list_transactions resolve_owned_checking owned_record query_of Queries.list_transactions
    page soft_filter find to_record
rows_listed = refl

listed_rows-IsOf_example :
    (a : AccountRecord) × (resolve_owned_checking "alice" (some "a1") deposited ≡ ok a)
    × (a.owner_subject ≡ some "alice")
    × All (λ p. p.account_id ≡ a.id) listed
listed_rows-IsOf_example =
    listed_rows-IsOf clerk "alice" 20 none (some "a1") (since clerk none) deposited listed
      rows_listed
