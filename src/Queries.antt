-- ===== src/Queries.antt =====
-- The queries of app/repositories/account_repository.py, and its removal of all rows.
pub mod Pages
pub mod Newest
pub mod Cursor
pub mod Pager
pub mod Sums
pub mod Owned
use mathlib.Core.Option
use e_bank_api.Prelude.{
  ℕ, zero, suc, ◌+◌, String, ◌==◌, Bool, true, false, not, ◌&&◌, ◌||◌, Option, none, some, List, [],
  ◌∷◌, ◌++◌, map, ltb, leb, is_some, truthy, length, if◌then◌else◌,
}
use e_bank_api.Prelude.Int.{ℤ, pos, ◌+ℤ◌, ltb_ℤ, leb_ℤ}
use e_bank_api.Errors.{Error}
use e_bank_api.Models.{
  Account, LedgerAccount, Transaction, Db, Outcome, ok, err, Action, pure, gets, modify, ◌then◌,
}
use e_bank_api.Ledger.{cash_row, get_account}
use e_bank_api.Accounts.{AccountRecord, to_record}
use e_bank_api.OnboardingAccounts.{is_text, select_ordered}
use e_bank_api.Recipients.{one_or_none}

pub record TransactionRecord : Type 0 where
  pub id : String
  pub internal_id : ℕ
  pub account_id : String
  pub amount : ℤ
  pub type : String
  pub counterparty_account_id : Option String
  pub memo : Option String
  pub created_at : ℕ

-- `_to_tx_record`
unfoldable pub to_tx_record : Transaction → TransactionRecord
to_tx_record t = record {
  id = t.public_id;
  internal_id = t.id;
  account_id = t.account_id;
  amount = t.amount;
  type = t.type;
  counterparty_account_id = t.counterparty_account_id;
  memo = t.memo;
  created_at = t.created_at;
}

abbrev is_owned_kind : String → String → Account → Bool
is_owned_kind subject kind a = is_text a.owner_subject subject && (a.kind == kind)

unfoldable pub list_by_owner_kind : String → String → Db → List AccountRecord
unfolding select_ordered to_record
list_by_owner_kind subject kind db =
    map to_record (select_ordered (is_owned_kind subject kind) db.accounts)

unfoldable pub first : {A : Type 0} → List A → Option A
first [] = none
first (a ∷ rows) = some a

unfoldable pub get_by_owner_kind : String → String → Db → Option AccountRecord
unfolding select_ordered to_record first
get_by_owner_kind subject kind db =
    Option.map to_record (first (select_ordered (is_owned_kind subject kind) db.accounts))

count_if : (Account → Bool) → List Account → ℕ
count_if keep [] = 0
count_if keep (a ∷ rows) = let rest = count_if keep rows in if keep a then suc rest else rest

unfoldable pub count_by_owner_kind : String → String → Db → ℕ
unfolding count_if
count_by_owner_kind subject kind db = count_if (is_owned_kind subject kind) db.accounts

unfoldable pub listed : String → List String → Bool
listed s [] = false
listed s (t ∷ rest) = s == t || listed s rest

-- `get_many`: the accounts among these ids.
unfoldable pub get_many : List String → List Account → List AccountRecord
unfolding to_record listed
get_many ids [] = []
get_many ids (a ∷ rows) =
    let rest = get_many ids rows in if listed a.id ids then to_record a ∷ rest else rest

unfoldable pub keep_rows : (Transaction → Bool) → List Transaction → List Transaction
keep_rows keep [] = []
keep_rows keep (t ∷ rows) = let rest = keep_rows keep rows in if keep t then t ∷ rest else rest

unfoldable pub get_transaction_by_public_id : String → Db → Outcome (Option TransactionRecord)
unfolding keep_rows one_or_none to_tx_record
get_transaction_by_public_id public_id db =
    one_or_none (keep_rows (λ t. t.public_id == public_id) db.transactions) then λ found.
    ok (Option.map to_tx_record found)

unfoldable pub sum_if : (Transaction → Bool) → List Transaction → ℤ
sum_if keep [] = pos 0
sum_if keep (t ∷ rows) = (if keep t then t.amount else pos 0) +ℤ sum_if keep rows

-- The sum of what an account moved strictly before a time.
unfoldable pub sum_amount_before : String → ℕ → Db → ℤ
unfolding sum_if
sum_amount_before id before db =
    sum_if (λ t. t.account_id == id && ltb t.created_at before) db.transactions

-- The filters of `list_transactions`. A bound on amounts is the comparison with its decimal.
pub record Query : Type 0 where
  pub created_from : Option ℕ
  pub created_to : Option ℕ
  pub types : List String
  pub min_amount : Option (ℤ → Bool)
  pub max_amount : Option (ℤ → Bool)
  pub direction : Option String
  pub chronological : Bool

abbrev pub no_earlier : Option ℕ → ℕ → Bool
no_earlier none at = true
no_earlier (some from) at = leb from at

abbrev pub before_end : Option ℕ → ℕ → Bool
before_end none at = true
before_end (some end) at = ltb at end

-- `if types:` is false for an empty list.
abbrev pub of_types : List String → String → Bool
of_types [] type = true
of_types (t ∷ types) type = listed type (t ∷ types)

abbrev pub in_bound : Option (ℤ → Bool) → ℤ → Bool
in_bound none x = true
in_bound (some test) x = test x

abbrev pub in_direction : Option String → ℤ → Bool
in_direction none x = true
in_direction (some d) x =
    if d == "in" then leb_ℤ (pos 0) x else if d == "out" then ltb_ℤ x (pos 0) else true

unfoldable pub matches : Query → Transaction → Bool
unfolding listed
matches q t =
    no_earlier q.created_from t.created_at
    && before_end q.created_to t.created_at
    && of_types q.types t.type
    && in_bound q.min_amount t.amount
    && in_bound q.max_amount t.amount
    && in_direction q.direction t.amount

-- `order_by(Transaction.id)`
unfoldable pub insert_by_id : Transaction → List Transaction → List Transaction
insert_by_id t [] = t ∷ []
insert_by_id t (s ∷ rows) =
    let rest = insert_by_id t rows in if leb t.id s.id then t ∷ s ∷ rows else s ∷ rest

unfoldable pub by_id : List Transaction → List Transaction
unfolding insert_by_id
by_id [] = []
by_id (t ∷ rows) = insert_by_id t (by_id rows)

unfoldable pub reverse : List Transaction → List Transaction
reverse [] = []
reverse (t ∷ rows) = reverse rows ++ t ∷ []

-- `.limit(n)`
unfoldable pub take : {A : Type 0} → ℕ → List A → List A
take zero rows = []
take (suc n) [] = []
take (suc n) (t ∷ rows) = t ∷ take n rows

abbrev pub below_cursor : Option ℕ → ℕ → Bool
below_cursor none n = true
below_cursor (some m) n = ltb n m

unfoldable pub selected : String → Query → Option ℕ → List Transaction → List Transaction
unfolding keep_rows matches
selected id q before rows =
    keep_rows (λ t. t.account_id == id && below_cursor before t.id && matches q t) rows

unfoldable pub page : String → ℕ → Query → Option ℕ → Db → List TransactionRecord
unfolding selected by_id reverse take to_tx_record
page id limit q before db =
    let rows = by_id (selected id q before db.transactions) in
    map to_tx_record (take limit (if q.chronological then rows else reverse rows))

-- A cursor that is no row of the account gives an empty page.
unfoldable pub behind : String → ℕ → Query → Option Transaction → Db → List TransactionRecord
unfolding page
behind id limit q none db = []
behind id limit q (some t) db = page id limit q (some t.id) db

unfoldable pub list_transactions :
    String → ℕ → Option String → Query → Db → Outcome (List TransactionRecord)
unfolding page behind keep_rows one_or_none
list_transactions id limit before q db = elim (truthy before) [
  | none ↦ ok (page id limit q none db)
  | some cursor ↦
      one_or_none (keep_rows (λ t. t.public_id == cursor && (t.account_id == id)) db.transactions)
      then λ found. ok (behind id limit q found db)
]

-- What `my_transactions` (app/api/demo.py) gives as `next_cursor`: the id of the last row.
unfoldable pub next_cursor : List TransactionRecord → Option String
next_cursor [] = none
next_cursor (t ∷ []) = some t.id
next_cursor (t ∷ s ∷ rows) = next_cursor (s ∷ rows)

-- `delete_all`: on PostgreSQL the cash account is put back and identities restart, as the row ids of
-- SQLite do.
unfoldable pub delete_all : Bool → Db → Db
delete_all postgresql db = record db {
  accounts = [];
  ledger_accounts = if postgresql then cash_row ∷ [] else [];
  journal_entries = [];
  ledger_postings = [];
  transactions = [];
  holders = [];
  users = [];
  sessions = [];
  documents = [];
  consents = [];
  next_transaction_id = 1;
}
