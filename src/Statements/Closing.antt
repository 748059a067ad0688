-- ===== src/Statements/Closing.antt =====
-- The closing balance of an exported statement against the account's balance (app/services/demo_service.py,
-- app/repositories/account_repository.py).
use e_bank_api.Prelude.{◌≤◌, String, ◌≡◌, refl, ap, sym, ◌∙◌, true, Option, none, List, map, length}
use e_bank_api.Models.{Transaction, Db, ok}
use e_bank_api.Accounts.{AccountRecord}
use e_bank_api.Accounts.Mirrored.{IsMirrored, balance_of}
use e_bank_api.Ledger.{get_account}
use e_bank_api.Queries
use e_bank_api.Queries.{TransactionRecord, Query, keep_rows, to_tx_record, selected, page}
use e_bank_api.Queries.Pages.{IsSerial}
use e_bank_api.Queries.Sums.{IsTimed, page_whole, selected_due}
use e_bank_api.Filters.{Filters, Clerk, start_of, day, query_of, soft_filter}
use e_bank_api.Statements.{
  Statement, export_max_rows, export_statement, resolve_owned_checking, statement_of,
}
use e_bank_api.Statements.Running.{
  since, since_query, query_of-since, whole, due, running_total-opening_of,
}

export_statement-ok :
    (c : Clerk) (subject : String) (account_id : Option String) (f : Filters) (db : Db)
    (account : AccountRecord) (q : Query) (rows : List TransactionRecord)
    → resolve_owned_checking subject account_id db ≡ ok account
    → query_of c f true ≡ ok q
    → Queries.list_transactions account.id export_max_rows none q db ≡ ok rows
    → export_statement c subject account_id f db
      ≡ ok (statement_of c subject f account q (soft_filter c f.tx_type q.types rows) db)
unfolding export_statement
export_statement-ok c subject account_id f db account q rows owned query listed =
    rw (owned, query, listed) refl

module _ (c : Clerk) (date_from : Option String) (db : Db) where
  -- The rows of an account from that day on.
  abbrev pub rows_since : String → List Transaction
  rows_since id = keep_rows (due c id (start_of c (day c date_from))) db.transactions

  all_rows :
      (id : String)
      → IsSerial db.transactions
      → length (rows_since id) ≤ export_max_rows
      → Queries.list_transactions id export_max_rows none (since_query c date_from) db
        ≡ ok (map to_tx_record (rows_since id))
  unfolding Queries.list_transactions
  all_rows id serial le =
      let due_rows =
        selected_due id (since_query c date_from) db.transactions (whole c date_from) in
      ap ok (
        page_whole id export_max_rows (since_query c date_from) db (whole c date_from) serial
          (rw due_rows le)
        ∙ ap (map to_tx_record) due_rows)

  pub export_statement_closing :
      (subject : String) (account_id : Option String) (account : AccountRecord)
      → resolve_owned_checking subject account_id db ≡ ok account
      → IsSerial db.transactions
      → IsTimed db.transactions
      → IsMirrored db
      → length (rows_since account.id) ≤ export_max_rows
      → (s : Statement) × (export_statement c subject account_id (since c date_from) db ≡ ok s)
        × (s.closing_balance ≡ balance_of (get_account account.id db))
  unfolding statement_of soft_filter
  export_statement_closing subject account_id account owned serial timed mirrored le = (
    statement_of c subject (since c date_from) account (since_query c date_from)
        (map to_tx_record (rows_since account.id)) db,
    export_statement-ok c subject account_id (since c date_from) db account
        (since_query c date_from) (map to_tx_record (rows_since account.id)) owned
        (query_of-since c date_from) (all_rows account.id serial le),
    running_total-opening_of c account.id (start_of c (day c date_from)) db timed
        ∙ sym (mirrored account.id),
  )
