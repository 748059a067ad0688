-- ===== src/Requests/Statements.antt =====
-- Statements of a bank that any requests have led to (app/services/demo_service.py).
use e_bank_api.Prelude.{Bool, ℕ, ◌≤◌, String, ◌≡◌, refl, Option, none, [], ◌∷◌, length}
use e_bank_api.Models.{OnboardingSession, Db, ok}
use e_bank_api.Prelude.Table.{find}
use e_bank_api.Ledger.{cash_row, get_account}
use e_bank_api.Accounts.{AccountRecord, sum_balance}
use e_bank_api.Accounts.Mirrored.{IsMirrored, balance_of}
use e_bank_api.Routine.{Routine-IsMirrored}
use e_bank_api.Filters.{Clerk}
use e_bank_api.Statements.{Statement, export_max_rows, export_statement, resolve_owned_checking}
use e_bank_api.Statements.Running.{since}
use e_bank_api.Statements.Closing.{rows_since, export_statement_closing}
use e_bank_api.Requests.{Bank, Reach}
use e_bank_api.Requests.Reachable.{Reach_kept}
use e_bank_api.Requests.Ordered.{IsOrdered, Routine-IsOrdered, wait-IsOrdered}

-- The database behind the migrations: the bank's cash account and nothing else.
abbrev pub new_database : (OnboardingSession → OnboardingSession → Bool) → ℕ → Db
new_database sessions_first now = record {
  accounts = [];
  ledger_accounts = cash_row ∷ [];
  journal_entries = [];
  ledger_postings = [];
  transactions = [];
  holders = [];
  users = [];
  sessions = [];
  sessions_first = sessions_first;
  documents = [];
  consents = [];
  next_transaction_id = 1;
  drawn = 0;
  now = now;
  account_number_pending = none;
}

module _ (b : Bank) (first : OnboardingSession → OnboardingSession → Bool) (now : ℕ) (db : Db)
    (reached : Reach b (new_database first now) db) where
  -- Whatever requests are served, from a new database on: the cached balance of every id, none
  -- counting as zero, is the sum of its transactions.
  pub reached-IsMirrored : IsMirrored db
  unfolding sum_balance find
  reached-IsMirrored =
      Reach_kept Routine-IsMirrored (λ d n later h. h) (λ d h. h) b (new_database first now) db
        reached (λ id. refl)

  -- Whatever requests are served, from a new database on: the ids of the transactions grow along
  -- the table and stay below the next one, and their times never fall along it and are none past
  -- the clock.
  pub reached-IsOrdered : IsOrdered db
  reached-IsOrdered =
      Reach_kept Routine-IsOrdered wait-IsOrdered (λ d h. h) b (new_database first now) db reached
        (tt, tt, tt, tt)

  -- Of a bank that any requests have led to from a new database: where a customer's own checking
  -- account is named, or found, and it has no more rows from the day asked for than an export
  -- takes, the export filtered by that day alone gives a statement, and its closing balance is
  -- the account's balance.
  pub export_statement_reached :
      (c : Clerk) (subject : String) (account_id date_from : Option String)
      (account : AccountRecord)
      → resolve_owned_checking subject account_id db ≡ ok account
      → length (rows_since c date_from db account.id) ≤ export_max_rows
      → (s : Statement) × (export_statement c subject account_id (since c date_from) db ≡ ok s)
        × (s.closing_balance ≡ balance_of (get_account account.id db))
  export_statement_reached c subject account_id date_from account owned le =
      let (serial, timed, _, _) = reached-IsOrdered in
      export_statement_closing c date_from db subject account_id account owned serial timed
        reached-IsMirrored le
