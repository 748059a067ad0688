-- ===== src/Models/Rows.antt =====
-- app/models: accounts, ledger, transactions, holders, users, onboarding.
use e_bank_api.Prelude.{Bool, ℕ, String, Option, List}
use e_bank_api.Prelude.Int.{ℤ}
use e_bank_api.Json.{Fields}

pub record Account : Type 0 where
  pub id : String
  pub owner_subject : Option String
  pub kind : String
  pub currency : String
  pub status : String
  pub onboarding_status : String
  pub account_number : Option ℕ
  pub digit : Option ℕ
  pub balance_cached : ℤ
  pub overdraft_limit : ℤ
  pub created_at : ℕ

pub record LedgerAccount : Type 0 where
  pub id : String
  pub code : String
  pub kind : String

pub record JournalEntry : Type 0 where
  pub id : String
  pub created_at : ℕ
  pub actor_subject : Option String
  pub request_id : Option String
  pub idempotency_key : Option String
  pub source_ip : Option String
  pub user_agent : Option String
  pub entry_type : String
  pub reason : Option String

-- The column `side` is a text; the service compares it with two literals.
pub data Side : Type 0 where
  debit credit : Side
  other_side : String → Side

pub record LedgerPosting : Type 0 where
  pub journal_id : String
  pub ledger_account_id : String
  pub side : Side
  pub amount : ℤ

pub record Transaction : Type 0 where
  pub id : ℕ
  pub public_id : String
  pub account_id : String
  pub amount : ℤ
  pub type : String
  pub counterparty_account_id : Option String
  pub actor_subject : Option String
  pub request_id : Option String
  pub idempotency_key : Option String
  pub memo : Option String
  pub created_at : ℕ

pub record Holder : Type 0 where
  pub subject : String
  pub full_name : String
  pub birth_date : Option (ℕ × ℕ × ℕ)
  pub document_type : Option String
  pub document_number : Option String
  pub cep : Option String
  pub street : Option String
  pub number : Option String
  pub complement : Option String
  pub neighborhood : Option String
  pub city : Option String
  pub state : Option String
  pub email : Option String
  pub phone : Option String

pub record User : Type 0 where
  pub subject : String
  pub email : Option String
  pub display_name : Option String

pub record OnboardingSession : Type 0 where
  pub id : String
  pub subject : String
  pub account_id : String
  pub status : String
  pub skipped_at : Option ℕ
  pub completed_at : Option ℕ
  pub created_at : ℕ

pub record OnboardingDocument : Type 0 where
  pub id : String
  pub session_id : String
  pub doc_type : String
  pub pde_extraction_id : Option String
  pub status : String
  pub summary_json : Option Fields

pub record Consent : Type 0 where
  pub subject : String
  pub policy_version : String

-- The tables, each in insertion order. `next_transaction_id` is the autoincrement of
-- `transactions.id`, `drawn` counts the identifiers taken from `new_uuid`, `now` is the database's
-- clock during the request, `account_number_pending` is the entry of `session.info`.
pub record Db : Type 0 where
  pub accounts : List Account
  pub ledger_accounts : List LedgerAccount
  pub journal_entries : List JournalEntry
  pub ledger_postings : List LedgerPosting
  pub transactions : List Transaction
  pub holders : List Holder
  pub users : List User
  pub sessions : List OnboardingSession
  -- Whether the first of two sessions of one time is first in a query ordered by time.
  pub sessions_first : OnboardingSession → OnboardingSession → Bool
  pub documents : List OnboardingDocument
  pub consents : List Consent
  pub next_transaction_id : ℕ
  pub drawn : ℕ
  pub now : ℕ
  pub account_number_pending : Option ℕ
