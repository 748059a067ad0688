-- ===== src/Routes.antt =====
-- app/api/demo.py, app/api/legacy.py and app/api/health.py: the routes, each with what it asks of the
-- request, and the service that it calls in its database session. FastAPI's routing, which picks the
-- function and parses its parameters, is left to the type `Call`.
pub mod Answers
pub mod Serve
pub mod Within
pub mod Steps
pub mod Undone
pub mod Atomic
pub mod Limited
use e_bank_api.Prelude.{
  ℕ, String, Bool, true, false, not, Option, none, some, List, [], ◌∷◌, map, is_some, truthy,
  if◌then◌else◌,
}
use e_bank_api.Prelude.Int.{ℤ}
use e_bank_api.Errors.{Error, http_exception, rate_limit_exceeded}
use e_bank_api.Models.{
  Db, Env, Outcome, ok, err, Exec, Action, pure, raise, lift, raise_if, ◌>>=◌, ◌>>◌, get_db,
}
use e_bank_api.Auth.{Principal, Oidc, Headers, require_authenticated_bank_write, require_bank_write}
use e_bank_api.RateLimit.{Counters, Limits, allow}
use e_bank_api.Requests.{Bank}
use e_bank_api.Completion
use e_bank_api.Completion.{Client, DemoAccountView}
use e_bank_api.Onboarding
use e_bank_api.Onboarding.{OnboardingStatus}
use e_bank_api.Filters.{Clerk, Filters}
use e_bank_api.Presentation.{Presented}
use e_bank_api.Statements
use e_bank_api.Statements.{Statement, TransactionDetail}
use e_bank_api.DemoBank
use e_bank_api.DemoBank.{Withdrawn}
use e_bank_api.Transfers
use e_bank_api.Transfers.{TransferArgs, TransferView, require_onboarded_account}
use e_bank_api.Recipients.{ResolvedRecipient, resolve}
use e_bank_api.Events
use e_bank_api.Events.{EventIn, EventOut}
use e_bank_api.Legacy
use e_bank_api.Schemas.{
  TransferIn, TransferResolveIn, OnboardingDocumentIn, OnboardingCompleteIn, DemoMetaOut,
  DemoAccountOut, is_valid_transfer, is_valid_resolve, is_valid_consent, is_valid_document,
  is_valid_application,
}
use e_bank_api.Receipts.{Bucket, Files, get_receipt_pdf}
use e_bank_api.StatementFiles.{Sheet, build_statement_csv}
use e_bank_api.PostalCodes.{Reply, Address, lookup}

-- What the routes take of the running application: settings, the limiter of `app.state`, whether the
-- database answers `check_database_connection`, the HTTP client, `str` of a whole
-- number, and how files are made.
pub record Service : Type 0 where
  pub bank : Bank
  pub oidc : Oidc
  pub clerk : Clerk
  pub demo_disclaimer : String
  pub rate_limit_enabled : Bool
  pub rate_limit_window_seconds : ℕ
  pub rate_limiter : Option Limits
  pub idempotency_enabled : Bool
  pub mount_legacy : Bool
  pub reset_allowed : Bool
  pub postgresql : Bool
  pub database_up : Bool
  pub get_cep : String → Option Reply
  pub show : ℤ → String
  pub files : Files
  pub sheet : Sheet

-- What a request brings beside the parameters of its route; a header that is missing is `none`.
pub record Incoming : Type 0 where
  pub auth : Headers
  pub kalke_client_ip : Option String
  pub client_host : Option String
  pub kalke_user_agent : Option String
  pub user_agent : Option String
  pub request_id : Option String
  pub idempotency_key : Option String

-- A request for one of the routes, with its parameters as FastAPI parses them.
pub data Call : Type 0 where
  health ready demo_meta bootstrap my_account my_accounts open_account : Call
  my_account_detail : String → Call
  my_transactions : ℕ → Option String → Option String → Filters → Call
  my_transaction_detail receipt cep_lookup : String → Call
  export_csv export_pdf : Option String → Filters → Call
  transfer_resolve : TransferResolveIn → Call
  transfer : TransferIn → Call
  withdraw : String → Call
  onboarding_status onboarding_start onboarding_skip : Option String → Call
  onboarding_consent : String → Call
  onboarding_documents : OnboardingDocumentIn → Call
  onboarding_complete : OnboardingCompleteIn → Call
  reset : Call
  balance : String → Call
  event : EventIn → Call

-- What `TransferService.resolve` shows of a recipient.
pub record RecipientOut : Type 0 where
  pub account_id : String
  pub account_display : String
  pub holder_name : String
  pub document_masked : Option String

pub data Answer : Type 0 where
  is_healthy : Answer
  readiness : Bool → Bool → Answer
  meta : DemoMetaOut → Answer
  account : DemoAccountOut → Answer
  accounts : List DemoAccountOut → Answer
  page : List Presented → Option String → Answer
  detail : TransactionDetail → Answer
  receipt_file : String → String → Answer
  csv_file : String → Answer
  pdf_file : Statement → Answer
  recipient : RecipientOut → Answer
  transferred : TransferView → Answer
  withdrawn : Withdrawn → Answer
  address : Address → Answer
  wizard : OnboardingStatus → Answer
  consented : String → Answer
  text : String → Answer
  moved : EventOut → Answer

-- The database, the counters of the limiter in Redis, and the bucket of receipts in S3.
pub record Backend : Type 0 where
  pub db : Db
  pub counters : Counters
  pub receipts : Bucket

-- A service call in the scope of `get_db`; the session's pending account number ends with it.
unfoldable pub in_session : {A : Type 0} → Action A → Exec Backend A
unfolding get_db
in_session m s =
    let (r, db) = get_db m s.db in
    (r, record s { db = record db { account_number_pending = none } })

-- A service call that only reads.
unfoldable pub reading : {A : Type 0} → (Db → Outcome A) → Exec Backend A
reading f s = (f s.db, s)

abbrev pub on_counters : {A : Type 0} → Exec Counters A → Exec Backend A
on_counters m s = let (r, counters) = m s.counters in (r, record s { counters = counters })

-- A service call that reads the database and works on the bucket.
unfoldable pub on_receipts : {A : Type 0} → (Db → Exec Bucket A) → Exec Backend A
on_receipts f s = let (r, receipts) = f s.db s.receipts in (r, record s { receipts = receipts })

-- `a or b`
unfoldable pub or_else : Option String → Option String → Option String
or_else x y = elim (truthy x) [ none ↦ y | some s ↦ some s ]

-- `_client_meta`, with the id of the request
unfoldable pub client_of : Incoming → Client
unfolding or_else
client_of q = record {
  request_id = q.request_id;
  source_ip = or_else q.kalke_client_ip q.client_host;
  user_agent = or_else q.kalke_user_agent q.user_agent;
}

-- `_demo_account_out`
unfoldable pub demo_account_out : DemoAccountView → DemoAccountOut
demo_account_out v = record {
  id = v.id;
  balance = v.balance;
  currency = v.currency;
  kind = v.kind;
  status = v.status;
  onboarding_status = v.onboarding_status;
  demo_credited = v.demo_credited;
  demo = true;
  account_number = v.account_number;
  digit = v.digit;
  display_number = v.display_number;
  holder_name = v.holder_name;
}

-- `items[-1]["id"] if items else None`
unfoldable pub last_shown : List Presented → Option String
last_shown [] = none
last_shown (t ∷ []) = some t.id
last_shown (t ∷ u ∷ rows) = last_shown (u ∷ rows)

-- FastAPI answers a body that is not valid with 422.
unfoldable pub accepted : Bool → Exec Backend (Unit {0})
accepted b = raise_if (not b) (http_exception 422)

unfoldable pub transfer_args : Incoming → TransferIn → TransferArgs
unfolding client_of
transfer_args q b = record {
  amount = b.amount;
  source_account_id = b.source_account_id;
  destination_account_id = b.destination_account_id;
  destination_account = b.destination_account;
  destination_document = b.destination_document;
  memo = b.memo;
  request_id = q.request_id;
  idempotency_key = q.idempotency_key;
  source_ip = (client_of q).source_ip;
  user_agent = (client_of q).user_agent;
}

unfoldable pub recipient_out : ResolvedRecipient → RecipientOut
recipient_out r = record {
  account_id = r.account_id;
  account_display = r.account_display;
  holder_name = r.holder_name;
  document_masked = r.document_masked;
}

-- `principal.email or None`
abbrev pub email_of : Principal → Option String
email_of p = truthy (some p.email)

abbrev pub features : List String
features =
    "welcome_grant" ∷ "onboarding_wizard" ∷ "skippable_due_diligence" ∷ "multiple_checking_accounts"
    ∷ "transfer" ∷ "transfer_resolve" ∷ "withdraw" ∷ "transaction_history" ∷ "statement_export"
    ∷ "transaction_receipt" ∷ "double_entry_ledger" ∷ []
