-- ===== src/Onboarding.antt =====
-- app/services/onboarding_service.py: the wizard's state of an account, its documents and consents.
pub mod Redaction
pub mod Kept
pub mod Started
use e_bank_api.Prelude.{
  String, ◌==◌, Bool, true, false, not, ◌&&◌, ◌||◌, Option, none, some, List, [], ◌∷◌, is_some,
  truthy, if◌then◌else◌,
}
use e_bank_api.Prelude.Table.{find, save}
use e_bank_api.Errors.{Error, onboarding_error, onboarding_not_started}
use e_bank_api.Models.{
  Account, Holder, OnboardingSession, OnboardingDocument, Db, Env, Outcome, ok, err, Action, pure,
  raise, gets, ◌>>=◌, ◌>>◌, raise_if, modify,
}
use e_bank_api.Json.{
  Value, null, bool, int, float, str, arr, obj, Fields, end, field, lower_in, redacted,
}
use e_bank_api.Ledger.{account_key, get_account}
use e_bank_api.OnboardingAccounts.{Numbering, resolve_onboarding_account}
use e_bank_api.Recipients.{holder_key}
use e_bank_api.Users.{
  upsert, latest_session, ensure_session, add_document, list_documents, record_consent,
}

abbrev pub tos_policy : String
tos_policy = "demo-bank-tos-v1"

abbrev pub dd_policy : String
dd_policy = "demo-dd-v1"

abbrev pub dd_skip_policy : String
dd_skip_policy = "demo-dd-skip-v1"

pub record OnboardingStatus : Type 0 where
  pub onboarding_status : String
  pub account_id : Option String
  pub session_id : Option String
  pub session_status : Option String
  pub documents : List OnboardingDocument
  pub holder : Option Holder

-- `_redact_summary`'s own list of keys
abbrev pub summary_keys : List String
summary_keys = "cpf" ∷ "cnpj" ∷ "rg" ∷ "document_number" ∷ "numero_documento" ∷ "card_number" ∷ []

-- Dicts in dicts are redacted too, dicts in lists are not.
unfoldable mutual
  pub redact_value : Value → Value
  redact_value (obj d) = obj (redact_summary d)
  redact_value null = null
  redact_value (bool b) = bool b
  redact_value (int n) = int n
  redact_value (float t) = float t
  redact_value (str s) = str s
  redact_value (arr items) = arr items

  pub redact_summary : Fields → Fields
  redact_summary end = end
  redact_summary (field k v rest) =
      let value = redact_value v in
      let others = redact_summary rest in
      field k (if lower_in k summary_keys then redacted else value) others

-- An empty summary is false, and stays `None`.
unfoldable pub safe_summary : Option Fields → Option Fields
unfolding redact_summary
safe_summary none = none
safe_summary (some end) = none
safe_summary (some (field k v rest)) = some (redact_summary (field k v rest))

abbrev pub get_holder : String → Db → Option Holder
get_holder subject db = find holder_key subject db.holders

-- A field of the row of an account, set on the object that the session holds.
unfoldable pub set_onboarding_status : String → String → Db → Db
set_onboarding_status id status db = elim (get_account id db) [
  | none ↦ db
  | some a ↦ record db {
    accounts = save account_key (record a { onboarding_status = status }) db.accounts;
  }
]

unfoldable pub empty_status : String → Db → OnboardingStatus
empty_status subject db = record {
  onboarding_status = "not_started";
  account_id = none;
  session_id = none;
  session_status = none;
  documents = [];
  holder = get_holder subject db;
}

documents_of : Option OnboardingSession → Db → List OnboardingDocument
documents_of none db = []
documents_of (some s) db = list_documents s.id db.documents

session_field : (OnboardingSession → String) → Option OnboardingSession → Option String
session_field f none = none
session_field f (some s) = some (f s)

unfoldable pub status_text : String → Option Account → String
status_text default none = default
status_text default (some a) = a.onboarding_status

-- `_status_for`: the account is the object that the session holds, so its row is read.
unfoldable pub status_for : String → Account → Db → OnboardingStatus
unfolding documents_of session_field status_text
status_for subject account db =
    let session = latest_session subject account.id db in
    record {
      onboarding_status = status_text account.onboarding_status (get_account account.id db);
      account_id = some account.id;
      session_id = session_field (λ s. s.id) session;
      session_status = session_field (λ s. s.status) session;
      documents = documents_of session db;
      holder = get_holder subject db;
    }

-- `except OnboardingNotStarted`
unfoldable pub on_resolved : String → Outcome Account → Action OnboardingStatus
unfolding empty_status status_for
on_resolved subject (ok account) = gets (status_for subject account)
on_resolved subject (err onboarding_not_started) = gets (empty_status subject)
on_resolved subject (err e) = raise e

unfoldable pub resolved_status : Env → Numbering → String → Option String → Action OnboardingStatus
unfolding on_resolved
resolved_status env numbering subject account_id db =
    let (result, db') = resolve_onboarding_account env numbering subject account_id false db in
    on_resolved subject result db'

unfoldable pub get_status : Env → Numbering → String → Option String → Action OnboardingStatus
unfolding resolved_status
get_status env numbering subject account_id = do
  upsert subject none none
  resolved_status env numbering subject account_id

unfoldable pub start : Env → Numbering → String → Option String → Action OnboardingStatus
unfolding set_onboarding_status status_for
start env numbering subject account_id = do
  upsert subject none none
  account ← resolve_onboarding_account env numbering subject account_id true
  ensure_session env subject account.id
  modify (set_onboarding_status account.id "in_progress")
  gets (status_for subject account)

abbrev pub is_policy : String → Bool
is_policy p = p == tos_policy || p == dd_policy || p == dd_skip_policy

-- The answer is the policy that was agreed to.
unfoldable pub consent : String → String → Action String
consent subject policy = do
  upsert subject none none
  raise_if (not (is_policy policy)) (onboarding_error "unknown policy_version")
  record_consent subject policy
  pure policy

abbrev pub is_doc_type : String → Bool
is_doc_type t = t == "identity_document" || t == "address_proof"

-- `account.onboarding_status in INCOMPLETE_STATUSES`
abbrev pub is_incomplete : Account → Bool
is_incomplete a = a.onboarding_status == "not_started" || a.onboarding_status == "in_progress"

unfoldable pub attach_document :
    Env
    → Numbering
    → String
    → String
    → Option String
    → Option Fields
    → Option String
    → Action OnboardingStatus
unfolding set_onboarding_status status_for safe_summary
attach_document env numbering subject doc_type extraction summary account_id = do
  raise_if (not (is_doc_type doc_type)) (onboarding_error "unsupported doc_type")
  upsert subject none none
  account ← resolve_onboarding_account env numbering subject account_id true
  session ← ensure_session env subject account.id
  modify (λ db.
      if is_incomplete account then set_onboarding_status account.id "in_progress" db else db)
  add_document env session.id doc_type extraction
      (if is_some (truthy extraction) then "extracted" else "pending") (safe_summary summary)
  gets (status_for subject account)
