-- ===== src/Users.antt =====
-- app/repositories/user_repository.py: users, onboarding sessions, their documents, and consents.
-- A flush refuses a row whose foreign key is unknown.
pub mod Sessions
pub mod Kept
use e_bank_api.Prelude.{
  ℕ, String, ◌==◌, Bool, true, false, not, ◌&&◌, ◌||◌, Option, none, some, List, [], ◌∷◌, ◌++◌,
  is_some, truthy, ltb, if◌then◌else◌,
}
use e_bank_api.Prelude.Table.{find, save}
use e_bank_api.Errors.{integrity_error}
use e_bank_api.Models.{
  User, OnboardingSession, OnboardingDocument, Consent, Db, Env, Outcome, ok, err, Action, pure,
  gets, ◌>>=◌, ◌>>◌, modify, new_uuid,
}
use e_bank_api.Json.{Fields}
use e_bank_api.Ledger.{get_account}
use e_bank_api.OnboardingAccounts.{user_key}

abbrev pub get_user : String → Db → Option User
get_user subject db = find user_key subject db.users

-- `if new and old != new: old = new`
unfoldable pub replaced : Option String → Option String → Option String
replaced new old = elim (truthy new) [ none ↦ old | some s ↦ some s ]

-- `UserRepository.upsert`
unfoldable pub upsert : String → Option String → Option String → Action User
unfolding replaced
upsert subject email display_name db = elim (get_user subject db) [
  | none ↦
      let user : User = record {
        subject = subject;
        email = truthy email;
        display_name = truthy display_name;
      } in
      (ok user, record db { users = db.users ++ user ∷ [] })
  | some u ↦
      let user : User = record u {
        email = replaced email u.email;
        display_name = replaced display_name u.display_name;
      } in
      (ok user, record db { users = save user_key user db.users })
]

-- `latest_session`: `order_by(created_at.desc()).limit(1)`. SQL leaves open which of several rows of
-- one time comes first: `first` says it.
abbrev newer :
    (OnboardingSession → OnboardingSession → Bool)
    → OnboardingSession
    → OnboardingSession
    → OnboardingSession
newer first s t =
    if ltb t.created_at s.created_at
    then s
    else if ltb s.created_at t.created_at
    then t
    else if first s t
    then s
    else t

later :
    (OnboardingSession → OnboardingSession → Bool)
    → OnboardingSession
    → Option OnboardingSession
    → OnboardingSession
later first s none = s
later first s (some t) = newer first s t

abbrev pub is_session_of : String → String → OnboardingSession → Bool
is_session_of subject account_id s = s.subject == subject && (s.account_id == account_id)

unfoldable pub latest_of :
    (OnboardingSession → OnboardingSession → Bool)
    → String
    → String
    → List OnboardingSession
    → Option OnboardingSession
unfolding later
latest_of first subject account_id [] = none
latest_of first subject account_id (s ∷ rows) =
    let rest = latest_of first subject account_id rows in
    if is_session_of subject account_id s then some (later first s rest) else rest

abbrev pub latest_session : String → String → Db → Option OnboardingSession
latest_session subject account_id db = latest_of db.sessions_first subject account_id db.sessions

abbrev pub session_key : OnboardingSession → String
session_key s = s.id

-- The flush of a new session: its primary key, and the keys of user and account.
unfoldable pub insert_session : OnboardingSession → Action (Unit {0})
insert_session s db =
    if is_some (find session_key s.id db.sessions)
      || not (is_some (get_user s.subject db))
      || not (is_some (get_account s.account_id db))
    then (err integrity_error, db)
    else (ok tt, record db { sessions = db.sessions ++ s ∷ [] })

unfoldable pub draft_session : String → String → String → Db → OnboardingSession
draft_session subject account_id id db = record {
  id = id;
  subject = subject;
  account_id = account_id;
  status = "draft";
  skipped_at = none;
  completed_at = none;
  created_at = db.now;
}

unfoldable pub create_session : Env → String → String → Action OnboardingSession
unfolding insert_session draft_session new_uuid
create_session env subject account_id = do
  id ← new_uuid env
  session ← gets (draft_session subject account_id id)
  insert_session session
  pure session

-- `session.status in {"skipped", "approved_demo"}`
abbrev pub is_ended : OnboardingSession → Bool
is_ended s = s.status == "skipped" || s.status == "approved_demo"

unfoldable pub open_or_create :
    Env → String → String → Option OnboardingSession → Action OnboardingSession
unfolding create_session
open_or_create env subject account_id none = create_session env subject account_id
open_or_create env subject account_id (some s) =
    if is_ended s then create_session env subject account_id else pure s

unfoldable pub ensure_session : Env → String → String → Action OnboardingSession
unfolding open_or_create
ensure_session env subject account_id db =
    open_or_create env subject account_id (latest_session subject account_id db) db

abbrev pub get_session : String → Db → Option OnboardingSession
get_session id db = find session_key id db.sessions

abbrev pub document_key : OnboardingDocument → String
document_key d = d.id

unfoldable pub insert_document : OnboardingDocument → Action (Unit {0})
insert_document d db =
    if is_some (find document_key d.id db.documents) || not (is_some (get_session d.session_id db))
    then (err integrity_error, db)
    else (ok tt, record db { documents = db.documents ++ d ∷ [] })

unfoldable pub add_document :
    Env → String → String → Option String → String → Option Fields → Action OnboardingDocument
unfolding insert_document new_uuid
add_document env session_id doc_type extraction status summary = do
  id ← new_uuid env
  doc ← pure (record {
    id = id;
    session_id = session_id;
    doc_type = doc_type;
    pde_extraction_id = extraction;
    status = status;
    summary_json = summary;
  })
  insert_document doc
  pure doc

unfoldable pub list_documents : String → List OnboardingDocument → List OnboardingDocument
list_documents session_id [] = []
list_documents session_id (d ∷ rows) =
    let rest = list_documents session_id rows in
    if d.session_id == session_id then d ∷ rest else rest

unfoldable pub has_consent : String → String → List Consent → Bool
has_consent subject policy [] = false
has_consent subject policy (c ∷ rows) =
    (c.subject == subject && (c.policy_version == policy)) || has_consent subject policy rows

-- `record_consent`: a consent that is there is left alone.
unfoldable pub record_consent : String → String → Action (Unit {0})
unfolding has_consent
record_consent subject policy db =
    if has_consent subject policy db.consents
    then (ok tt, db)
    else if not (is_some (get_user subject db))
    then (err integrity_error, db)
    else (
      ok tt,
      record db {
        consents = db.consents ++ record { subject = subject; policy_version = policy } ∷ [];
      },
    )
