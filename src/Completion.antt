-- ===== src/Completion.antt =====
-- app/services/onboarding_complete.py: the end of the wizard, with the holder, the account's number and
-- the welcome grant.
pub mod Kept
pub mod Welcome
use Prim.Native.String.{◌++◌ as concat}
use e_bank_api.Prelude.{
  ℕ, String, ◌==◌, Bool, true, false, ◌&&◌, ◌||◌, Option, none, some, List, [], ◌∷◌, ◌++◌, is_some,
  truthy, if◌then◌else◌,
}
use e_bank_api.Prelude.Int.{ℤ}
use e_bank_api.Prelude.Table.{save}
use e_bank_api.Errors.{ledger_error, idempotent_replay, integrity_error, assertion_error}
use e_bank_api.Models.{
  Account, Holder, JournalEntry, Transaction, OnboardingSession, Db, Env, Outcome, ok, err, Action,
  pure, raise, gets, lift, ◌>>=◌, ◌>>◌, ◌then◌, modify,
}
use e_bank_api.Money.{Money, nan, cents, money}
use e_bank_api.Ledger.{Audit, account_key, get_account, welcome_grant}
use e_bank_api.Validation.{Texts, format_account_display}
use e_bank_api.OnboardingAccounts.{next_number, create_draft_checking, resolve_onboarding_account}
use e_bank_api.Recipients.{holder_key}
use e_bank_api.Users.{
  get_user, upsert, session_key, latest_session, create_session, ensure_session, record_consent,
}
use e_bank_api.Onboarding.{tos_policy, dd_skip_policy, get_holder, set_onboarding_status}
use e_bank_api.Applications.{Opening, Application, validate_full}

pub record DemoAccountView : Type 0 where
  pub id : String
  pub balance : ℤ
  pub currency : String
  pub kind : String
  pub status : String
  pub onboarding_status : String
  pub demo_credited : Bool
  pub account_number : Option ℕ
  pub digit : Option ℕ
  pub display_number : Option String
  pub holder_name : Option String

-- What a route hands on of its request.
pub record Client : Type 0 where
  pub request_id : Option String
  pub source_ip : Option String
  pub user_agent : Option String

-- `email.split("@")[0]`
unfoldable pub before_at : String → String
before_at String.[] = String.[]
before_at (String.◌∷◌ c s) =
    let rest = before_at s in if String.◌∷◌ c String.[] == "@" then "" else String.◌∷◌ c rest

abbrev pub display_of : Texts → Account → Option String
display_of t a = elim a.account_number [
  | none ↦ none
  | some n ↦ elim a.digit [ none ↦ none | some d ↦ some (format_account_display t n d) ]
]

module _ (o : Opening) where
  -- `_upsert_holder`: every field is set, so an old row is replaced. The flush of a new row needs its
  -- user.
  unfoldable pub upsert_holder : String → Option Holder → Action (Option Holder)
  upsert_holder subject none db = (ok (get_holder subject db), db)
  upsert_holder subject (some data_of) db =
      let row : Holder = record data_of { subject = subject } in
      elim (get_holder subject db) [
        | some _ ↦ (ok (some row), record db { holders = save holder_key row db.holders })
        | none ↦
            if is_some (get_user subject db)
            then (ok (some row), record db { holders = db.holders ++ row ∷ [] })
            else (err integrity_error, db)
      ]

  set_identity : String → ℕ → ℕ → Db → Db
  set_identity id number digit db = elim (get_account id db) [
    | none ↦ db
    | some a ↦ record db {
      accounts =
          save account_key (record a { account_number = some number; digit = some digit })
            db.accounts;
    }
  ]

  -- An account without number or digit gets both.
  unfoldable pub ensure_identity : Env → Account → Action (Unit {0})
  unfolding set_identity
  ensure_identity env a = if is_some a.account_number && is_some a.digit then pure tt else (do
    number ← next_number o.numbering
    modify (set_identity a.id number (env.randbelow 10)))

  -- Whether the account has a transaction of type demo_grant.
  unfoldable pub has_grant : String → List Transaction → Bool
  has_grant id [] = false
  has_grant id (t ∷ rows) = (t.account_id == id && (t.type == "demo_grant")) || has_grant id rows

  -- `except IdempotentReplay`
  unfoldable pub replay_is_true : Outcome JournalEntry → Action Bool
  replay_is_true (ok j) = pure true
  replay_is_true (err (idempotent_replay id)) = pure true
  replay_is_true (err e) = raise e

  -- A NaN differs from itself, and so is no balanced journal.
  postable : Money → Outcome ℤ
  postable nan = err (ledger_error "journal is not balanced")
  postable (cents x) = ok x

  welcome_money : Outcome ℤ
  unfolding postable
  welcome_money = money o.decimal o.welcome_amount then λ m. postable m

  abbrev pub welcome_audit : Account → Client → Audit
  welcome_audit a c = record {
    actor_subject = a.owner_subject;
    request_id = c.request_id;
    idempotency_key = some (concat "welcome:" a.id);
    source_ip = c.source_ip;
    user_agent = c.user_agent;
    reason = none;
  }

  unfoldable pub grant_to : Env → Account → Client → Action Bool
  unfolding welcome_money replay_is_true
  grant_to env a c = do
    x ← lift welcome_money
    λ db.
        let (result, db') = welcome_grant env a x (welcome_audit a c) db in
        replay_is_true result db'

  -- `_ensure_welcome`; `scalar_one` raises when the row is gone.
  unfoldable pub ensure_welcome : Env → String → Client → Action Bool
  unfolding has_grant grant_to
  ensure_welcome env id c db = elim (get_account id db) [
    | none ↦ (err assertion_error, db)
    | some a ↦ if has_grant id db.transactions then (ok true, db) else grant_to env a c db
  ]

  ended : String → ℕ → OnboardingSession → OnboardingSession
  ended status now s =
      if status == "skipped"
      then record s { status = status; skipped_at = some now }
      else record s { status = status; completed_at = some now }

  -- The latest session gets its end.
  unfoldable pub end_session : String → String → String → Db → Db
  unfolding ended
  end_session subject id status db = elim (latest_session subject id db) [
    | none ↦ db
    | some s ↦ record db { sessions = save session_key (ended status db.now s) db.sessions }
  ]

  -- `_view`, of the row as it is
  unfoldable pub view_of : String → String → Bool → Option String → Action DemoAccountView
  view_of id status credited name db = elim (get_account id db) [
    | none ↦ (err assertion_error, db)
    | some a ↦ (
      ok (record {
        id = a.id;
        balance = a.balance_cached;
        currency = a.currency;
        kind = a.kind;
        status = a.status;
        onboarding_status = status;
        demo_credited = credited;
        account_number = a.account_number;
        digit = a.digit;
        display_number = display_of o.texts a;
        holder_name = name;
      }),
      db,
    )
  ]

  name_of : Option Holder → Option String
  name_of none = none
  name_of (some h) = some h.full_name

  unfoldable pub finish_account :
      Env → String → Account → Option Holder → String → String → Client → Action DemoAccountView
  unfolding upsert_holder ensure_identity ensure_welcome end_session view_of name_of
  finish_account env subject account holder_data onboarding_status session_status c = do
    holder ← upsert_holder subject holder_data
    ensure_identity env account
    credited ← ensure_welcome env account.id c
    modify (end_session subject account.id session_status)
    modify (set_onboarding_status account.id onboarding_status)
    view_of account.id onboarding_status credited (name_of holder)

  -- `a or b`
  or_else : Option String → Option String → Option String
  or_else x y = elim (truthy x) [ none ↦ y | some s ↦ some s ]

  unfoldable pub complete :
      Env → String → Application → Option String → Option String → Client → Action DemoAccountView
  unfolding validate_full finish_account or_else
  complete env subject p email account_id c = do
    upsert subject email none
    account ←
        resolve_onboarding_account env o.numbering subject (or_else account_id p.account_id) true
    ensure_session env subject account.id
    holder_data ← lift (validate_full o p)
    record_consent subject tos_policy
    finish_account env subject account (some holder_data) "completed" "approved_demo" c

  -- The holder of a skipped wizard, when there is none.
  demo_name : Option String → Option String → String
  demo_name display_name email = elim (truthy display_name) [
    | some name ↦ name
    | none ↦ elim (truthy email) [ none ↦ "Demo User" | some e ↦ before_at e ]
  ]

  demo_holder : String → Option String → Holder
  demo_holder name email = record {
    subject = "";
    full_name = name;
    birth_date = none;
    document_type = none;
    document_number = none;
    cep = none;
    street = none;
    number = none;
    complement = none;
    neighborhood = none;
    city = none;
    state = none;
    email = email;
    phone = none;
  }

  unfoldable pub skip_data : Option Holder → Option String → Option String → Option Holder
  unfolding demo_name demo_holder
  skip_data (some _) display_name email = none
  skip_data none display_name email = some (demo_holder (demo_name display_name email) email)

  unfoldable pub skip_and_open :
      Env → String → Option String → Option String → Option String → Client → Action DemoAccountView
  unfolding skip_data finish_account
  skip_and_open env subject email display_name account_id c = do
    upsert subject email display_name
    record_consent subject dd_skip_policy
    record_consent subject tos_policy
    account ← resolve_onboarding_account env o.numbering subject account_id true
    ensure_session env subject account.id
    holder ← gets (get_holder subject)
    finish_account env subject account (skip_data holder display_name email) "skipped" "skipped" c

  unfoldable pub open_extra_draft : Env → String → String → Action DemoAccountView
  unfolding view_of
  open_extra_draft env subject holder_name = do
    account ← create_draft_checking env o.numbering subject
    create_session env subject account.id
    view_of account.id "in_progress" false (some holder_name)
