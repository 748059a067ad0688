-- ===== src/DemoBank.antt =====
-- app/services/demo_service.py: the accounts of a customer, and the withdrawal of demo money. The
-- statement is in Statements, the transfer in Transfers.
pub mod Withdrawals
pub mod Kept
use Prim.Native.String.{◌++◌ as concat}
use e_bank_api.Prelude.{
  ℕ, String, ◌==◌, Bool, true, false, not, ◌&&◌, ◌||◌, Option, none, some, List, [], ◌∷◌, map,
  length, ltb, leb, truthy, is_some, if◌then◌else◌,
}
use e_bank_api.Prelude.Int.{ℤ, pos}
use e_bank_api.Errors.{
  Error, account_not_found, forbidden_account_access, onboarding_error, transfer_limit_exceeded,
  assertion_error,
}
use e_bank_api.Models.{
  Account, Holder, JournalEntry, Transaction, Db, Env, Outcome, ok, err, Action, pure, raise, gets,
  lift, or_raise, raise_if, ◌>>=◌, ◌>>◌, ◌then◌,
}
use e_bank_api.Money.{parse_positive_money, above}
use e_bank_api.Ledger
use e_bank_api.Ledger.{Audit, get_account}
use e_bank_api.Accounts.{AccountRecord}
use e_bank_api.Validation.{Texts, format_account_display}
use e_bank_api.Completion.{Client, DemoAccountView, open_extra_draft, has_grant}
use e_bank_api.Applications.{Opening}
use e_bank_api.Onboarding.{get_holder}
use e_bank_api.Transfers.{require_onboarded_account}
use e_bank_api.Queries.{list_by_owner_kind, get_by_owner_kind}
use e_bank_api.Statements.{display_number}

-- The settings of the service, and those of opening an account.
pub record Demo : Type 0 where
  pub opening : Opening
  pub max_withdraw_amount : String
  pub max_checking_accounts_per_user : ℕ

-- `READY_STATUSES`
abbrev is_ready_record : AccountRecord → Bool
is_ready_record a = a.onboarding_status == "completed" || a.onboarding_status == "skipped"

any_ready : List AccountRecord → Bool
any_ready [] = false
any_ready (a ∷ rows) = is_ready_record a || any_ready rows

-- A record that the customer's account answers with.
pub record Withdrawn : Type 0 where
  pub id : String
  pub display_number : Option String
  pub balance : ℤ
  pub currency : String

name_of : Option Holder → Option String
name_of none = none
name_of (some h) = some h.full_name

-- Python's text of an optional text in an f-string
abbrev shown : Option String → String
shown none = "None"
shown (some s) = s

module _ (o : Demo) where
  -- `_views_for`: an account is credited when it has a transaction of type demo_grant.
  unfoldable pub view_record : Db → Option String → AccountRecord → DemoAccountView
  unfolding has_grant
  view_record db name a = record {
    id = a.id;
    balance = a.balance;
    currency = a.currency;
    kind = a.kind;
    status = a.status;
    onboarding_status = a.onboarding_status;
    demo_credited = has_grant o.opening a.id db.transactions;
    account_number = a.account_number;
    digit = a.digit;
    display_number = display_number o.opening.texts a.account_number a.digit;
    holder_name = name;
  }

  unfoldable pub views_for : String → List AccountRecord → Db → List DemoAccountView
  unfolding view_record name_of
  views_for subject rows db = map (view_record db (name_of (get_holder subject db))) rows

  unfoldable pub list_accounts : String → Db → List DemoAccountView
  unfolding views_for
  list_accounts subject db = views_for subject (list_by_owner_kind subject "checking" db) db

  unfoldable pub get_my_account : String → Db → Outcome DemoAccountView
  unfolding view_record name_of
  get_my_account subject db = elim (get_by_owner_kind subject "checking" db) [
    | none ↦ err (account_not_found "checking")
    | some a ↦ ok (view_record db (name_of (get_holder subject db)) a)
  ]

  must_onboard : {A : Type 0} → Outcome A
  must_onboard = err (onboarding_error "use onboarding complete or skip to open an account")

  unfoldable pub bootstrap : String → Db → Outcome DemoAccountView
  unfolding get_my_account must_onboard
  bootstrap subject db = elim (get_by_owner_kind subject "checking" db) [
    | none ↦ must_onboard
    | some a ↦ if is_ready_record a then get_my_account subject db else must_onboard
  ]

  -- `view.display_number == display or view.id == display`
  shows : String → DemoAccountView → Bool
  shows display v =
      elim v.display_number [ none ↦ false | some n ↦ n == display ] || v.id == display

  first_shown : String → List DemoAccountView → Outcome DemoAccountView
  unfolding shows
  first_shown display [] = err (forbidden_account_access display)
  first_shown display (v ∷ views) =
      let rest = first_shown display views in if shows display v then ok v else rest

  unfoldable pub get_account_by_display : String → String → Db → Outcome DemoAccountView
  unfolding list_accounts first_shown
  get_account_by_display subject display db = first_shown display (list_accounts subject db)

  not_onboarded : Error
  not_onboarded = onboarding_error "complete onboarding before using the bank"

  -- A customer with a ready account and a holder may open drafts up to the limit.
  unfoldable pub open_additional_account : Env → String → Action DemoAccountView
  unfolding any_ready not_onboarded open_extra_draft
  open_additional_account env subject = do
    rows ← gets (list_by_owner_kind subject "checking")
    raise_if (not (any_ready rows)) not_onboarded
    holder ← λ db. or_raise not_onboarded (get_holder subject db) db
    raise_if (leb o.max_checking_accounts_per_user (length rows))
        (onboarding_error "account limit reached")
    open_extra_draft o.opening env subject holder.full_name

  unfoldable pub withdraw_audit : String → Option String → Client → Audit
  withdraw_audit subject idempotency_key c = record {
    actor_subject = some subject;
    request_id = c.request_id;
    idempotency_key = elim (truthy idempotency_key) [
      | some k ↦ some k
      | none ↦ some (concat "withdraw:" (concat subject (concat ":" (shown c.request_id))))
    ];
    source_ip = c.source_ip;
    user_agent = c.user_agent;
    reason = none;
  }

  -- Where the money is taken from, and the amount.
  unfoldable pub withdrawal : String → String → Action (ℤ × Account)
  withdrawal subject amount = do
    x ← lift (parse_positive_money o.opening.decimal amount)
    over ← lift (above o.opening.decimal x o.max_withdraw_amount)
    raise_if over transfer_limit_exceeded
    origin ← require_onboarded_account subject
    row ← λ db. or_raise assertion_error (get_account origin.id db) db
    pure (x, row)

  unfoldable pub withdrawn : String → Action Withdrawn
  withdrawn id = do
    a ← λ db. or_raise assertion_error (get_account id db) db
    pure (record {
      id = a.id;
      display_number = display_number o.opening.texts a.account_number a.digit;
      balance = a.balance_cached;
      currency = a.currency;
    })

  unfoldable pub withdraw : Env → String → String → Option String → Client → Action Withdrawn
  unfolding withdrawal withdrawn withdraw_audit
  withdraw env subject amount idempotency_key c = do
    found ← withdrawal subject amount
    Ledger.withdraw env (found.1) (found.0) (withdraw_audit subject idempotency_key c)
    withdrawn (found.1).id
