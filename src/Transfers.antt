-- ===== src/Transfers.antt =====
-- app/services/transfer.py: a customer's transfer, from the request's texts to the ledger.
pub mod Guards
pub mod Effect
pub mod Kept
pub mod InSync
use mathlib.Core.Option
use e_bank_api.Prelude.{
  String, ◌==◌, Bool, true, false, not, Option, none, some, List, [], ◌∷◌, is_some, truthy,
  if◌then◌else◌,
}
use e_bank_api.Prelude.Int.{ℤ}
use e_bank_api.Prelude.Table.{find}
use e_bank_api.Errors.{
  Error, account_not_found, forbidden_account_access, onboarding_error, same_account_transfer,
  transfer_limit_exceeded, idempotent_replay, assertion_error,
}
use e_bank_api.Models.{
  Account, Holder, JournalEntry, Db, Env, Outcome, ok, err, Action, pure, raise, gets, lift,
  or_raise, raise_if, ◌>>=◌, ◌>>◌,
}
use e_bank_api.Ledger
use e_bank_api.Ledger.{Audit, get_account}
use e_bank_api.Money.{Quantized, parse_positive_money, above}
use e_bank_api.Validation.{Texts, format_account_display}
use e_bank_api.OnboardingAccounts.{list_owned_checking, get_owned_checking, require_ready}
use e_bank_api.Recipients.{holder_key, resolve}

-- The settings that the service reads, and Python's decimals and texts.
pub record Settings : Type 0 where
  pub decimal : String → Quantized
  pub texts : Texts
  pub max_transfer_amount : String
  pub welcome_currency : String

-- The keyword arguments of `transfer`.
pub record TransferArgs : Type 0 where
  pub amount : String
  pub source_account_id : Option String
  pub destination_account_id : Option String
  pub destination_account : Option String
  pub destination_document : Option String
  pub memo : Option String
  pub request_id : Option String
  pub idempotency_key : Option String
  pub source_ip : Option String
  pub user_agent : Option String

-- One side of the answer; the balance is the amount that `as_str` prints.
pub record Party : Type 0 where
  pub id : String
  pub display_number : Option String
  pub balance : ℤ
  pub holder_name : Option String
  pub holder_email : Option String

pub record TransferView : Type 0 where
  pub origin : Party
  pub destination : Party
  pub amount : ℤ
  pub memo : Option String
  pub currency : String

unfoldable pub require_active : Account → Action (Unit {0})
require_active a = raise_if (not (a.status == "active")) (forbidden_account_access a.id)

first_owned : List Account → Outcome Account
first_owned [] = err (onboarding_error "complete onboarding before using the bank")
first_owned (a ∷ rows) = ok a

unfoldable pub require_onboarded_account : String → Action Account
unfolding list_owned_checking require_ready require_active first_owned
require_onboarded_account subject = do
  account ← λ db. (first_owned (list_owned_checking subject db), db)
  require_active account
  require_ready account
  pure account

unfoldable pub require_owned_account : String → String → Action Account
unfolding get_owned_checking require_ready require_active
require_owned_account subject id = do
  account ← get_owned_checking subject id
  require_active account
  require_ready account
  pure account

unfoldable pub origin_of : String → Option String → Action Account
origin_of subject source = elim (truthy source) [
  | some id ↦ require_owned_account subject id
  | none ↦ require_onboarded_account subject
]

-- `session.get(Account, id)`, which must be there.
unfoldable pub account_row : Error → String → Action Account
account_row e id db = or_raise e (get_account id db) db

unfoldable pub active_row : String → Action Account
unfolding account_row
active_row id = do
  account ← account_row (account_not_found id) id
  raise_if (not (account.status == "active")) (account_not_found id)
  pure account

-- `require_ready(dest)` for an account that has an owner.
unfoldable pub ready_if_owned : Account → Action (Unit {0})
ready_if_owned a = if is_some a.owner_subject then require_ready a else pure tt

-- `except IdempotentReplay`
unfoldable pub unless_replay : Outcome JournalEntry → Action (Unit {0})
unless_replay (ok j) = pure tt
unless_replay (err (idempotent_replay id)) = pure tt
unless_replay (err e) = raise e

-- The two accounts of a transfer, once they differ and the destination is ready, read again under
-- their locks.
unfoldable pub locked_pair : Account → Account → Action (Account × Account)
unfolding ready_if_owned account_row
locked_pair origin dest = do
  raise_if (dest.id == origin.id) same_account_transfer
  ready_if_owned dest
  origin' ← account_row assertion_error origin.id
  dest' ← account_row assertion_error dest.id
  pure (origin', dest')

module _ (s : Settings) where
  unfoldable pub resolved_row : Option String → Option String → Action Account
  unfolding account_row
  resolved_row account document = do
    recipient ← resolve s.texts account document
    account_row (account_not_found recipient.account_id) recipient.account_id

  unfoldable pub destination_of : TransferArgs → Action Account
  destination_of m = elim (truthy m.destination_account_id) [
    | some id ↦ active_row id
    | none ↦ resolved_row m.destination_account m.destination_document
  ]

  unfoldable pub checked_amount : String → Outcome ℤ
  checked_amount amount = parse_positive_money s.decimal amount

  -- The amount must not be above the limit.
  unfoldable pub within_limit : ℤ → Action (Unit {0})
  within_limit x = do
    over ← lift (above s.decimal x s.max_transfer_amount)
    raise_if over transfer_limit_exceeded

  display_of : Account → Option String
  display_of a = elim a.account_number [
    | none ↦ none
    | some number ↦ Option.map (λ digit. format_account_display s.texts number digit) a.digit
  ]

  stripped : Option String → Option String
  stripped none = none
  stripped (some x) = truthy (some (s.texts.strip x))

  -- `_holder_snapshot`: name and address.
  unfoldable pub holder_snapshot : Option String → Db → Option String × Option String
  unfolding stripped
  holder_snapshot owner db = elim (truthy owner) [
    | none ↦ (none, none)
    | some subject ↦ elim (find holder_key subject db.holders) [
      | none ↦ (none, none)
      | some h ↦ (
        stripped (some h.full_name),
        elim h.email [
          | none ↦ none
          | some email ↦ truthy (some (s.texts.lower (s.texts.strip email)))
        ],
      )
    ]
  ]

  unfoldable pub party : Account → Db → Party
  unfolding display_of holder_snapshot
  party a db =
      let (name, email) = holder_snapshot a.owner_subject db in
      record {
        id = a.id;
        display_number = display_of a;
        balance = a.balance_cached;
        holder_name = name;
        holder_email = email;
      }

  unfoldable pub view : Account → Account → ℤ → Option String → Db → TransferView
  unfolding party stripped
  view origin dest x memo db = record {
    origin = party origin db;
    destination = party dest db;
    amount = x;
    memo = stripped memo;
    currency = s.welcome_currency;
  }

  abbrev pub audit_of : String → TransferArgs → Audit
  audit_of subject m = record {
    actor_subject = some subject;
    request_id = m.request_id;
    idempotency_key = m.idempotency_key;
    source_ip = m.source_ip;
    user_agent = m.user_agent;
    reason = m.memo;
  }

  unfoldable pub parties : String → TransferArgs → Action (Account × Account)
  parties subject m = do
    origin ← origin_of subject m.source_account_id
    dest ← destination_of m
    locked_pair origin dest

  -- What is read behind the ledger's transfer.
  unfoldable pub answer : Account → Account → ℤ → Option String → Action TransferView
  answer origin dest x memo = do
    origin' ← account_row assertion_error origin.id
    dest' ← account_row assertion_error dest.id
    gets (view origin' dest' x memo)

  unfoldable pub ledger_step : Env → Account → Account → ℤ → Audit → Action (Unit {0})
  ledger_step env origin dest x audit db =
      let (result, db') = Ledger.transfer env origin dest x audit db in unless_replay result db'

  unfoldable pub keyed_transfer : Env → String → TransferArgs → Action TransferView
  keyed_transfer env subject m = do
    x ← lift (checked_amount m.amount)
    within_limit x
    pair ← parties subject m
    ledger_step env (pair.0) (pair.1) x (audit_of subject m)
    answer (pair.0) (pair.1) x m.memo

  -- `TransferService.transfer`
  unfoldable pub transfer : Env → String → TransferArgs → Action TransferView
  unfolding keyed_transfer
  transfer env subject m =
      if is_some (truthy m.idempotency_key)
      then keyed_transfer env subject m
      else raise (onboarding_error "Idempotency-Key header is required")
