-- ===== src/OnboardingAccounts.antt =====
-- app/services/onboarding_accounts.py and app/services/account_number.py: which checking account a
-- call means, and the numbers of new accounts.
pub mod Numbers
pub mod Kept
use Prim.Native.Nat.{Ordering, compare}
use Prim.Native.String.{compare as compare_text}
use e_bank_api.Prelude.{
  ℕ, suc, ◌+◌, String, ◌==◌, Bool, true, false, not, ◌&&◌, ◌||◌, Option, none, some, List, [], ◌∷◌,
  ◌++◌, is_some, truthy, ltb, leb, eqb, if◌then◌else◌,
}
use e_bank_api.Prelude.Int.{pos}
use e_bank_api.Prelude.Table.{find}
use e_bank_api.Errors.{
  Error, account_not_found, forbidden_account_access, onboarding_error, onboarding_not_started,
  integrity_error,
}
use e_bank_api.Models.{
  Account, User, Db, Env, Outcome, ok, err, Action, pure, raise, gets, ◌>>=◌, ◌>>◌, modify,
  or_raise, raise_if, new_uuid,
}
use e_bank_api.Ledger.{get_account}

-- Whether an optional text, such as an owner, is this one.
abbrev pub is_text : Option String → String → Bool
is_text none s = false
is_text (some t) s = t == s

-- `order_by(account_number.asc().nulls_last(), created_at.asc(), id.asc())`
compare_numbers : Option ℕ → Option ℕ → Ordering
compare_numbers none none = Ordering.eq
compare_numbers none (some _) = Ordering.gt
compare_numbers (some _) none = Ordering.lt
compare_numbers (some m) (some n) = compare m n

thereupon : Ordering → Ordering → Ordering
thereupon Ordering.lt next = Ordering.lt
thereupon Ordering.gt next = Ordering.gt
thereupon Ordering.eq next = next

comes_after : Ordering → Bool
comes_after Ordering.gt = true
comes_after _ = false

unfoldable pub ordered : Account → Account → Bool
unfolding compare_numbers thereupon comes_after
ordered a b = not (
    comes_after (
      thereupon (compare_numbers a.account_number b.account_number)
        (thereupon (compare a.created_at b.created_at) (compare_text a.id b.id))))

unfoldable pub insert_ordered : Account → List Account → List Account
unfolding ordered
insert_ordered a [] = a ∷ []
insert_ordered a (b ∷ rows) =
    let rest = insert_ordered a rows in if ordered a b then a ∷ b ∷ rows else b ∷ rest

-- The rows that a test keeps, in order.
unfoldable pub select_ordered : (Account → Bool) → List Account → List Account
unfolding insert_ordered
select_ordered keep [] = []
select_ordered keep (a ∷ rows) =
    let rest = select_ordered keep rows in if keep a then insert_ordered a rest else rest

unfoldable pub list_owned_checking : String → Db → List Account
unfolding select_ordered
list_owned_checking subject db =
    select_ordered (λ a. is_text a.owner_subject subject && (a.kind == "checking")) db.accounts

unfoldable pub owned_checking : String → String → Option Account → Outcome Account
owned_checking subject id none = err (account_not_found id)
owned_checking subject id (some a) =
    if not (a.kind == "checking")
    then err (account_not_found id)
    else if not (is_text a.owner_subject subject)
    then err (forbidden_account_access id)
    else ok a

unfoldable pub get_owned_checking : String → String → Action Account
unfolding owned_checking
get_owned_checking subject id db = (owned_checking subject id (get_account id db), db)

abbrev pub is_ready : Account → Bool
is_ready a = a.onboarding_status == "completed" || a.onboarding_status == "skipped"

unfoldable pub require_ready : Account → Action (Unit {0})
require_ready a =
    raise_if (not (is_ready a)) (onboarding_error "complete onboarding before using the bank")

-- Where account numbers come from: the setting `account_number_start`, the currency of new accounts,
-- and on PostgreSQL the sequence, whose n-th value is `nextval n`.
pub record Numbering : Type 0 where
  pub start : ℕ
  pub currency : String
  pub nextval : Option (ℕ → ℕ)

abbrev pub larger : ℕ → ℕ → ℕ
larger m n = if ltb m n then n else m

abbrev pub number_or : ℕ → Option ℕ → ℕ
number_or start none = start
number_or start (some n) = suc n

larger_number : Option ℕ → Option ℕ → Option ℕ
larger_number none n = n
larger_number (some m) none = some m
larger_number (some m) (some n) = some (larger m n)

-- `func.max(Account.account_number)`
unfoldable pub max_number : List Account → Option ℕ
unfolding larger_number
max_number [] = none
max_number (a ∷ rows) = larger_number a.account_number (max_number rows)

-- `_next_number`, with each number of the source one up: `max(current, pending) + 1`.
unfoldable pub next_number : Numbering → Action ℕ
unfolding max_number
next_number numbering db = elim numbering.nextval [
  | some nextval ↦ (ok (nextval db.drawn), record db { drawn = db.drawn + 1 })
  | none ↦
      let after =
        larger (number_or numbering.start (max_number db.accounts))
          (number_or numbering.start db.account_number_pending) in
      let number = larger after numbering.start in
      (ok number, record db { account_number_pending = some number })
]

-- Whether another row has the number, which is unique.
unfoldable pub number_taken : ℕ → List Account → Bool
number_taken n [] = false
number_taken n (a ∷ rows) =
    elim a.account_number [ none ↦ false | some m ↦ eqb m n ] || number_taken n rows

taken : Option ℕ → List Account → Bool
unfolding number_taken
taken none rows = false
taken (some n) rows = number_taken n rows

abbrev pub user_key : User → String
user_key u = u.subject

known_owner : Option String → Db → Bool
known_owner none db = true
known_owner (some subject) db = is_some (find user_key subject db.users)

-- The flush of a new account: the primary key, the unique number, the owner's foreign key.
unfoldable pub insert_numbered : Account → Action (Unit {0})
unfolding taken number_taken known_owner
insert_numbered a db =
    if is_some (get_account a.id db)
      || taken a.account_number db.accounts
      || not (known_owner a.owner_subject db)
    then (err integrity_error, db)
    else (ok tt, record db { accounts = db.accounts ++ a ∷ [] })

unfoldable pub draft : Numbering → String → ℕ → ℕ → String → Db → Account
draft numbering subject number digit id db = record {
  id = id;
  owner_subject = some subject;
  kind = "checking";
  currency = numbering.currency;
  status = "active";
  onboarding_status = "in_progress";
  account_number = some number;
  digit = some digit;
  balance_cached = pos 0;
  overdraft_limit = pos 0;
  created_at = db.now;
}

unfoldable pub create_draft_checking : Env → Numbering → String → Action Account
unfolding draft insert_numbered next_number new_uuid
create_draft_checking env numbering subject = do
  number ← next_number numbering
  id ← new_uuid env
  account ← gets (draft numbering subject number (env.randbelow 10) id)
  insert_numbered account
  pure account

unfoldable pub without_id : Env → Numbering → String → Bool → List Account → Action Account
unfolding create_draft_checking
without_id env numbering subject create (a ∷ rows) =
    raise (onboarding_error "account_id is required")
without_id env numbering subject true [] = create_draft_checking env numbering subject
without_id env numbering subject false [] = raise onboarding_not_started

unfoldable pub resolve_onboarding_account :
    Env → Numbering → String → Option String → Bool → Action Account
unfolding without_id get_owned_checking list_owned_checking
resolve_onboarding_account env numbering subject account_id create = λ db.
    elim (truthy account_id) [
      | some id ↦ get_owned_checking subject id db
      | none ↦ without_id env numbering subject create (list_owned_checking subject db) db
    ]
