-- ===== src/OnboardingAccounts/Numbers.antt =====
-- New account numbers (app/services/account_number.py).
use e_bank_api.Prelude.{ℕ, ◌≤◌, String, false, none, some, List, [], ◌∷◌, ◌++◌, ◌≡◌, refl, arith}
use e_bank_api.Prelude.Table.{find}
use e_bank_api.Models.{Account, User, Db, Env, Outcome, ok, err, ◌>>=◌}
use e_bank_api.Ledger.{get_account}
use e_bank_api.OnboardingAccounts.{
  Numbering, larger, number_or, max_number, next_number, number_taken, draft, insert_numbered,
  user_key, create_draft_checking,
}

-- No row has a number above the largest.
number_taken-max_number :
    (n : ℕ) (rows : List Account) → number_or 0 (max_number rows) ≤ n → number_taken n rows ≡ false
unfolding max_number number_taken
number_taken-max_number n [] h = refl
number_taken-max_number n (a ∷ rows) h = ground (arith, number_taken-max_number n rows)

-- Without a sequence the next number is at the start or above, and no account has it.
pub next_number-fresh :
    (numbering : Numbering) (n : ℕ) (db db' : Db)
    → numbering.nextval ≡ none
    → next_number numbering db ≡ (ok n, db')
    → (numbering.start ≤ n)
      × (number_taken n db.accounts ≡ false)
      × (db'.accounts ≡ db.accounts)
      × (db'.users ≡ db.users)
unfolding next_number
next_number-fresh numbering n db db' own h =
    let after =
      larger (number_or numbering.start (max_number db.accounts))
        (number_or numbering.start db.account_number_pending) in
    let value : n ≡ larger after numbering.start = ground arith in
    let above : number_or 0 (max_number db.accounts) ≤ n = ground arith in
    (ground arith, number_taken-max_number n db.accounts above, ground arith, ground arith)

next_number-ok :
    (numbering : Numbering) (db : Db)
    → numbering.nextval ≡ none
    → (n : ℕ) × (db' : Db) × (next_number numbering db ≡ (ok n, db'))
unfolding next_number
next_number-ok numbering db own = go (next_number numbering db) refl
  where
    go :
        (r : Outcome ℕ × Db)
        → next_number numbering db ≡ r
        → (n : ℕ) × (db' : Db) × (next_number numbering db ≡ (ok n, db'))
    go (ok n, db') e = (n, db', e)
    go (err x, db') e = absurd (ground arith)

-- Without a sequence, a user who is known gets a draft account whenever no account has an id that
-- is drawn: the account is added to the accounts, is theirs, in progress, and has a number that no
-- account had.
pub create_draft_total :
    (env : Env) (numbering : Numbering) (subject : String) (user : User) (db : Db)
    → numbering.nextval ≡ none
    → find user_key subject db.users ≡ some user
    → ((n : ℕ) → get_account (env.uuid n) db ≡ none)
    → (a : Account) × (n : ℕ) × ((create_draft_checking env numbering subject db).0 ≡ ok a)
      × ((create_draft_checking env numbering subject db).1.accounts ≡ db.accounts ++ a ∷ [])
      × (a.owner_subject ≡ some subject)
      × (a.onboarding_status ≡ "in_progress")
      × (a.account_number ≡ some n)
      × (number_taken n db.accounts ≡ false)
unfolding create_draft_checking draft insert_numbered ◌>>=◌
create_draft_total env numbering subject user db own known free =
    let (n, db1, next) = next_number-ok numbering db own in
    let (_, fresh, same, users) = next_number-fresh numbering n db db1 own next in
    (
      draft numbering subject n (env.randbelow 10) (env.uuid db1.drawn) db1,
      n,
      ground (arith, free db1.drawn),
      ground (arith, free db1.drawn),
      refl,
      refl,
      refl,
      fresh,
    )
