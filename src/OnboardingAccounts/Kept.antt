-- ===== src/OnboardingAccounts/Kept.antt =====
-- What every routine keeps, opening an account (app/services/onboarding_accounts.py) keeps.
use e_bank_api.Prelude.{
  ◌++◌, truthy, if◌then◌else◌, ℕ, String, Bool, true, false, Option, none, some, List, [], ◌∷◌,
  refl, ◌≡◌, arith,
}
use e_bank_api.Prelude.Int.{pos}
use e_bank_api.Errors.{integrity_error}
use e_bank_api.Models.{Outcome, ok, err, Account, Db, Env, pure, gets, ◌>>=◌, ◌>>◌, new_uuid}
use e_bank_api.Models.Keeps.{Keeps, Keeps-bind, Keeps-pure, keeps_rules}
use e_bank_api.Routine.{Routine}
use e_bank_api.OnboardingAccounts.{
  Numbering, next_number, draft, insert_numbered, create_draft_checking, without_id,
  get_owned_checking, resolve_onboarding_account, list_owned_checking,
}

module _ {P : Db → Type 0} (R : Routine P) where
  pub Keeps-next_number : (n : Numbering) → Keeps P (next_number n)
  unfolding next_number
  Keeps-next_number n = R.aside (next_number n) (λ db. ground arith)

  pub Keeps-new_uuid : (env : Env) → Keeps P (new_uuid env)
  unfolding new_uuid
  Keeps-new_uuid env = R.aside (new_uuid env) (λ db. (refl, refl, refl, refl))

  Keeps-insert_numbered : (a : Account) → a.balance_cached ≡ pos 0 → Keeps P (insert_numbered a)
  unfolding insert_numbered
  Keeps-insert_numbered a zero = record { after = λ db h. by db h _ }
    where
      answer : Bool → Db → Outcome (Unit {0}) × Db
      answer b db =
          if b
          then (err integrity_error, db)
          else (ok tt, record db { accounts = db.accounts ++ a ∷ [] })

      by : (db : Db) → P db → (b : Bool) → P (answer b db).1
      by db h true = h
      by db h false = R.inserted a db zero h

  Keeps-draft :
      (numbering : Numbering) (subject id : String) (number digit : ℕ)
      → Keeps P
          (gets (draft numbering subject number digit id) >>= λ a. insert_numbered a >> pure a)
  unfolding draft ◌>>=◌
  Keeps-draft numbering subject id number digit = record {
    after = λ db h.
        let row : Account = draft numbering subject number digit id db in
        (Keeps-bind P (insert_numbered row) (λ _. pure row) (Keeps-insert_numbered row refl)
            (λ _. Keeps-pure P row)).after
          db h;
  }

  pub Keeps-create_draft_checking :
      (env : Env) (numbering : Numbering) (subject : String)
      → Keeps P (create_draft_checking env numbering subject)
  unfolding create_draft_checking
  Keeps-create_draft_checking env numbering subject =
      search (keeps_rules, Keeps-next_number, Keeps-new_uuid, Keeps-draft)

  Keeps-without_id :
      (env : Env) (numbering : Numbering) (subject : String) (create : Bool) (rows : List Account)
      → Keeps P (without_id env numbering subject create rows)
  unfolding without_id
  Keeps-without_id env numbering subject create (a ∷ rows) = search keeps_rules
  Keeps-without_id env numbering subject true [] = Keeps-create_draft_checking env numbering subject
  Keeps-without_id env numbering subject false [] = search keeps_rules

  pub Keeps-get_owned_checking : (subject id : String) → Keeps P (get_owned_checking subject id)
  unfolding get_owned_checking
  Keeps-get_owned_checking subject id = record { after = λ db h. h }

  pub Keeps-resolve_onboarding_account :
      (env : Env) (numbering : Numbering) (subject : String) (account_id : Option String)
      (create : Bool)
      → Keeps P (resolve_onboarding_account env numbering subject account_id create)
  unfolding resolve_onboarding_account
  Keeps-resolve_onboarding_account env numbering subject account_id create = record {
    after = λ db h. by (truthy account_id) db h;
  }
    where
      by :
          (o : Option String) (db : Db)
          → P db
          → let r : Outcome Account × Db = elim o [
            | some id ↦ get_owned_checking subject id db
            | none ↦ without_id env numbering subject create (list_owned_checking subject db) db
          ] in
            P r.1
      by none db h =
          (Keeps-without_id env numbering subject create (list_owned_checking subject db)).after db
            h
      by (some id) db h = (Keeps-get_owned_checking subject id).after db h
