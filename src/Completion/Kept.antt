-- ===== src/Completion/Kept.antt =====
-- What every routine keeps, the end of the wizard (app/services/onboarding_complete.py) keeps.
use e_bank_api.Prelude.{
  true, false, inl, inr, Option-cases, if◌then◌else◌, ℕ, Bool, String, Option, none, some, refl,
  arith,
}
use e_bank_api.Prelude.Int.{ℤ}
use e_bank_api.Models.{Account, Holder, JournalEntry, Db, Env, Outcome, ok, modify}
use e_bank_api.Models.Keeps.{Keeps, keeps_rules}
use e_bank_api.Routine.{Routine}
use e_bank_api.Applications.{Opening, Application}
use e_bank_api.Ledger.{Audit, get_account, welcome_grant}
use e_bank_api.Ledger.Kept.{Keeps-ensures}
use e_bank_api.Transfers.Kept.{Keeps-welcome_grant}
use e_bank_api.Users.Kept.{
  Keeps-upsert, Keeps-record_consent, Keeps-create_session, Keeps-ensure_session,
}
use e_bank_api.Onboarding.Kept.{Keeps-set_onboarding_status}
use e_bank_api.OnboardingAccounts.Kept.{
  Keeps-next_number, Keeps-create_draft_checking, Keeps-resolve_onboarding_account,
}
use e_bank_api.Completion.{
  Client, upsert_holder, set_identity, ensure_identity, has_grant, replay_is_true, grant_to,
  ensure_welcome, end_session, view_of, finish_account, complete, skip_and_open, open_extra_draft,
}

module _ {P : Db → Type 0} (R : Routine P) where
  module _ (o : Opening) where
    Keeps-upsert_holder :
        (subject : String) (data_of : Option Holder) → Keeps P (upsert_holder o subject data_of)
    unfolding upsert_holder
    Keeps-upsert_holder subject none = record { after = λ db h. h }
    Keeps-upsert_holder subject (some data_of) =
        R.aside (upsert_holder o subject (some data_of)) (λ db. ground arith)

    Keeps-set_identity :
        (id : String) (number digit : ℕ) → Keeps P (modify (set_identity o id number digit))
    unfolding set_identity
    Keeps-set_identity id number digit = record {
      after = λ db h. elim (Option-cases (get_account id db)) [
        | inl missing ↦ rw (missing, set_identity) h
        | inr (a, e) ↦
            rw (e, set_identity)
              (R.saved id a (record a { account_number = some number; digit = some digit }) db e
                refl refl h)
      ];
    }

    Keeps-ensure_identity : (env : Env) (a : Account) → Keeps P (ensure_identity o env a)
    unfolding ensure_identity
    Keeps-ensure_identity env a = search (keeps_rules, Keeps-next_number, Keeps-set_identity)

    Keeps-replay_is_true : (r : Outcome JournalEntry) → Keeps P (replay_is_true o r)
    unfolding replay_is_true
    Keeps-replay_is_true r = R.aside (replay_is_true o r) (λ db. ground arith)

    Keeps-granting :
        (env : Env) (a : Account) (x : ℤ) (audit : Audit)
        → Keeps P (λ db.
          let (result, db') = welcome_grant env a x audit db in replay_is_true o result db')
    Keeps-granting env a x audit = record {
      after = λ db h.
          let (result, db') = welcome_grant env a x audit db in
          (Keeps-replay_is_true result).after db'
            ((Keeps-welcome_grant P R.posts (Keeps-ensures R) env a x audit).after db h);
    }

    Keeps-grant_to : (env : Env) (a : Account) (c : Client) → Keeps P (grant_to o env a c)
    unfolding grant_to
    Keeps-grant_to env a c = search (keeps_rules, Keeps-granting)

    unless_granted :
        (env : Env) (a : Account) (c : Client) (granted : Bool) (db : Db)
        → P db
        → let r : Outcome Bool × Db = if granted then (ok true, db) else grant_to o env a c db in
          P r.1
    unless_granted env a c true db h = h
    unless_granted env a c false db h = (Keeps-grant_to env a c).after db h

    Keeps-ensure_welcome :
        (env : Env) (id : String) (c : Client) → Keeps P (ensure_welcome o env id c)
    unfolding ensure_welcome
    Keeps-ensure_welcome env id c = record {
      after = λ db h. elim (Option-cases (get_account id db)) [
        | inl missing ↦ rw (missing, ensure_welcome) h
        | inr (a, e) ↦
            rw (e, ensure_welcome) (unless_granted env a c (has_grant o id db.transactions) db h)
      ];
    }

    Keeps-end_session :
        (subject id status : String) → Keeps P (modify (end_session o subject id status))
    unfolding end_session
    Keeps-end_session subject id status =
        R.aside (modify (end_session o subject id status)) (λ db. ground arith)

    Keeps-view_of :
        (id status : String) (credited : Bool) (name : Option String)
        → Keeps P (view_of o id status credited name)
    unfolding view_of
    Keeps-view_of id status credited name =
        R.aside (view_of o id status credited name) (λ db. ground arith)

    ruleset opening_rules = (
      keeps_rules, Keeps-upsert, Keeps-record_consent, Keeps-create_session, Keeps-ensure_session,
      Keeps-create_draft_checking, Keeps-resolve_onboarding_account, Keeps-upsert_holder,
      Keeps-set_onboarding_status, Keeps-ensure_identity, Keeps-ensure_welcome, Keeps-end_session,
      Keeps-view_of,
    )

    Keeps-finish_account :
        (env : Env) (subject : String) (a : Account) (data_of : Option Holder)
        (status session_status : String) (c : Client)
        → Keeps P (finish_account o env subject a data_of status session_status c)
    unfolding finish_account
    Keeps-finish_account env subject a data_of status session_status c =
        search opening_rules depth 20

    pub Keeps-complete :
        (env : Env) (subject : String) (p : Application) (email account_id : Option String)
        (c : Client)
        → Keeps P (complete o env subject p email account_id c)
    unfolding complete
    Keeps-complete env subject p email account_id c =
        search (opening_rules, Keeps-finish_account) depth 20

    pub Keeps-skip_and_open :
        (env : Env) (subject : String) (email name account_id : Option String) (c : Client)
        → Keeps P (skip_and_open o env subject email name account_id c)
    unfolding skip_and_open
    Keeps-skip_and_open env subject email name account_id c =
        search (opening_rules, Keeps-finish_account) depth 20

    pub Keeps-open_extra_draft :
        (env : Env) (subject holder_name : String)
        → Keeps P (open_extra_draft o env subject holder_name)
    unfolding open_extra_draft
    Keeps-open_extra_draft env subject holder_name = search opening_rules depth 20
