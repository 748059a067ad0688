-- ===== src/Onboarding/Kept.antt =====
-- What every routine keeps, the wizard (app/services/onboarding_service.py) keeps.
use e_bank_api.Prelude.{
  Bool, true, if◌then◌else◌, false, String, Option, inl, inr, Option-cases, refl, arith,
}
use e_bank_api.Json.{Fields}
use e_bank_api.Models.{Account, Db, Env, Outcome, modify}
use e_bank_api.Models.Keeps.{Keeps, keeps_rules}
use e_bank_api.Ledger.{get_account}
use e_bank_api.Routine.{Routine}
use e_bank_api.Users.Kept.{
  Keeps-upsert, Keeps-record_consent, Keeps-ensure_session, Keeps-add_document,
}
use e_bank_api.OnboardingAccounts.{Numbering, resolve_onboarding_account}
use e_bank_api.OnboardingAccounts.Kept.{Keeps-resolve_onboarding_account}
use e_bank_api.Onboarding.{
  set_onboarding_status, on_resolved, resolved_status, get_status, start, consent, attach_document,
  is_incomplete,
}

module _ {P : Db → Type 0} (R : Routine P) where
  pub Keeps-set_onboarding_status :
      (id status : String) → Keeps P (modify (set_onboarding_status id status))
  unfolding set_onboarding_status
  Keeps-set_onboarding_status id status = record {
    after = λ db h. elim (Option-cases (get_account id db)) [
      | inl missing ↦ rw (missing, set_onboarding_status) h
      | inr (a, e) ↦
          rw (e, set_onboarding_status)
            (R.saved id a (record a { onboarding_status = status }) db e refl refl h)
    ];
  }

  Keeps-if_incomplete :
      (a : Account)
      → Keeps P (
          modify
            (λ db. if is_incomplete a then set_onboarding_status a.id "in_progress" db else db))
  Keeps-if_incomplete a = record { after = λ db h. by (is_incomplete a) db h }
    where
      by :
          (b : Bool) (db : Db)
          → P db
          → P (if b then set_onboarding_status a.id "in_progress" db else db)
      by true db h = (Keeps-set_onboarding_status a.id "in_progress").after db h
      by false db h = h

  Keeps-on_resolved : (subject : String) (r : Outcome Account) → Keeps P (on_resolved subject r)
  unfolding on_resolved
  Keeps-on_resolved subject r = R.aside (on_resolved subject r) (λ db. ground arith)

  Keeps-resolved_status :
      (env : Env) (n : Numbering) (subject : String) (id : Option String)
      → Keeps P (resolved_status env n subject id)
  unfolding resolved_status
  Keeps-resolved_status env n subject id = record {
    after = λ db h.
        let (result, db') = resolve_onboarding_account env n subject id false db in
        (Keeps-on_resolved subject result).after db'
          (((Keeps-resolve_onboarding_account R) env n subject id false).after db h);
  }

  ruleset wizard_rules = (
    keeps_rules, Keeps-upsert, Keeps-record_consent, Keeps-ensure_session, Keeps-add_document,
    Keeps-resolve_onboarding_account, Keeps-set_onboarding_status, Keeps-if_incomplete,
    Keeps-resolved_status,
  )

  pub Keeps-get_status :
      (env : Env) (n : Numbering) (subject : String) (id : Option String)
      → Keeps P (get_status env n subject id)
  unfolding get_status
  Keeps-get_status env n subject id = search wizard_rules depth 20

  pub Keeps-start :
      (env : Env) (n : Numbering) (subject : String) (id : Option String)
      → Keeps P (start env n subject id)
  unfolding start
  Keeps-start env n subject id = search wizard_rules depth 20

  pub Keeps-consent : (subject policy : String) → Keeps P (consent subject policy)
  unfolding consent
  Keeps-consent subject policy = search wizard_rules depth 20

  pub Keeps-attach_document :
      (env : Env) (n : Numbering) (subject doc_type : String) (extraction : Option String)
      (summary : Option Fields) (id : Option String)
      → Keeps P (attach_document env n subject doc_type extraction summary id)
  unfolding attach_document
  Keeps-attach_document env n subject doc_type extraction summary id = search wizard_rules depth 24
