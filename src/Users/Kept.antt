-- ===== src/Users/Kept.antt =====
-- What every routine of the tables keeps, the user repository (app/repositories/user_repository.py) keeps.
use e_bank_api.Prelude.{String, none, some, Option, arith}
use e_bank_api.Json.{Fields}
use e_bank_api.Models.{OnboardingSession, Db, Env, pure, ◌>>=◌, new_uuid}
use e_bank_api.Models.Keeps.{Keeps, Keeps-if, Keeps-pure}
use e_bank_api.Routine.{Routine}
use e_bank_api.Users.{
  upsert, insert_session, draft_session, create_session, open_or_create, ensure_session,
  insert_document, add_document, record_consent, is_ended, latest_session,
}

module _ {P : Db → Type 0} (R : Routine P) where
  pub Keeps-upsert :
      (subject : String) (email name : Option String) → Keeps P (upsert subject email name)
  unfolding upsert
  Keeps-upsert subject email name = R.aside (upsert subject email name) (λ db. ground arith)

  pub Keeps-record_consent : (subject policy : String) → Keeps P (record_consent subject policy)
  unfolding record_consent
  Keeps-record_consent subject policy = R.aside (record_consent subject policy) (λ db. ground arith)

  pub Keeps-create_session :
      (env : Env) (subject id : String) → Keeps P (create_session env subject id)
  unfolding create_session insert_session draft_session new_uuid ◌>>=◌
  Keeps-create_session env subject id = R.aside (create_session env subject id) (λ db. ground arith)

  Keeps-open_or_create :
      (env : Env) (subject id : String) (latest : Option OnboardingSession)
      → Keeps P (open_or_create env subject id latest)
  unfolding open_or_create
  Keeps-open_or_create env subject id none = Keeps-create_session env subject id
  Keeps-open_or_create env subject id (some s) =
      Keeps-if P (is_ended s) (create_session env subject id) (pure s)
        (Keeps-create_session env subject id) (Keeps-pure P s)

  pub Keeps-ensure_session :
      (env : Env) (subject id : String) → Keeps P (ensure_session env subject id)
  unfolding ensure_session
  Keeps-ensure_session env subject id = record {
    after = λ db h. (Keeps-open_or_create env subject id (latest_session subject id db)).after db h;
  }

  pub Keeps-add_document :
      (env : Env) (session doc_type : String) (extraction : Option String) (status : String)
      (summary : Option Fields)
      → Keeps P (add_document env session doc_type extraction status summary)
  unfolding add_document insert_document new_uuid ◌>>=◌
  Keeps-add_document env session doc_type extraction status summary =
      R.aside (add_document env session doc_type extraction status summary) (λ db. ground arith)
