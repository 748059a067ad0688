-- ===== src/Onboarding/Started.antt =====
-- What `start` (app/services/onboarding_service.py) does to an account that it is given.
use e_bank_api.Prelude.{
  String, eq_iff, ◌≡◌, ◌≢◌, refl, ap, sym, ◌∙◌, Bool, true, false, Option, none, some, arith,
  if◌then◌else◌, ne→eq_false,
}
use e_bank_api.Prelude.Table.{find, key-find, find-save}
use e_bank_api.Models.{
  Account, OnboardingSession, Db, Env, ok, pure, modify, gets, ◌>>=◌, ◌>>◌, >>=-eq-ok, new_uuid,
}
use e_bank_api.Ledger.{account_key, get_account}
use e_bank_api.Users.{
  upsert, latest_session, is_ended, create_session, insert_session, open_or_create, ensure_session,
}
use e_bank_api.OnboardingAccounts.{
  Numbering, owned_checking, get_owned_checking, resolve_onboarding_account,
}
use e_bank_api.Onboarding.{OnboardingStatus, set_onboarding_status, status_for, status_text, start}

upsert_accounts :
    (subject : String) (email name : Option String) (db : Db)
    → (upsert subject email name db).1.accounts ≡ db.accounts
unfolding upsert
upsert_accounts subject email name db = ground arith

create_session_accounts :
    (env : Env) (subject id : String) (db : Db)
    → (create_session env subject id db).1.accounts ≡ db.accounts
unfolding create_session insert_session new_uuid ◌>>=◌
create_session_accounts env subject id db = ground arith

ensure_session_accounts :
    (env : Env) (subject id : String) (db : Db)
    → (ensure_session env subject id db).1.accounts ≡ db.accounts
unfolding ensure_session open_or_create
ensure_session_accounts env subject id db = by (latest_session subject id db)
  where
    unless_ended :
        (s : OnboardingSession) (b : Bool)
        → ((if b then create_session env subject id else pure s) db).1.accounts ≡ db.accounts
    unless_ended s true = create_session_accounts env subject id db
    unless_ended s false = refl

    by :
        (o : Option OnboardingSession)
        → (open_or_create env subject id o db).1.accounts ≡ db.accounts
    by none = create_session_accounts env subject id db
    by (some s) = unless_ended s (is_ended s)

-- An account that is given is the row of its id.
resolve_given :
    (env : Env) (n : Numbering) (subject id : String) (create : Bool) (a : Account) (db db' : Db)
    → id ≢ ""
    → resolve_onboarding_account env n subject (some id) create db ≡ (ok a, db')
    → (get_account id db ≡ some a) × (db' ≡ db)
unfolding resolve_onboarding_account get_owned_checking owned_checking
resolve_given env n subject id create a db db' real h = ground (arith, ne→eq_false id "" real)

abbrev restarted : Account → Account
restarted a = record a { onboarding_status = "in_progress" }

set_status_found :
    (id status : String) (a : Account) (db : Db)
    → get_account id db ≡ some a
    → get_account id (set_onboarding_status id status db)
      ≡ some (record a { onboarding_status = status })
unfolding set_onboarding_status
set_status_found id status a db found =
    let same : a.id ≡ id = key-find account_key id db.accounts a found in
    let row : Account = record a { onboarding_status = status } in
    rw (found, set_onboarding_status)
      (find-save account_key id row a db.accounts (ap (λ k. get_account k db) same ∙ found)
        ∙ ap (λ b. if b then some row else get_account id db) ((eq_iff a.id id).1 same))

some_injective : {A : Type 0} {a b : A} → some a ≡ some b → a ≡ b
some_injective e = cc

restarted_at :
    (subject : String) (b : Account) (v : OnboardingStatus) (db db' : Db)
    → get_account b.id db ≡ some b
    → (modify (set_onboarding_status b.id "in_progress") >> gets (status_for subject b)) db
      ≡ (ok v, db')
    → (get_account b.id db' ≡ some (restarted b)) × (v.onboarding_status ≡ "in_progress")
unfolding status_for status_text ◌>>=◌
restarted_at subject b v db db' row h =
    let after = set_onboarding_status b.id "in_progress" db in
    let saved : get_account b.id after ≡ some (restarted b) =
      set_status_found b.id "in_progress" b db row in
    let same : after ≡ db' = cc in
    let answer : status_for subject b after ≡ v = cc in
    (
      ap (get_account b.id) (sym same) ∙ saved,
      ap (λ (u : OnboardingStatus). u.onboarding_status) (sym answer)
          ∙ ap (status_text b.onboarding_status) saved,
    )

-- A `start` that returns, for an id that is not empty and an account with that id, has set that
-- account to in_progress, whatever its status was, changed nothing else of it, and answers
-- in_progress.
pub start_reopens :
    (env : Env) (n : Numbering) (subject id : String) (a : Account) (v : OnboardingStatus)
    (db db' : Db)
    → id ≢ ""
    → get_account id db ≡ some a
    → start env n subject (some id) db ≡ (ok v, db')
    → (get_account id db' ≡ some (restarted a)) × (v.onboarding_status ≡ "in_progress")
unfolding start
start_reopens env n subject id a v db db' real found h =
    let (_, db1, upserted, h1) = >>=-eq-ok (upsert subject none none) _ db h in
    let (b, db2, resolved, h2) =
      >>=-eq-ok (resolve_onboarding_account env n subject (some id) true) _ db1 h1 in
    let (_, db3, opened, h3) = >>=-eq-ok (ensure_session env subject b.id) _ db2 h2 in
    let (there, kept) = resolve_given env n subject id true b db1 db2 real resolved in
    let accounts1 : db1.accounts ≡ db.accounts =
      sym (ap (λ r. r.1.accounts) upserted) ∙ upsert_accounts subject none none db in
    let accounts3 : db3.accounts ≡ db2.accounts =
      sym (ap (λ r. r.1.accounts) opened) ∙ ensure_session_accounts env subject b.id db2 in
    let same : b ≡ a = some_injective (sym there ∙ ap (find account_key id) accounts1 ∙ found) in
    let key : b.id ≡ id = key-find account_key id db1.accounts b there in
    let row : get_account b.id db3 ≡ some b =
      ap (find account_key b.id) (accounts3 ∙ ap (λ (d : Db). d.accounts) kept)
      ∙ ap (λ k. get_account k db1) key
      ∙ there in
    let (left, answer) = restarted_at subject b v db3 db' row h3 in
    (ap (λ k. get_account k db') (sym key) ∙ left ∙ ap (λ c. some (restarted c)) same, answer)
