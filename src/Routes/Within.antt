-- ===== src/Routes/Within.antt =====
-- A request's session: what it leaves of the database, and that none stays open behind it.
use e_bank_api.Prelude.{
  Option-cases, Bool, String, Option, none, some, ◌≡◌, refl, ap, sym, ◌∙◌, arith,
}
use mathlib.Core.Path.{subst}
use e_bank_api.Legacy
use e_bank_api.Validation.{Texts}
use e_bank_api.Transfers.{require_active, require_onboarded_account}
use e_bank_api.Recipients.{resolve}
use e_bank_api.Accounts.{get}
use e_bank_api.Ledger.{get_account}
use e_bank_api.OnboardingAccounts.{require_ready}
use e_bank_api.Models.{Db, Env, Outcome, Exec, Action, ◌>>=◌, get_db}
use e_bank_api.Models.Keeps.{Keeps-bind, Keeps-if, Keeps, keeps_rules}
use e_bank_api.Auth.{Principal}
use e_bank_api.Requests.{Bank, committed, Step, Reach, onwards}
use e_bank_api.Routes.{
  Bucket, on_receipts, on_counters, Limits, Counters, Service, Incoming, Answer, Backend,
  in_session, reading, accepted,
}
use e_bank_api.Routes.Answers.{legacy, resolving, limited, enforce_rate_limit}
use e_bank_api.Routes.Serve.{signed_in}

-- Steps of the bank have led here, and no session is open.
pub record Within (b : Bank) (first : Db) (s : Backend) : Type 0 where
  pub steps : Reach b first s.db
  pub closed : s.db.account_number_pending ≡ none

module _ (b : Bank) (env : Env) (first : Db) where
  pub Keeps-in_session :
      {A : Type 0} (m : Action A)
      → ((db : Db) → Step b env db (committed m db))
      → Keeps (Within b first) (in_session m)
  unfolding in_session committed
  Keeps-in_session m step = record {
    after = λ s w. record { steps = onwards env w.steps (step s.db); closed = refl };
  }

-- A session that was never open ends as it was.
ended_same :
    (db : Db) → db.account_number_pending ≡ none → record db { account_number_pending = none } ≡ db
ended_same db closed = ground arith

get_db-reader :
    {A : Type 0} (m : Action A) (db : Db) → ((db : Db) → (m db).1 ≡ db) → (get_db m db).1 ≡ db
unfolding get_db
get_db-reader m db same = ground (arith, same db)

reader_session :
    {A : Type 0} (m : Action A) (s : Backend)
    → ((db : Db) → (m db).1 ≡ db)
    → s.db.account_number_pending ≡ none
    → (in_session m s).1 ≡ s
unfolding in_session
reader_session m s same closed =
    ap (λ d. record s { db = record d { account_number_pending = none } })
      (get_db-reader m s.db same)
    ∙ ap (λ d. record s { db = d }) (ended_same s.db closed)

pub resolving_state :
    (t : Texts) (subject : String) (account document : Option String) (db : Db)
    → (resolving t subject account document db).1 ≡ db
unfolding resolving require_onboarded_account require_active require_ready resolve ◌>>=◌
resolving_state t subject account document db = ground arith

pub get_balance_state : (id : String) (db : Db) → (Legacy.get_balance id db).1 ≡ db
unfolding Legacy.get_balance get ◌>>=◌
get_balance_state id db = ground (arith, Option-cases (get_account id db))

module _ (b : Bank) (first : Db) where
  pub Keeps-reading_session :
      {A : Type 0} (m : Action A)
      → ((db : Db) → (m db).1 ≡ db)
      → Keeps (Within b first) (in_session m)
  Keeps-reading_session m same = record {
    after = λ s w. subst (Within b first) (sym (reader_session m s same w.closed)) w;
  }

  pub Keeps-reading : {A : Type 0} (f : Db → Outcome A) → Keeps (Within b first) (reading f)
  unfolding reading
  Keeps-reading f = record { after = λ s w. w }

  pub Keeps-on_receipts :
      {A : Type 0} (f : Db → Exec Bucket A) → Keeps (Within b first) (on_receipts f)
  unfolding on_receipts
  Keeps-on_receipts f = record { after = λ s w. record { steps = w.steps; closed = w.closed } }

  Keeps-on_counters : {A : Type 0} (m : Exec Counters A) → Keeps (Within b first) (on_counters m)
  Keeps-on_counters m = record { after = λ s w. record { steps = w.steps; closed = w.closed } }

  pub Keeps-accepted : (ok_body : Bool) → Keeps (Within b first) (accepted ok_body)
  unfolding accepted
  Keeps-accepted ok_body = search (keeps_rules)

module _ (sv : Service) (first : Db) where
  Keeps-limited :
      (l : Option Limits) (p : Principal) → Keeps (Within sv.bank first) (limited sv l p)
  unfolding limited
  Keeps-limited none p = search (keeps_rules)
  Keeps-limited (some l) p = search (keeps_rules, Keeps-on_counters) depth 12

  pub Keeps-enforce_rate_limit :
      (p : Principal) → Keeps (Within sv.bank first) (enforce_rate_limit sv p)
  unfolding enforce_rate_limit
  Keeps-enforce_rate_limit p = search (keeps_rules, Keeps-limited) depth 12

module _ (sv : Service) (env : Env) (first : Db) where
  pub Keeps-signed_in :
      (q : Incoming) (route : Principal → Exec Backend Answer)
      → ((p : Principal) → Keeps (Within sv.bank first) (route p))
      → Keeps (Within sv.bank first) (signed_in sv env q route)
  unfolding signed_in
  Keeps-signed_in q route each = search (keeps_rules, each) depth 12

  pub Keeps-legacy :
      (q : Incoming) (route : Exec Backend Answer)
      → Keeps (Within sv.bank first) route
      → Keeps (Within sv.bank first) (legacy sv env q route)
  unfolding legacy
  Keeps-legacy q route each =
      Keeps-if (Within sv.bank first) sv.mount_legacy _ _
        (Keeps-bind (Within sv.bank first) _ _ (search keeps_rules) (λ _. each))
        (search keeps_rules)
