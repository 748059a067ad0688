-- ===== src/Users/Sessions.antt =====
-- The open session of an onboarding, and consents (app/repositories/user_repository.py).
use mathlib.Core.Path.{subst}
use e_bank_api.Prelude.{
  ◌+◌, ltb, sym, inl, inr, Bool-cases, ◌<◌, String, eq_iff, eq_refl, ◌≡◌, refl, ap, ◌∙◌, Bool, true,
  false, Option, none, some, List, [], ◌∷◌, ◌++◌, All, arith, if◌then◌else◌,
}
use e_bank_api.Models.{OnboardingSession, Consent, Db, Env, ok, pure, ◌>>=◌, new_uuid}
use e_bank_api.Users.{
  is_session_of, later, latest_of, latest_session, is_ended, draft_session, insert_session,
  create_session, open_or_create, ensure_session, has_consent, record_consent,
}

abbrev pub IsOpenFor : String → String → OnboardingSession → Type 0
IsOpenFor subject id s = (s.subject ≡ subject) × (s.account_id ≡ id) × (is_ended s ≡ false)

-- The latest session is one of that customer and account.
some_injective : {A : Type 0} {a b : A} → some a ≡ some b → a ≡ b
some_injective e = cc

if_true : {A : Type 0} (b : Bool) → b ≡ true → (x y : A) → (if b then x else y) ≡ x
if_true b e x y = rw e

if_false : {A : Type 0} (b : Bool) → b ≡ false → (x y : A) → (if b then x else y) ≡ y
if_false b e x y = rw e

latest_of-is_session_of :
    (first : OnboardingSession → OnboardingSession → Bool) (subject id : String)
    (rows : List OnboardingSession) (s : OnboardingSession)
    → latest_of first subject id rows ≡ some s
    → is_session_of subject id s ≡ true
unfolding latest_of later
latest_of-is_session_of first subject id [] s e = absurd (cc)
latest_of-is_session_of first subject id (r ∷ rows) s e =
    elim (Bool-cases (is_session_of subject id r)) [
      | inl own ↦
          of_later r (latest_of first subject id rows) s own
            (latest_of-is_session_of first subject id rows)
            (sym (if_true (is_session_of subject id r) own _ _) ∙ e)
      | inr other ↦
          latest_of-is_session_of first subject id rows s
            (sym (if_false (is_session_of subject id r) other _ _) ∙ e)
    ]
  where
    of_later :
        (r : OnboardingSession) (rest : Option OnboardingSession) (s : OnboardingSession)
        → is_session_of subject id r ≡ true
        → ((t : OnboardingSession) → rest ≡ some t → is_session_of subject id t ≡ true)
        → some (later first r rest) ≡ some s
        → is_session_of subject id s ≡ true
    of_later r none s own h e = rw (← some_injective e) own
    of_later r (some t) s own h e =
        by (ltb t.created_at r.created_at) (ltb r.created_at t.created_at) (first r t)
          (some_injective e)
      where
        by :
            (b c d : Bool)
            → (if b then r else if c then t else if d then r else t) ≡ s
            → is_session_of subject id s ≡ true
        by true c d k = rw (← k) own
        by false true d k = rw (← k) (h t refl)
        by false false true k = rw (← k) own
        by false false false k = rw (← k) (h t refl)

latest_of_append :
    (first : OnboardingSession → OnboardingSession → Bool) (subject id : String)
    (rows : List OnboardingSession) (s : OnboardingSession)
    → All (λ r. r.created_at < s.created_at) rows
    → is_session_of subject id s ≡ true
    → latest_of first subject id (rows ++ s ∷ []) ≡ some s
unfolding latest_of later
latest_of_append first subject id [] s h e = rw e
latest_of_append first subject id (r ∷ rows) s (le, h) e =
    rw (latest_of_append first subject id rows s h e) (by (is_session_of subject id r))
  where
    by : (b : Bool) → (if b then some (later first r (some s)) else some s) ≡ some s
    by true = ground arith
    by false = refl

drawn_once : Db → Db
drawn_once db = record db { drawn = db.drawn + 1 }

create_session_draft :
    (env : Env) (subject id : String) (s : OnboardingSession) (db db' : Db)
    → create_session env subject id db ≡ (ok s, db')
    → (s ≡ draft_session subject id (env.uuid db.drawn) (drawn_once db))
      × (db'.sessions ≡ db.sessions ++ s ∷ [])
      × (db'.sessions_first ≡ db.sessions_first)
unfolding create_session insert_session new_uuid drawn_once ◌>>=◌
create_session_draft env subject id s db db' e = (ground arith, ground arith, ground arith)

has_consent-append :
    (subject policy : String) (rows : List Consent)
    → has_consent subject policy
        (rows ++ record { subject = subject; policy_version = policy } ∷ [])
      ≡ true
unfolding has_consent
has_consent-append subject policy [] = rw (eq_refl subject, eq_refl policy)
has_consent-append subject policy (c ∷ rows) =
    ground (arith, has_consent-append subject policy rows)

has_consent_recorded :
    (subject policy : String) (db db' : Db)
    → record_consent subject policy db ≡ (ok tt, db')
    → has_consent subject policy db'.consents ≡ true
unfolding record_consent
has_consent_recorded subject policy db db' e =
    ground (arith, has_consent-append subject policy db.consents)

-- Once a consent is recorded, recording it again writes nothing.
pub record_consent_twice :
    (subject policy : String) (db db' : Db)
    → record_consent subject policy db ≡ (ok tt, db')
    → record_consent subject policy db' ≡ (ok tt, db')
unfolding record_consent
record_consent_twice subject policy db db' e =
    rw (has_consent_recorded subject policy db db' e) refl

-- The answer of `ensure_session`: the latest session if it is open, or a new one.
data Ensured (env : Env) (subject id : String) (s : OnboardingSession) (db db' : Db) : Type 0 where
  kept :
      latest_session subject id db ≡ some s
      → is_ended s ≡ false
      → db' ≡ db
      → Ensured env subject id s db db'
  created :
      s ≡ draft_session subject id (env.uuid db.drawn) (drawn_once db)
      → db'.sessions ≡ db.sessions ++ s ∷ []
      → db'.sessions_first ≡ db.sessions_first
      → Ensured env subject id s db db'

ensured :
    (env : Env) (subject id : String) (s : OnboardingSession) (db db' : Db)
    → ensure_session env subject id db ≡ (ok s, db')
    → Ensured env subject id s db db'
unfolding ensure_session open_or_create
ensured env subject id s db db' e = by (latest_session subject id db) refl e
  where
    new : create_session env subject id db ≡ (ok s, db') → Ensured env subject id s db db'
    new k =
        let (row, rows, order) = create_session_draft env subject id s db db' k in
        created row rows order

    unless_ended :
        (t : OnboardingSession)
        → latest_session subject id db ≡ some t
        → (b : Bool) → is_ended t ≡ b
        → (if b then create_session env subject id else pure t) db ≡ (ok s, db')
        → Ensured env subject id s db db'
    unless_ended t found true k h = new h
    unless_ended t found false k h =
        let same : t ≡ s = cc in kept (found ∙ ap some same) (ap is_ended (sym same) ∙ k) (cc)

    by :
        (o : Option OnboardingSession)
        → latest_session subject id db ≡ o
        → open_or_create env subject id o db ≡ (ok s, db')
        → Ensured env subject id s db db'
    by none found h = new h
    by (some t) found h = unless_ended t found (is_ended t) refl h

own_session :
    (subject id : String) (s : OnboardingSession)
    → is_session_of subject id s ≡ true
    → (s.subject ≡ subject) × (s.account_id ≡ id)
own_session subject id s e =
    ((eq_iff s.subject subject).0 (ground arith), (eq_iff s.account_id id).0 (ground arith))

draft_is_own :
    (subject id key : String) (db : Db) → IsOpenFor subject id (draft_session subject id key db)
unfolding draft_session
draft_is_own subject id key db = (refl, refl, refl)

-- A session that `ensure_session` answers with is of that customer and account, and is neither
-- skipped nor approved.
pub ensure_session-IsOpenFor :
    (env : Env) (subject id : String) (s : OnboardingSession) (db db' : Db)
    → ensure_session env subject id db ≡ (ok s, db')
    → IsOpenFor subject id s
ensure_session-IsOpenFor env subject id s db db' e = by (ensured env subject id s db db' e)
  where
    by : Ensured env subject id s db db' → IsOpenFor subject id s
    by (kept found opened same) =
        let own =
          own_session subject id s
            (latest_of-is_session_of db.sessions_first subject id db.sessions s found) in
        (own.0, own.1, opened)
    by (created row rows order) =
        subst (IsOpenFor subject id) (sym row) (draft_is_own subject id _ _)

again :
    (env : Env) (subject id : String) (s : OnboardingSession) (db : Db)
    → latest_session subject id db ≡ some s
    → is_ended s ≡ false
    → ensure_session env subject id db ≡ (ok s, db)
unfolding ensure_session open_or_create
again env subject id s db found opened = rw (found, ensure_session) (rw opened refl)

-- Where every session is from before the clock, a second `ensure_session` answers with the session of
-- the first, and writes nothing.
pub ensure_session_twice :
    (env env' : Env) (subject id : String) (s : OnboardingSession) (db db' : Db)
    → All (λ r. r.created_at < db.now) db.sessions
    → ensure_session env subject id db ≡ (ok s, db')
    → ensure_session env' subject id db' ≡ (ok s, db')
unfolding draft_session drawn_once
ensure_session_twice env env' subject id s db db' clock e = by (ensured env subject id s db db' e)
  where
    by : Ensured env subject id s db db' → ensure_session env' subject id db' ≡ (ok s, db')
    by (kept found opened same) =
        subst (λ d. ensure_session env' subject id d ≡ (ok s, d)) (sym same)
          (again env' subject id s db found opened)
    by (created row rows order) =
        let (of_subject, of_account, opened) = ensure_session-IsOpenFor env subject id s db db' e in
        let own : is_session_of subject id s ≡ true =
          rw (of_subject, of_account, eq_refl subject, eq_refl id) in
        let now : s.created_at ≡ db.now = ap (λ (t : OnboardingSession). t.created_at) row in
        let latest : latest_session subject id db' ≡ some s =
          ap (λ f. latest_of f subject id db'.sessions) order
          ∙ ap (latest_of db.sessions_first subject id) rows
          ∙ latest_of_append db.sessions_first subject id db.sessions s
              (subst (λ m. All (λ r. r.created_at < m) db.sessions) (sym now) clock) own in
        again env' subject id s db' latest opened
