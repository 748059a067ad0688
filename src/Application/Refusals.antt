-- ===== src/Application/Refusals.antt =====
-- A refused request changes no table, through the middleware too.
use e_bank_api.Prelude.{
  ◌<◌, ◌≡◌, refl, ap, sym, ◌∙◌, inl, inr, true, not, ◌||◌, Option, none, some, List, [], String,
}
use e_bank_api.Models.{Env, Outcome, ok, err, Exec}
use e_bank_api.Idempotency.{Config}
use e_bank_api.Middleware.{Request, Response, World, is_mutating, member, on_app}
use e_bank_api.Middleware.Refused.{is_refused, IsPassedOn, passed_if, dispatch-IsPassedOn}
use e_bank_api.Routes.{Incoming, Call, Answer, Backend}
use e_bank_api.Routes.Serve.{serve}
use e_bank_api.Routes.Atomic.{serve-undone}
use e_bank_api.Application.{
  raise, extract_user_id, status_for, App, answered, response_of, routed, fronted, keyed,
  application,
}

module _ (a : App) (env : Env) (q : Incoming) where
  -- A route that returns is refused only where the database is down, at the check of readiness.
  returned :
      (call : Call) (s s' : Backend) (x : Answer)
      → serve a.service env q call s ≡ (ok x, s')
      → is_refused (answered a call (ok x)) ≡ true
      → s'.db ≡ s.db
  unfolding answered response_of status_for
  returned Call.ready s s' x ran refused =
      unfold serve in sym (ap (λ (r : Outcome Answer × Backend). r.1.db) ran)
  returned _ s s' x ran refused = absurd (cc)

  -- What a route that is refused leaves.
  routed_refused :
      (call : Call) (s : Backend)
      → s.db.account_number_pending ≡ none
      → is_refused (routed a env q call s).0 ≡ true
      → (routed a env q call s).1.db ≡ s.db
  unfolding routed
  routed_refused call s closed refused = by (serve a.service env q call s) refl refused
    where
      by :
          (r : Outcome Answer × Backend)
          → serve a.service env q call s ≡ r
          → is_refused (answered a call r.0) ≡ true
          → r.1.db ≡ s.db
      by (ok x, s') ran bad = returned call s s' x ran bad
      by (err e, s') ran bad =
          sym (ap (λ (r : Outcome Answer × Backend). r.1.db) ran)
          ∙ serve-undone a.service env q call s e closed
              (ap (λ (r : Outcome Answer × Backend). r.0) ran)

fronted_passed :
    {S : Type 0} (c : Config) (excluded : List String) (r : Request)
    (user : Outcome (Option String)) (handler : Exec S Response) (w : World S)
    → w.redis.faults ≡ []
    → 0 < c.ttl_processing
    → IsPassedOn handler w.app (fronted c excluded r user handler w)
unfolding fronted
fronted_passed c excluded r (ok u) handler w calm ttl =
    dispatch-IsPassedOn c excluded (record r { user = u }) handler w calm ttl
fronted_passed c excluded r (err e) handler w calm ttl =
    passed_if handler (not (is_mutating r.method) || member r.path excluded) (on_app handler)
      (raise e) w (inr (refl, λ h. h)) (inl refl)

-- Redis does not fail, and the lock of a running request lasts.
pub record IsCalm (a : App) (w : World Backend) : Type 0 where
  pub calm : w.redis.faults ≡ []
  pub lasting : (c : Config) → a.idempotency ≡ some c → 0 < c.ttl_processing

pub application-IsPassedOn :
    (a : App) (env : Env) (r : Request) (q : Incoming) (call : Call) (w : World Backend)
    → IsCalm a w
    → IsPassedOn (routed a env q call) w.app (application a env r q call w)
unfolding application
application-IsPassedOn a env r q call w k = by a.idempotency k.lasting
  where
    by :
        (o : Option Config)
        → ((c : Config) → o ≡ some c → 0 < c.ttl_processing)
        → let m : Exec (World Backend) Response = elim o [
          | none ↦ on_app (routed a env q call)
          | some c ↦
              fronted c a.excluded
                (keyed a.service.oidc q r)
                (extract_user_id a.service.oidc q.auth)
                (routed a env q call)
        ] in
          IsPassedOn (routed a env q call) w.app (m w)
    by none lasting = inr (refl, λ h. h)
    by (some c) lasting =
        fronted_passed c a.excluded (keyed a.service.oidc q r)
          (extract_user_id a.service.oidc q.auth) (routed a env q call) w k.calm (lasting c refl)

-- Where Redis does not fail and the lock of a running request lasts: a request of any route that is
-- answered with a status of 400 or more, or with an exception, leaves every table as it was.
pub refused_request :
    (a : App) (env : Env) (r : Request) (q : Incoming) (call : Call) (w : World Backend)
    → IsCalm a w
    → w.app.db.account_number_pending ≡ none
    → is_refused (application a env r q call w).0 ≡ true
    → (application a env r q call w).1.app.db ≡ w.app.db
refused_request a env r q call w k closed refused =
    elim (application-IsPassedOn a env r q call w k) [
      | inl same ↦ ap (λ (s : Backend). s.db) same
      | inr (ran, passed) ↦
          ap (λ (s : Backend). s.db) ran ∙ routed_refused a env q call w.app closed (passed refused)
    ]
