-- ===== src/Application/Production.antt =====
-- What the checks at the start of app/main.py guarantee in production.
use e_bank_api.Prelude.{◌≡◌, ◌≢◌, refl, true, false, arith}
use e_bank_api.Models.{◌>>=◌, Env, Outcome, ok, err, Exec}
use e_bank_api.Auth.{Oidc, Principal, has_permission, require_authenticated_bank_write}
use e_bank_api.Auth.Granted.{IsFrom, require_authenticated-IsFrom}
use e_bank_api.Assembly.{
  Surroundings, Settings, State, is_production, mount_legacy_challenge_routes, lifespan, allowed,
}
use e_bank_api.Routes.{Service, Incoming, Call, Answer, Backend}
use e_bank_api.Routes.Answers.{legacy}
use e_bank_api.Routes.Serve.{serve, signed_in}
use e_bank_api.Application.{Error, App, assembled}

module _ (p : Surroundings) (s : Settings) (o : Oidc) (st : State) where
  lifespan_checks :
      lifespan p s o ≡ ok st
      → is_production p s ≡ true
      → (o.enabled ≡ true) × (mount_legacy_challenge_routes p s ≡ false)
  unfolding lifespan allowed
  lifespan_checks started production = ground arith

module _ (sv : Service) (env : Env) (q : Incoming) (unmounted : sv.mount_legacy ≡ false) where
  -- A route behind the check of the caller that the caller does not pass.
  signed_out :
      (route : Principal → Exec Backend Answer) (s : Backend) (e : Error)
      → require_authenticated_bank_write sv.oidc q.auth ≡ err e
      → (signed_in sv env q route s).1.db ≡ s.db
  unfolding signed_in ◌>>=◌
  signed_out route s e who = rw who refl

  no_legacy : (route : Exec Backend Answer) (s : Backend) → (legacy sv env q route s).1.db ≡ s.db
  unfolding legacy
  no_legacy route s = rw unmounted refl

  stranger :
      (call : Call) (s : Backend) (e : Error)
      → require_authenticated_bank_write sv.oidc q.auth ≡ err e
      → (serve sv env q call s).1.db ≡ s.db
  unfolding serve
  stranger Call.health s e who = refl
  stranger Call.ready s e who = refl
  stranger Call.demo_meta s e who = refl
  stranger Call.reset s e who = no_legacy _ s
  stranger (Call.balance id) s e who = no_legacy _ s
  stranger (Call.event b) s e who = no_legacy _ s
  stranger _ s e who = signed_out _ s e who

-- Of an application that has started in production: a request that changes a table, at whatever route, is from
-- a caller who passes the check of a writing route: who has the permission to write and is no service, and
-- whose token is their own, or a service's whose request brings the shared secret, which is set, and
-- names the user.
pub production_change :
    (p : Surroundings) (settings : Settings) (st : State) (a : App) (env : Env) (q : Incoming)
    (call : Call) (s : Backend)
    → lifespan p settings a.service.oidc ≡ ok st
    → is_production p settings ≡ true
    → (serve (assembled p settings st a).service env q call s).1.db ≢ s.db
    → (user : Principal) × (require_authenticated_bank_write a.service.oidc q.auth ≡ ok user)
      × (has_permission user "bank:write" ≡ true)
      × (user.is_m2m ≡ false)
      × IsFrom a.service.oidc q.auth user
unfolding assembled
production_change p settings st a env q call s started production changed =
    by (require_authenticated_bank_write a.service.oidc q.auth) refl
  where
    by :
        (r : Outcome Principal)
        → require_authenticated_bank_write a.service.oidc q.auth ≡ r
        → (user : Principal) × (require_authenticated_bank_write a.service.oidc q.auth ≡ ok user)
          × (has_permission user "bank:write" ≡ true)
          × (user.is_m2m ≡ false)
          × IsFrom a.service.oidc q.auth user
    by (ok user) who =
        let (on, _) = lifespan_checks p settings a.service.oidc st started production in
        let (may, real, from) = require_authenticated-IsFrom a.service.oidc q.auth user on who in
        (user, who, may, real, from)
    by (err e) who =
        let (_, off) = lifespan_checks p settings a.service.oidc st started production in
        absurd (changed (stranger (assembled p settings st a).service env q off call s e who))
