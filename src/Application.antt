-- ===== src/Application.antt =====
-- The application as app/main.py puts it together: the idempotency middleware
-- (app/middleware/idempotency_middleware.py) before the routes, and the exception handlers
-- between the two.
pub mod Refusals
pub mod Production
use e_bank_api.Prelude.{
  ℕ, String, ◌==◌, Bool, true, false, not, ◌||◌, Option, none, some, List, if◌then◌else◌, leb,
}
use e_bank_api.Errors.{Error, auth_error}
use e_bank_api.Models.{Env, Outcome, ok, err, Exec, raise}
use e_bank_api.Auth.{Oidc, Headers, Principal, built, bearer_token, resolve_effective_principal}
use e_bank_api.Idempotency.{Config}
use e_bank_api.Middleware
use e_bank_api.Middleware.{Request, Response, Body, World, is_mutating, member, on_app}
use e_bank_api.Presentation.{text_or_empty}
use e_bank_api.Handlers.{responded}
use e_bank_api.Assembly
use e_bank_api.Assembly.{Surroundings, State}
use e_bank_api.Events.{reset_allowed, EventOut}
use e_bank_api.Routes.{Service, Incoming, Call, Answer, readiness, moved, Backend}
use e_bank_api.Routes.Serve.{serve}

-- The routes' service; the idempotency service, if there is one, and the paths that it leaves alone; the
-- bodies that FastAPI makes of answers and the handlers of exceptions.
pub record App : Type 0 where
  pub service : Service
  pub idempotency : Option Config
  pub excluded : List String
  pub encode : Answer → Body
  pub wording : Error → Body

subject_of : Outcome Principal → Outcome (Option String)
subject_of (ok p) = ok (some p.subject)
subject_of (err (auth_error _)) = ok none
subject_of (err e) = err e

-- `extract_user_id`, of a request that carries no principal yet
unfoldable pub extract_user_id : Oidc → Headers → Outcome (Option String)
unfolding subject_of
extract_user_id o h =
    if o.enabled
    then elim (built o o.failure) [
      | ok _ ↦ subject_of (resolve_effective_principal o (bearer_token o h) h)
      | err e ↦ err e
    ]
    else ok none

-- The status of what a route returns.
unfoldable pub status_for : Service → Call → ℕ
status_for sv Call.ready = if sv.database_up then 200 else 503
status_for sv (Call.event b) = 201
status_for sv _ = 200

unfoldable pub response_of : ℕ → Body → Response
response_of status body = record {
  status = status;
  body = body;
  key = none;
  mark = none;
  retry_after = none;
}

unfoldable pub answered : App → Call → Outcome Answer → Outcome Response
unfolding response_of
answered a call (ok x) = ok (response_of (status_for a.service call) (a.encode x))
answered a call (err e) = responded a.wording e

-- The routes, with the handlers of their exceptions.
unfoldable pub routed : App → Env → Incoming → Call → Exec Backend Response
unfolding answered
routed a env q call s = let (r, s') = serve a.service env q call s in (answered a call r, s')

-- `dispatch` of the middleware, with the user that it extracts.
unfoldable pub fronted :
    {S : Type 0}
    → Config
    → List String
    → Request
    → Outcome (Option String)
    → Exec S Response
    → Exec (World S) Response
fronted c excluded r (ok u) handler = Middleware.dispatch c excluded (record r { user = u }) handler
fronted c excluded r (err e) handler =
    if not (is_mutating r.method) || member r.path excluded then on_app handler else raise e

-- The header Idempotency-Key, as the middleware reads it.
unfoldable pub keyed : Oidc → Incoming → Request → Request
keyed o q r = record r { client_key = o.strip (text_or_empty q.idempotency_key) }

-- A request through the middleware, where there is an idempotency service, to its route.
unfoldable pub application : App → Env → Request → Incoming → Call → Exec (World Backend) Response
unfolding keyed
application a env r q call = elim a.idempotency [
  | none ↦ on_app (routed a env q call)
  | some c ↦
      fronted c a.excluded (keyed a.service.oidc q r) (extract_user_id a.service.oidc q.auth)
        (routed a env q call)
]

-- What the settings and the state of an application that has started make of its service.
unfoldable pub assembled : Surroundings → Assembly.Settings → State → App → App
assembled p s st a = record a {
  service = record a.service {
    rate_limit_enabled = s.rate_limit_enabled;
    rate_limit_window_seconds = s.rate_limit_window_seconds;
    rate_limiter = st.rate_limiter;
    idempotency_enabled = s.idempotency_enabled;
    mount_legacy = Assembly.mount_legacy_challenge_routes p s;
    reset_allowed = reset_allowed p.lower s.reset_enabled s.env;
  };
  idempotency = elim st.idempotency_service [
    | none ↦ none
    | some t ↦ elim a.idempotency [
      | none ↦ none
      | some c ↦
          some (record c { ttl_processing = t.ttl_processing; ttl_completed = t.ttl_completed })
    ]
  ];
  excluded = Assembly.get_excluded_paths p s;
}
