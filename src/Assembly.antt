-- ===== src/Assembly.antt =====
-- app/core/config.py and the start of app/main.py: the settings that decide what is served, and what an
-- application that starts has in its state.
use e_bank_api.Prelude.{
  ℕ, String, ◌==◌, Bool, true, false, not, ◌&&◌, ◌||◌, Option, none, some, List, [], ◌∷◌,
  if◌then◌else◌,
}
use e_bank_api.Errors.{Error, runtime_error}
use e_bank_api.Models.{Outcome, ok, err, ◌then◌}
use e_bank_api.Queries.{listed}
use e_bank_api.RateLimit.{Limits}
use e_bank_api.Auth.{Oidc, built}

pub record Settings : Type 0 where
  pub env : String
  pub log_format : String
  pub cors_origins : String
  pub legacy_challenge_routes : Option Bool
  pub reset_enabled : Option String
  pub idempotency_enabled : Bool
  pub idempotency_exclude_paths : String
  pub redis_ttl_processing : ℕ
  pub redis_ttl_completed : ℕ
  pub rate_limit_enabled : Bool
  pub rate_limit_requests : ℕ
  pub rate_limit_window_seconds : ℕ

-- The times for which records of requests are kept.
pub record Ttls : Type 0 where
  pub ttl_processing : ℕ
  pub ttl_completed : ℕ

-- `app.state`
pub record State : Type 0 where
  pub has_redis : Bool
  pub idempotency_service : Option Ttls
  pub rate_limiter : Option Limits

-- What the start meets: Python's `str.lower`, `str.strip` and `str.split(",")`, and the errors of
-- the database and of Redis, if they do not answer.
pub record Surroundings : Type 0 where
  pub lower : String → String
  pub strip : String → String
  pub split_comma : String → List String
  pub database_down : Option Error
  pub redis_down : Option Error

module _ (p : Surroundings) where
  unfoldable pub is_production : Settings → Bool
  unfolding listed
  is_production s = listed (p.lower s.env) ("production" ∷ "prod" ∷ [])

  -- None is on in development and off in production.
  unfoldable pub mount_legacy_challenge_routes : Settings → Bool
  unfolding is_production
  mount_legacy_challenge_routes s = elim s.legacy_challenge_routes [
    | some b ↦ b
    | none ↦ not (is_production s)
  ]

  unfoldable pub use_json_logs : Settings → Bool
  unfolding is_production listed
  use_json_logs s =
      let fmt = p.lower (p.strip s.log_format) in
      if listed fmt ("json" ∷ "text" ∷ []) then fmt == "json" else is_production s

  -- `[x.strip() for x in xs if x.strip()]`
  unfoldable pub stripped_all : List String → List String
  stripped_all [] = []
  stripped_all (x ∷ xs) =
      let rest = stripped_all xs in if p.strip x == "" then rest else p.strip x ∷ rest

  unfoldable pub cors_origin_list : Settings → List String
  unfolding is_production stripped_all
  cors_origin_list s =
      if not (p.strip s.cors_origins == "")
      then stripped_all (p.split_comma s.cors_origins)
      else if is_production s
      then "https://kalke.dev" ∷ "https://www.kalke.dev" ∷ []
      else "https://kalke.dev" ∷ "https://www.kalke.dev" ∷ "http://localhost:5173"
        ∷ "http://127.0.0.1:5173" ∷ []

  -- `get_excluded_paths` of the middleware
  unfoldable pub get_excluded_paths : Settings → List String
  unfolding stripped_all
  get_excluded_paths s = stripped_all (p.split_comma s.idempotency_exclude_paths)

  unfoldable pub answering : Option Error → Outcome (Unit {0})
  answering none = ok tt
  answering (some e) = err e

  unfoldable pub allowed : Bool → String → Outcome (Unit {0})
  allowed true what = ok tt
  allowed false what = err (runtime_error what)

  unfoldable pub state_of : Settings → State
  state_of s = record {
    has_redis = s.idempotency_enabled || s.rate_limit_enabled;
    idempotency_service =
        if s.idempotency_enabled
        then some (record {
          ttl_processing = s.redis_ttl_processing;
          ttl_completed = s.redis_ttl_completed;
        })
        else none;
    rate_limiter =
        if s.rate_limit_enabled
        then some
            (record { limit = s.rate_limit_requests; window_seconds = s.rate_limit_window_seconds })
        else none;
  }

  -- `lifespan` up to the start of service: the state of the application, or what stops the start.
  unfoldable pub lifespan : Settings → Oidc → Outcome State
  unfolding is_production mount_legacy_challenge_routes answering allowed state_of
  lifespan s o =
      allowed (not (is_production s && not o.enabled))
        "OIDC_ENABLED must be true when ENV=production"
      then λ _.
          allowed (not (is_production s && mount_legacy_challenge_routes s))
            "LEGACY_CHALLENGE_ROUTES cannot be enabled when ENV=production"
          then λ _. answering p.database_down then λ _.
              (if o.enabled then built o o.failure else ok tt) then λ _.
              (if s.idempotency_enabled || s.rate_limit_enabled
                then answering p.redis_down
                else ok tt)
              then λ _. ok (state_of s)
