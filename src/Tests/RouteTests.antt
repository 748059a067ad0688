-- ===== src/Tests/RouteTests.antt =====
-- Requests at the routes of an application, and the theorems at them.
use e_bank_api.Handlers.{responded}
use e_bank_api.Idempotency.{set_failed, set_processing, check}
use e_bank_api.Canonical.{get_or, truth, normalize_financial_payload}
use e_bank_api.Schemas.{is_valid_consent}
use e_bank_api.Prelude.{
  ℕ, String, ◌≡◌, ◌≢◌, refl, ap, true, false, none, some, List, [], ◌∷◌, arith, length,
}
use e_bank_api.Errors.{rate_limit_exceeded}
use e_bank_api.Models.{Db, ok, err, get_db, ◌>>=◌}
use e_bank_api.Json.{get_field}
use e_bank_api.Queries.{listed}
use e_bank_api.Auth.{Principal, has_permission, built, require_authenticated_bank_write}
use e_bank_api.Auth.Granted.{IsFrom}
use e_bank_api.RateLimit.{command}
use e_bank_api.Onboarding
use e_bank_api.Users.{upsert, record_consent}
use e_bank_api.Middleware
use e_bank_api.Middleware.{
  clear_record, on_handled, execute_and_cache, acquire_lock, resolve_existing, guarded_at,
  request_hash, with_hash, guarded, for_user, World, empty,
}
use e_bank_api.Redis
use e_bank_api.Routes.Answers.{onboarding_consent_route}
use e_bank_api.Middleware.Refused.{is_refused}
use e_bank_api.Assembly.{Surroundings, Settings, State, lifespan, state_of, is_production}
use e_bank_api.Requests.Statements.{new_database}
use e_bank_api.Routes.{in_session, accepted, Service, Incoming, Call, Backend}
use e_bank_api.Routes.Serve.{signed_in, serve}
use e_bank_api.Routes.Limited.{over_limit}
use e_bank_api.Application.{extract_user_id, answered, routed, fronted, App, application, assembled}
use e_bank_api.Application.Refusals.{refused_request}
use e_bank_api.Application.Production.{production_change}
use e_bank_api.Tests.AuthTests.{oidc, headers, forwarded_alice, alice_passes}
use e_bank_api.Tests.MiddlewareTests.{config, request, calm_redis}
use e_bank_api.Tests.RateLimitTests.{two_a_minute}
use e_bank_api.Tests.StatementTests.{bank, clerk, one_env}

abbrev service : Service
service = record {
  bank = bank;
  oidc = oidc;
  clerk = clerk;
  demo_disclaimer = "demo";
  rate_limit_enabled = true;
  rate_limit_window_seconds = 60;
  rate_limiter = some two_a_minute;
  idempotency_enabled = true;
  mount_legacy = false;
  reset_allowed = false;
  postgresql = true;
  database_up = true;
  get_cep = λ cep. none;
  show = λ n. "";
  files = record { bucket = "receipts"; build_receipt_pdf = λ d. "pdf" };
  sheet = record { as_str = λ x. ""; isoformat = λ n. ""; writerow = λ fields. "" };
}

abbrev incoming : Incoming
incoming = record {
  auth = headers;
  kalke_client_ip = none;
  client_host = some "10.0.0.1";
  kalke_user_agent = none;
  user_agent = some "browser";
  request_id = some "r1";
  idempotency_key = some "k1";
}

-- Alice has made the two calls of her window.
abbrev backend : Backend
backend = record {
  db = new_database (λ s t. false) 100;
  counters = record { counts = λ key. some (2, some 1060); now = 1000; faults = [] };
  receipts = record { objects = λ key. none; faults = [] };
}

over_limit_example :
    ((serve service one_env incoming (Call.withdraw "5.00") backend).0
      ≡ err (rate_limit_exceeded 60))
    × ((serve service one_env incoming (Call.withdraw "5.00") backend).1.db
        ≡ new_database (λ s t. false) 100)
over_limit_example =
    over_limit service one_env incoming forwarded_alice two_a_minute 1 1060 backend
      (record {
        enabled = refl;
        limiter = refl;
        calm = refl;
        count = refl;
        running = omega arith;
        full = omega arith;
      })
      (Call.withdraw "5.00") alice_passes refl

abbrev app : App
app = record {
  service = service;
  idempotency = some config;
  excluded = [];
  encode = λ a. empty;
  wording = λ e. empty;
}

abbrev world : World Backend
world = record { redis = calm_redis; app = backend }

-- A policy that is not known is refused behind the write of the user, which is rolled back.
abbrev unknown_policy : Call
unknown_policy = Call.onboarding_consent "other"

unknown_refused :
    is_refused (application app one_env request incoming unknown_policy world).0 ≡ true
unfolding application fronted Middleware.dispatch for_user guarded with_hash request_hash
    normalize_financial_payload guarded_at resolve_existing acquire_lock execute_and_cache
    on_handled check Redis.get command set_processing Redis.set_nx set_failed Redis.delete
    clear_record routed answered responded serve signed_in onboarding_consent_route accepted
    is_valid_consent in_session Onboarding.consent upsert require_authenticated_bank_write built
    truth get_or get_field has_permission extract_user_id ◌>>=◌
    e_bank_api.Canonical.canonicalize_dict e_bank_api.Canonical.monetary
    e_bank_api.Canonical.normalize_decimal Middleware.route e_bank_api.Prelude.Table.find
    e_bank_api.Canonical.excluded_key
unknown_refused = refl

refused_request_example :
    (application app one_env request incoming unknown_policy world).1.app.db
    ≡ new_database (λ s t. false) 100
refused_request_example =
    refused_request app one_env request incoming unknown_policy world
      (record { calm = refl; lasting = λ c same. ground arith }) refl unknown_refused

abbrev surroundings : Surroundings
surroundings = record {
  lower = λ s. s;
  strip = λ s. s;
  split_comma = λ s. [];
  database_down = none;
  redis_down = none;
}

abbrev production : Settings
production = record {
  env = "production";
  log_format = "";
  cors_origins = "";
  legacy_challenge_routes = none;
  reset_enabled = none;
  idempotency_enabled = true;
  idempotency_exclude_paths = "";
  redis_ttl_processing = 30;
  redis_ttl_completed = 86400;
  rate_limit_enabled = false;
  rate_limit_requests = 60;
  rate_limit_window_seconds = 60;
}

abbrev state : State
state = state_of surroundings production

starts : lifespan surroundings production oidc ≡ ok state
unfolding lifespan built
starts = refl

in_production : is_production surroundings production ≡ true
unfolding is_production listed
in_production = refl

abbrev started : Service
started = (assembled surroundings production state app).service

abbrev agreed : Db
agreed = (serve started one_env incoming (Call.onboarding_consent "demo-bank-tos-v1") backend).1.db

one_user : length agreed.users ≡ 1
unfolding assembled serve signed_in onboarding_consent_route accepted is_valid_consent in_session
    Onboarding.consent upsert require_authenticated_bank_write built truth get_or get_field
    has_permission record_consent get_db ◌>>=◌ e_bank_api.Prelude.Table.find
one_user = refl

agreed-changed : agreed ≢ new_database (λ s t. false) 100
agreed-changed same = absurd (omega (arith, one_user, ap (λ (d : Db). length d.users) same))

production_change_example :
    (user : Principal) × (require_authenticated_bank_write oidc headers ≡ ok user)
    × (has_permission user "bank:write" ≡ true)
    × (user.is_m2m ≡ false)
    × IsFrom oidc headers user
production_change_example =
    production_change surroundings production state app one_env incoming
      (Call.onboarding_consent "demo-bank-tos-v1") backend starts in_production agreed-changed
