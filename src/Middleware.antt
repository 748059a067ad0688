-- ===== src/Middleware.antt =====
-- app/middleware/idempotency_middleware.py: a request is answered from the record of an equal
-- earlier request, refused while that runs, or handed to the application.
use Prim.Native.String.{◌++◌ as concat}
pub mod Guarded
pub mod Once
pub mod Refused
use e_bank_api.Prelude.{
  ℕ, zero, suc, String, ◌==◌, Bool, true, false, not, ◌&&◌, ◌||◌, Option, none, some, List, [], ◌∷◌,
  is_some, truthy, ltb, if◌then◌else◌,
}
use e_bank_api.Prelude.Int.{ℤ, pos}
use e_bank_api.Errors.{Error, idempotency_storage, duplicate_request, assertion_error}
use e_bank_api.Models.{Outcome, ok, err, Exec, pure, raise, gets, ◌then◌, ◌>>=◌, ◌>>◌}
use e_bank_api.Json.{Value, null, bool, int, float, str, arr, obj, Fields, end, field}
use e_bank_api.Canonical.{normalize_financial_payload}
use e_bank_api.Redis.{Redis}
use e_bank_api.Idempotency.{
  IdempotencyStatus, processing, completed, failed, IdempotencyRecord, Config, check,
  set_processing, set_completed, set_failed,
}

-- What the middleware reads of a request: `user` is the subject of `extract_user_id`, `payload`
-- the parsed body (`_parse_body`), `client_key` the header Idempotency-Key.
pub record Request : Type 0 where
  pub method : String
  pub path : String
  pub query : String
  pub payload : Fields
  pub user : Option String
  pub client_key : String

pub data Mark : Type 0 where
  hit miss conflict : Mark

-- The body as bytes that hold nothing, JSON, or other text; the headers X-Idempotency-Key,
-- X-Idempotency-Status and Retry-After.
pub data Body : Type 0 where
  empty : Body
  json : Value → Body
  raw : String → Body

pub record Response : Type 0 where
  pub status : ℕ
  pub body : Body
  pub key : Option String
  pub mark : Option Mark
  pub retry_after : Option ℕ

-- Redis beside the application's own state.
pub record World (S : Type 0) : Type 0 where
  pub redis : Redis
  pub app : S

-- `_parse_response_bytes`
unfoldable pub parse_response : Body → Value
parse_response empty = null
parse_response (json v) = v
parse_response (raw s) = str s

abbrev message : Value → Value
message v = obj (field "message" v end)

unfoldable pub storage_error_response : String → Response
storage_error_response k = record {
  status = 503;
  body = json (
      obj (
        field "error" (str "idempotency_storage_unavailable")
          (field "message" (str "Idempotency storage is unavailable") end)));
  key = truthy (some k);
  mark = none;
  retry_after = none;
}

unfoldable pub duplicate_response : String → Response
duplicate_response k = record {
  status = 409;
  body = json (
      obj (
        field "error" (str "duplicate_request")
          (field "message" (str "A request with this key is already being processed") end)));
  key = some k;
  mark = some conflict;
  retry_after = none;
}

-- `frozenset({"POST", "PUT", "PATCH"})`
unfoldable pub is_mutating : String → Bool
is_mutating m = m == "POST" || m == "PUT" || m == "PATCH"

-- Whether a dict is empty.
unfoldable pub is_empty : Fields → Bool
is_empty end = true
is_empty (field _ _ _) = false

unfoldable pub member : String → List String → Bool
member k [] = false
member k (p ∷ ps) = k == p || member k ps

-- `_idempotency_route`
unfoldable pub route : Request → String
route r = if r.query == "" then r.path else concat r.path (concat "?" r.query)

-- A call of the service, which touches Redis alone.
abbrev pub on_redis : {S A : Type 0} → Exec Redis A → Exec (World S) A
on_redis m w = let (r, redis) = m w.redis in (r, record w { redis = redis })

-- A call of the next handler, which touches the application alone.
abbrev pub on_app : {S A : Type 0} → Exec S A → Exec (World S) A
on_app m w = let (r, app) = m w.app in (r, record w { app = app })

-- `try`: how the call ended, as a value.
abbrev pub attempt : {S A : Type 0} → Exec S A → Exec S (Outcome A)
attempt m s = let (r, s') = m s in (ok r, s')

-- `except IdempotencyStorageException`, at a call whose value is not used.
unfoldable pub stored : {S : Type 0} → String → Outcome (Unit {0}) → Exec S (Option Response)
stored k (ok _) = pure none
stored k (err idempotency_storage) = pure (some (storage_error_response k))
stored k (err e) = raise e

-- `_clear_failed_record`, `_clear_on_handler_failure`
unfoldable pub clear_record : {S : Type 0} → String → Exec (World S) (Option Response)
unfolding stored set_failed
clear_record k = do done ← attempt (on_redis (set_failed k)); stored k done

module _ (c : Config) where
  -- `compute_request_hash`
  unfoldable pub request_hash : Request → String → Outcome String
  request_hash r user = normalize_financial_payload c.numerals (route r) r.payload then λ payload.
      ok (
        c.digest (
          obj (
            field "route" (str (route r)) (
              field "method" (str (c.upper r.method))
                (field "user_id" (str user) (field "payload" (obj payload) end))))))

  unfoldable pub key_of : Request → String → String → String
  key_of r user hash =
      concat "idempotency:" (concat (route r) (concat ":" (concat user (concat ":" hash))))

  unfoldable pub generate_key : Request → String → Outcome String
  unfolding request_hash key_of
  generate_key r user = request_hash r user then λ hash. ok (key_of r user hash)

  -- The body that `_cached_response` answers with.
  cached_body : Value → Value
  cached_body null = obj end
  cached_body (obj d) = obj d
  cached_body (arr items) = arr items
  cached_body (str s) = message (str s)
  cached_body (bool b) = message (str (c.numerals.text (bool b)))
  cached_body (int n) = message (str (c.numerals.text (int n)))
  cached_body (float t) = message (str (c.numerals.text (float t)))

  -- `record.response_status_code or 200`
  cached_status : Option ℕ → ℕ
  cached_status none = 200
  cached_status (some zero) = 200
  cached_status (some (suc n)) = suc n

  unfoldable pub cached_response : String → IdempotencyRecord → Response
  unfolding cached_body cached_status
  cached_response k r = record {
    status = cached_status r.response_status_code;
    body = json (cached_body r.response_body);
    key = some k;
    mark = some hit;
    retry_after = none;
  }

  module _ {S : Type 0} where
    unfoldable pub by_status :
        String → IdempotencyRecord → IdempotencyStatus → Exec (World S) (Option Response)
    unfolding cached_response duplicate_response clear_record
    by_status k r completed = pure (some (cached_response k r))
    by_status k r processing = pure (some (duplicate_response k))
    by_status k r failed = clear_record k

    unfoldable pub on_check :
        String → Outcome (Option IdempotencyRecord) → Exec (World S) (Option Response)
    unfolding by_status storage_error_response
    on_check k (ok none) = pure none
    on_check k (ok (some r)) = by_status k r r.status
    on_check k (err idempotency_storage) = pure (some (storage_error_response k))
    on_check k (err e) = raise e

    -- `_resolve_existing_record`
    unfoldable pub resolve_existing : String → Exec (World S) (Option Response)
    unfolding on_check check
    resolve_existing k = do found ← attempt (on_redis (check k)); on_check k found

    unfoldable pub on_lock : String → Outcome (Unit {0}) → Exec (World S) (Option Response)
    unfolding storage_error_response duplicate_response
    on_lock k (ok _) = pure none
    on_lock k (err (duplicate_request _)) = pure (some (duplicate_response k))
    on_lock k (err idempotency_storage) = pure (some (storage_error_response k))
    on_lock k (err e) = raise e

    -- `_acquire_processing_lock`
    unfoldable pub acquire_lock : String → String → Exec (World S) (Option Response)
    unfolding on_lock set_processing
    acquire_lock k hash = do done ← attempt (on_redis (set_processing c k hash)); on_lock k done

    unfoldable pub or_else : Option Response → Exec (World S) Response → Exec (World S) Response
    or_else (some response) m = pure response
    or_else none m = m

    unfoldable pub on_completed : String → Response → Outcome (Unit {0}) → Exec (World S) Response
    unfolding storage_error_response
    on_completed k response (ok _) = pure (record response { key = some k; mark = some miss })
    on_completed k response (err idempotency_storage) = pure (storage_error_response k)
    on_completed k response (err e) = raise e

    unfoldable pub finish : String → Response → Exec (World S) Response
    unfolding on_completed set_completed parse_response
    finish k response = do
      done ← attempt (on_redis (set_completed c k response.status (parse_response response.body)))
      on_completed k response done

    unfoldable pub on_handled : String → Outcome Response → Exec (World S) Response
    unfolding clear_record or_else finish
    on_handled k (err e) = do cleared ← clear_record k; or_else cleared (raise e)
    on_handled k (ok response) =
        if ltb response.status 400
        then finish k response
        else (do cleared ← clear_record k; or_else cleared (pure response))

    -- `_execute_and_cache`
    unfoldable pub execute_and_cache : String → Exec S Response → Exec (World S) Response
    unfolding on_handled
    execute_and_cache k handler = do handled ← attempt (on_app handler); on_handled k handled

    -- `dispatch` from the key and the digest on.
    unfoldable pub guarded_at : String → String → Exec S Response → Exec (World S) Response
    unfolding resolve_existing acquire_lock execute_and_cache or_else
    guarded_at k hash handler = do
      cached ← resolve_existing k
      or_else cached (do locked ← acquire_lock k hash; or_else locked (execute_and_cache k handler))

    unfoldable pub with_hash :
        Request → String → Exec S Response → Outcome String → Exec (World S) Response
    with_hash r user handler (err e) = raise e
    with_hash r user handler (ok hash) = guarded_at (key_of r user hash) hash handler

    -- `dispatch` behind `_maybe_skip`; the digest is taken for the key and again for the lock.
    unfoldable pub guarded : Request → String → Exec S Response → Exec (World S) Response
    unfolding guarded_at with_hash
    guarded r user handler = with_hash r user handler (request_hash r user)

    unfoldable pub for_user : Request → Option String → Exec S Response → Exec (World S) Response
    unfolding guarded is_empty
    for_user r none handler = on_app handler
    for_user r (some user) handler =
        if is_empty r.payload && (r.query == "") && (r.client_key == "")
        then on_app handler
        else guarded r user handler

    -- `dispatch`: what `_maybe_skip` does not hand on goes through the records.
    unfoldable pub dispatch : List String → Request → Exec S Response → Exec (World S) Response
    unfolding for_user is_mutating member
    dispatch excluded r handler =
        if not (is_mutating r.method) || member r.path excluded
        then on_app handler
        else for_user r r.user handler
