-- ===== src/Middleware/Guarded.antt =====
-- What the middleware does with a request at its key, branch by branch
-- (app/middleware/idempotency_middleware.py).
use e_bank_api.Prelude.{
  Bool, ℕ, ◌+◌, ◌<◌, String, eq_refl, ◌≡◌, refl, true, false, none, some, List, [], ◌∷◌, arith, ltb,
}
use e_bank_api.Models.{Outcome, ok, err, Exec, ◌>>=◌}
use e_bank_api.Json.{Value}
use e_bank_api.Redis
use e_bank_api.Redis.{Redis, live, store, unexpired}
use e_bank_api.Idempotency.{
  processing, completed, IdempotencyRecord, Config, to_dict, check, new_record, completed_record,
  set_processing, set_failed,
}
use e_bank_api.Idempotency.Effects.{
  check-found, check-free, set_processing-free, set_completed-found, set_failed-deletes,
}
use e_bank_api.Middleware.{
  guarded_at, clear_record, Response, World, miss, storage_error_response, duplicate_response,
  parse_response, cached_response, resolve_existing, acquire_lock, execute_and_cache, finish,
}

module _ {S : Type 0} (c : Config) (key hash : String) (handler : Exec S Response) where
  resolve-found :
      (w : World S) (stored : IdempotencyRecord)
      → w.redis.faults ≡ []
      → live w.redis key ≡ some (to_dict stored)
      → stored.status ≡ completed
      → resolve_existing c key w ≡ (ok (some (cached_response c key stored)), w)
  unfolding resolve_existing ◌>>=◌
  resolve-found w stored calm here done = ground (arith, check-found key w.redis calm stored here)

  -- A request whose record is completed is answered from the record; neither Redis nor the
  -- application changes.
  pub hit_at :
      (w : World S) (stored : IdempotencyRecord)
      → w.redis.faults ≡ []
      → live w.redis key ≡ some (to_dict stored)
      → stored.status ≡ completed
      → guarded_at c key hash handler w ≡ (ok (cached_response c key stored), w)
  unfolding guarded_at ◌>>=◌
  hit_at w stored calm here done = ground (arith, resolve-found w stored calm here done)

  -- While an equal request runs, the answer is 409 and nothing changes.
  pub conflict_at :
      (w : World S) (stored : IdempotencyRecord)
      → w.redis.faults ≡ []
      → live w.redis key ≡ some (to_dict stored)
      → stored.status ≡ processing
      → guarded_at c key hash handler w ≡ (ok (duplicate_response key), w)
  unfolding guarded_at resolve_existing ◌>>=◌
  conflict_at w stored calm here running = ground (arith, check-found key w.redis calm stored here)

  abbrev pub opening : World S → IdempotencyRecord
  opening w = new_record processing (hash) (c.iso w.redis.now) 1

  -- Redis once the lock is taken.
  abbrev pub locked : World S → Redis
  locked w = store key (some (to_dict (opening w), w.redis.now + c.ttl_processing)) w.redis

  -- The record and Redis once the handler's answer is stored.
  abbrev pub closing : World S → Response → IdempotencyRecord
  closing w response =
      completed_record c (some (opening w)) response.status (parse_response response.body)
        w.redis.now

  abbrev pub closed : World S → Response → Redis
  closed w response =
      store key (some (to_dict (closing w response), w.redis.now + c.ttl_completed)) (locked w)

  live-store :
      (v : Value) (expires : ℕ) (redis : Redis)
      → redis.now < expires
      → live (store key (some (v, expires)) redis) key ≡ some v
  live-store v expires redis h = rw (eq_refl key) (ground arith)

  pub acquired :
      (w : World S)
      → w.redis.faults ≡ []
      → live w.redis key ≡ none
      → acquire_lock c key (hash) w ≡ (ok none, record w { redis = locked w })
  unfolding acquire_lock ◌>>=◌
  acquired w calm free = ground (arith, set_processing-free key w.redis calm c (hash) free)

  pub finished :
      (w : World S) (response : Response) (app : S)
      → w.redis.faults ≡ []
      → 0 < c.ttl_processing
      → finish c key response (record { redis = locked w; app = app }) ≡ (
        ok (record response { key = some key; mark = some miss }),
        record { redis = closed w response; app = app },
      )
  unfolding finish ◌>>=◌
  finished w response app calm ttl = ground (
    arith,
    set_completed-found key (locked w) calm c response.status (parse_response response.body)
        (opening w)
        (live-store (to_dict (opening w)) (w.redis.now + c.ttl_processing) w.redis (omega arith)),
  )

  -- A request with no live record is handed to the application once; its answer is marked as a
  -- miss and its record stored as completed.
  pub first_at :
      (w : World S) (response : Response) (app : S)
      → w.redis.faults ≡ []
      → live w.redis key ≡ none
      → 0 < c.ttl_processing
      → handler w.app ≡ (ok response, app)
      → ltb response.status 400 ≡ true
      → guarded_at c key hash handler w ≡ (
        ok (record response { key = some key; mark = some miss }),
        record { redis = closed w response; app = app },
      )
  unfolding guarded_at resolve_existing execute_and_cache ◌>>=◌
  first_at w response app calm free ttl handled good = ground (
    arith,
    check-free key w.redis calm free,
    acquired w calm free,
    finished w response app calm ttl,
  )

  pub cleared :
      (redis : Redis) → redis.faults ≡ [] → set_failed key redis ≡ (ok tt, store key none redis)
  cleared redis calm = set_failed-deletes key redis calm

  -- When the application raises, or answers with a status of 400 or more, the answer is passed on
  -- and the record is deleted, so that an equal request is free to run again.
  pub failure_at :
      (w : World S) (result : Outcome Response) (app : S)
      → w.redis.faults ≡ []
      → live w.redis key ≡ none
      → handler w.app ≡ (result, app)
      → ((response : Response) → result ≡ ok response → ltb response.status 400 ≡ false)
      → guarded_at c key hash handler w
        ≡ (result, record { redis = store key none (locked w); app = app })
  unfolding guarded_at resolve_existing execute_and_cache clear_record ◌>>=◌
  failure_at w (ok response) app calm free handled bad = ground (
    arith,
    check-free key w.redis calm free,
    acquired w calm free,
    cleared (locked w) calm,
    bad response refl,
  )
  failure_at w (err e) app calm free handled bad =
      ground
        (arith, check-free key w.redis calm free, acquired w calm free, cleared (locked w) calm)

  -- When Redis fails at the lock, the answer is 503 and the application is not called.
  pub unlocked_at :
      (w : World S) (rest : List Bool)
      → w.redis.faults ≡ false ∷ true ∷ rest
      → live w.redis key ≡ none
      → guarded_at c key hash handler w
        ≡ (ok (storage_error_response key), record w { redis = record w.redis { faults = rest } })
  unfolding guarded_at resolve_existing acquire_lock check Redis.get set_processing Redis.set_nx
      Redis.command ◌>>=◌
  unlocked_at w rest fault free = ground arith

  -- When Redis fails at the lookup, the answer is 503 and the application is not called.
  pub closed_at :
      (w : World S) (rest : List Bool)
      → w.redis.faults ≡ true ∷ rest
      → guarded_at c key hash handler w
        ≡ (ok (storage_error_response key), record w { redis = record w.redis { faults = rest } })
  unfolding guarded_at resolve_existing check Redis.get ◌>>=◌
  closed_at w rest fault = ground arith
