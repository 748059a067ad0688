-- ===== src/Middleware/Once.antt =====
-- An equal request is answered once by the application (app/middleware/idempotency_middleware.py).
use e_bank_api.Prelude.{
  ◌⊎◌, inl, inr, Bool, ℕ, ◌+◌, ◌<◌, String, eq_refl, ◌≡◌, refl, ◌∙◌, true, false, none, some, List,
  [], ◌∷◌, arith, ltb,
}
use e_bank_api.Models.{Outcome, ok, Exec}
use e_bank_api.Redis.{live, store}
use e_bank_api.Idempotency.{new_record, Config, to_dict, completed_record}
use e_bank_api.Middleware.{
  key_of, normalize_financial_payload, with_hash, guarded_at, route, Request, Response, World,
  acquire_lock, storage_error_response, duplicate_response, request_hash, cached_response, guarded,
}
use e_bank_api.Middleware.Guarded.{
  hit_at, conflict_at, first_at, unlocked_at, acquired, opening, failure_at, closed_at, locked,
  closing, closed,
}

-- Where the digest of a request is known.
guarded_hashed :
    {S : Type 0} (c : Config) (r : Request) (user hash : String) (handler : Exec S Response)
    (w : World S)
    → request_hash c r user ≡ ok hash
    → guarded c r user handler w ≡ guarded_at c (key_of c r user hash) hash handler w
unfolding guarded with_hash
guarded_hashed c r user hash handler w hashed = rw hashed

module _ {S : Type 0} (c : Config) (r : Request) (user hash : String) (handler : Exec S Response)
    (hashed : request_hash c r user ≡ ok hash) where
  abbrev key1 : String
  key1 = key_of c r user hash

  -- For a request whose digest can be taken, where Redis does not fail and no record of an equal
  -- request is live: when the application raises, or answers with a status of 400 or more, the
  -- answer is passed on and the record is deleted, so that an equal request is free to run again.
  pub guarded_failure :
      (w : World S) (result : Outcome Response) (app : S)
      → w.redis.faults ≡ []
      → live w.redis key1 ≡ none
      → handler w.app ≡ (result, app)
      → ((response : Response) → result ≡ ok response → ltb response.status 400 ≡ false)
      → guarded c r user handler w
        ≡ (result, record { redis = store key1 none (locked c key1 hash handler w); app = app })
  guarded_failure w result app calm free handled bad =
      guarded_hashed c r user hash handler w hashed
      ∙ failure_at c key1 hash handler w result app calm free handled bad

  -- For a request whose digest can be taken: when Redis fails at the lookup of its record, or, where
  -- no record of an equal request is live, at the lock, the answer is 503; the application's state
  -- and what Redis holds stay as they were.
  pub guarded_closed :
      (w : World S) (rest : List Bool)
      → (w.redis.faults ≡ true ∷ rest)
        ⊎ ((w.redis.faults ≡ false ∷ true ∷ rest) × (live w.redis key1 ≡ none))
      → (response : Response) × (guarded c r user handler w
          ≡ (ok response, record w { redis = record w.redis { faults = rest } }))
        × (response.status ≡ 503)
  unfolding storage_error_response
  guarded_closed w rest (inl fault) = (
    storage_error_response key1,
    guarded_hashed c r user hash handler w hashed ∙ closed_at c key1 hash handler w rest fault,
    refl,
  )
  guarded_closed w rest (inr (fault, free)) = (
    storage_error_response key1,
    guarded_hashed c r user hash handler w hashed
        ∙ unlocked_at c key1 hash handler w rest fault free,
    refl,
  )

-- Requests of one method and route whose payloads have one canonical form: what is not read for the
-- digest, such as the header Idempotency-Key, may differ.
pub record SameRequest (c : Config) (r r' : Request) : Type 0 where
  pub same_method : r.method ≡ r'.method
  pub same_path : r.path ≡ r'.path
  pub same_query : r.query ≡ r'.query
  pub same_payload :
      normalize_financial_payload c.numerals (route r) r.payload
      ≡ normalize_financial_payload c.numerals (route r') r'.payload

same_hash :
    (c : Config) (r r' : Request) (user : String)
    → SameRequest c r r'
    → request_hash c r' user ≡ request_hash c r user
unfolding request_hash route
same_hash c r r' user same = ground arith

same_key :
    (c : Config) (r r' : Request) (user hash : String)
    → SameRequest c r r'
    → key_of c r' user hash ≡ key_of c r user hash
unfolding key_of route
same_key c r r' user hash same = ground arith

-- The world at time t after the first request.
abbrev settled :
    {S : Type 0} (c : Config) (key hash : String) (handler : Exec S Response) (w : World S)
    (response : Response) (app : S)
    → ℕ
    → World S
settled c key hash handler w response app t = record {
  redis = record (closed c key hash handler w response) { now = t };
  app = app;
}

live-settled :
    {S : Type 0} (c : Config) (key hash : String) (handler : Exec S Response) (w : World S)
    (response : Response) (app : S) (t : ℕ)
    → t < w.redis.now + c.ttl_completed
    → live (settled c key hash handler w response app t).redis key
      ≡ some (to_dict (closing c key hash handler w response))
live-settled c key hash handler w response app t early = rw (eq_refl key) (ground arith)

-- A later equal request, with any handler.
settled_hit :
    {S : Type 0} (c : Config) (key hash : String) (handler handler' : Exec S Response) (w : World S)
    (response : Response) (app : S) (t : ℕ)
    → w.redis.faults ≡ []
    → t < w.redis.now + c.ttl_completed
    → guarded_at c key hash handler' (settled c key hash handler w response app t) ≡ (
      ok (cached_response c key (closing c key hash handler w response)),
      settled c key hash handler w response app t,
    )
unfolding completed_record
settled_hit c key hash handler handler' w response app t calm early =
    hit_at c key hash handler' (settled c key hash handler w response app t)
      (closing c key hash handler w response) calm
      (live-settled c key hash handler w response app t early) refl

-- For a request whose digest can be taken, where Redis does not fail, no record of an equal
-- request is live and the lock's time is above zero: once the application has answered it with a
-- status below 400, an equal request of the same user, whatever its header Idempotency-Key and
-- whatever handler is behind, is answered from the record until it expires; the application's
-- state stays as the first request left it.
pub guarded_once :
    {S : Type 0} (c : Config) (r r' : Request) (user hash : String)
    (handler handler' : Exec S Response) (w : World S) (response : Response) (app : S) (t : ℕ)
    → request_hash c r user ≡ ok hash
    → SameRequest c r r'
    → w.redis.faults ≡ []
    → live w.redis (key_of c r user hash) ≡ none
    → 0 < c.ttl_processing
    → handler w.app ≡ (ok response, app)
    → ltb response.status 400 ≡ true
    → t < w.redis.now + c.ttl_completed
    → let after = (guarded c r user handler w).1 in
      let later = record after { redis = record after.redis { now = t } } in
      (guarded c r' user handler' later) ≡ (
        ok (
            cached_response c
              (key_of c r user hash)
              (closing c (key_of c r user hash) hash handler w response)),
        later,
      )
guarded_once c r r' user hash handler handler' w response app t hashed same calm free ttl handled
      good early =
    let key = key_of c r user hash in
    rw
      (
        guarded_hashed c r user hash handler w hashed,
        first_at c key hash handler w response app calm free ttl handled good,
        guarded_hashed c r' user hash handler' (settled c key hash handler w response app t)
            (same_hash c r r' user same ∙ hashed),
        same_key c r r' user hash same,
      )
      (settled_hit c key hash handler handler' w response app t calm early)

-- For a request whose digest can be taken, where Redis does not fail and no record of an equal request
-- is live: from when it holds the lock and as long as the lock lives, whatever the application's
-- state, an equal request of the same user, whatever its header Idempotency-Key and whatever handler
-- is behind, is answered 409; neither the application's state nor Redis changes.
pub guarded_conflict :
    {S : Type 0} (c : Config) (r r' : Request) (user hash : String) (handler' : Exec S Response)
    (w : World S) (app : S) (t : ℕ)
    → request_hash c r user ≡ ok hash
    → SameRequest c r r'
    → w.redis.faults ≡ []
    → live w.redis (key_of c r user hash) ≡ none
    → t < w.redis.now + c.ttl_processing
    → let running = (acquire_lock c (key_of c r user hash) hash w).1 in
      let later : World S = record { redis = record running.redis { now = t }; app = app } in
      (response : Response) × (guarded c r' user handler' later ≡ (ok response, later))
      × (response.status ≡ 409)
unfolding duplicate_response new_record
guarded_conflict c r r' user hash handler' w app t hashed same calm free early =
    let key = key_of c r user hash in
    let holding : World _ = record {
      redis = record (locked c key hash handler' w) { now = t };
      app = app;
    } in
    (
      duplicate_response key,
      rw
          (
            acquired c key hash handler' w calm free,
            guarded_hashed c r' user hash handler' holding (same_hash c r r' user same ∙ hashed),
            same_key c r r' user hash same,
          )
          (conflict_at c key hash handler' holding (opening c key hash handler' w) calm
            (rw (eq_refl key) (ground arith)) refl),
      refl,
    )
