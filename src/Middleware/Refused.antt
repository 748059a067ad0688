-- ===== src/Middleware/Refused.antt =====
-- What the middleware leaves of a request that is refused (app/middleware/idempotency_middleware.py): it
-- calls the application at most once, and where Redis answers it turns no success into a refusal.
use mathlib.Core.Path.{subst}
use e_bank_api.Prelude.{
  ◌||◌, if◌then◌else◌, ◌&&◌, ◌==◌, ◌<◌, String, ◌≡◌, refl, ap, sym, ◌∙◌, ◌⊎◌, inl, inr, Bool, true,
  false, not, Option, none, some, List, [], arith, ltb, Option-cases, Bool-cases,
}
use e_bank_api.Models.{>>=-ok, Outcome, ok, err, Exec, ◌>>=◌}
use e_bank_api.Redis
use e_bank_api.Redis.{Redis, live}
use e_bank_api.Idempotency.{Config, check, set_failed}
use e_bank_api.Idempotency.Effects.{set_processing-taken}
use e_bank_api.Middleware.{
  member, is_mutating, for_user, is_empty, request_hash, key_of, on_app, with_hash, or_else,
  duplicate_response, Request, Response, World, guarded_at, clear_record, resolve_existing,
  acquire_lock, execute_and_cache, guarded, dispatch,
}
use e_bank_api.Middleware.Guarded.{locked, acquired, finished, cleared}

-- The answer is an error: a raise, or a status of 400 or more.
abbrev pub is_refused : Outcome Response → Bool
is_refused (ok r) = not (ltb r.status 400)
is_refused (err e) = true

module _ {S : Type 0} (handler : Exec S Response) where
  -- The application is as it was, or the handler has run once, and was refused if the answer is a refusal.
  abbrev pub IsPassedOn : S → Outcome Response × World S → Type 0
  IsPassedOn app r =
      (r.1.app ≡ app)
      ⊎ ((r.1.app ≡ (handler app).1) × (is_refused r.0 ≡ true → is_refused (handler app).0 ≡ true))

  pub passed_if :
      (b : Bool) (x y : Exec (World S) Response) (w : World S)
      → IsPassedOn w.app (x w)
      → IsPassedOn w.app (y w)
      → IsPassedOn w.app ((if b then x else y) w)
  passed_if true x y w hx hy = hx
  passed_if false x y w hx hy = hy

module _ {S : Type 0} (c : Config) (key hash : String) (handler : Exec S Response) where
  abbrev behind_lock : World S → World S
  behind_lock w = record w { redis = locked c key hash handler w }

  stored_good :
      (w : World S) (response : Response) (app : S)
      → w.redis.faults ≡ []
      → 0 < c.ttl_processing
      → handler w.app ≡ (ok response, app)
      → ltb response.status 400 ≡ true
      → ((execute_and_cache c key handler (behind_lock w)).1.app ≡ app)
        × (is_refused (execute_and_cache c key handler (behind_lock w)).0 ≡ false)
  unfolding execute_and_cache ◌>>=◌
  stored_good w response app calm ttl ran good =
      ground (arith, finished c key hash handler w response app calm ttl)

  left_bad :
      (w : World S) (result : Outcome Response) (app : S)
      → w.redis.faults ≡ []
      → handler w.app ≡ (result, app)
      → is_refused result ≡ true
      → (execute_and_cache c key handler (behind_lock w)).1.app ≡ app
  unfolding execute_and_cache clear_record ◌>>=◌
  left_bad w (ok response) app calm ran bad =
      ground (arith, cleared c key hash handler (locked c key hash handler w) calm)
  left_bad w (err e) app calm ran bad =
      ground (arith, cleared c key hash handler (locked c key hash handler w) calm)

  executed :
      (w : World S)
      → w.redis.faults ≡ []
      → 0 < c.ttl_processing
      → IsPassedOn handler w.app (execute_and_cache c key handler (behind_lock w))
  executed w calm ttl = by (handler w.app) refl
    where
      good :
          (response : Response) (app : S)
          → handler w.app ≡ (ok response, app)
          → (ltb response.status 400 ≡ true) ⊎ (ltb response.status 400 ≡ false)
          → IsPassedOn handler w.app (execute_and_cache c key handler (behind_lock w))
      good response app ran (inl fine) =
          let (there, passed) = stored_good w response app calm ttl ran fine in
          inr (there ∙ sym (ap (λ (r : Outcome Response × S). r.1) ran), λ refused. absurd (cc))
      good response app ran (inr bad) = inr (
        left_bad w (ok response) app calm ran (rw bad refl)
            ∙ sym (ap (λ (r : Outcome Response × S). r.1) ran),
        λ refused. ap (λ (r : Outcome Response × S). is_refused r.0) ran ∙ rw bad refl,
      )

      by :
          (r : Outcome Response × S)
          → handler w.app ≡ r
          → IsPassedOn handler w.app (execute_and_cache c key handler (behind_lock w))
      by (err e, app) ran = inr (
        left_bad w (err e) app calm ran refl ∙ sym (ap (λ (r : Outcome Response × S). r.1) ran),
        λ refused. ap (λ (r : Outcome Response × S). is_refused r.0) ran,
      )
      by (ok response, app) ran = good response app ran (Bool-cases (ltb response.status 400))

  -- The lookup, with the removal of a record that says failed, does not touch the application.
  resolved_quiet :
      (w : World S)
      → w.redis.faults ≡ []
      → ((resolve_existing c {S = S} key w).1.redis.faults ≡ [])
        × ((resolve_existing c {S = S} key w).1.app ≡ w.app)
  unfolding resolve_existing clear_record set_failed check Redis.get Redis.delete ◌>>=◌
  resolved_quiet w calm = ground arith

  -- The lock is taken, or the answer is there.
  locked_or_answered :
      (w : World S)
      → w.redis.faults ≡ []
      → (acquire_lock c key hash w ≡ (ok none, behind_lock w))
        ⊎ ((response : Response) × (acquire_lock c key hash w ≡ (ok (some response), w)))
  unfolding acquire_lock ◌>>=◌
  locked_or_answered w calm = elim (Option-cases (live w.redis key)) [
    | inl free ↦ inl (unfold acquire_lock ◌>>=◌ in acquired c key hash handler w calm free)
    | inr (v, taken) ↦ inr (
      duplicate_response key,
      ground (arith, set_processing-taken key w.redis calm c hash v taken),
    )
  ]

  abbrev locking : Exec (World S) Response
  locking = do
    answered ← acquire_lock c key hash
    or_else c answered (execute_and_cache c key handler)

  locking_passed :
      (w : World S)
      → w.redis.faults ≡ []
      → 0 < c.ttl_processing
      → IsPassedOn handler w.app (locking w)
  unfolding or_else
  locking_passed w calm ttl = elim (locked_or_answered w calm) [
    | inl taken ↦
        subst (IsPassedOn handler w.app)
          (sym (
            >>=-ok (acquire_lock c key hash) (λ a. or_else c a (execute_and_cache c key handler)) w
              taken))
          (executed w calm ttl)
    | inr (response, answered) ↦
        subst (IsPassedOn handler w.app)
          (sym (
            >>=-ok (acquire_lock c key hash) (λ a. or_else c a (execute_and_cache c key handler)) w
              answered))
          (inl refl)
  ]

  guarded_at_passed :
      (w : World S)
      → w.redis.faults ≡ []
      → 0 < c.ttl_processing
      → IsPassedOn handler w.app (guarded_at c key hash handler w)
  unfolding guarded_at or_else ◌>>=◌
  guarded_at_passed w calm ttl =
      let (still, same) = resolved_quiet w calm in by (resolve_existing c key w) still same
    where
      by :
          (r : Outcome (Option Response) × World S)
          → r.1.redis.faults ≡ []
          → r.1.app ≡ w.app
          → let next : Outcome Response × World S = elim r.0 [
            | ok found ↦ or_else c found locking r.1
            | err e ↦ (err e, r.1)
          ] in
            IsPassedOn handler w.app next
      by (ok (some response), w') still same = inl same
      by (err e, w') still same = inl same
      by (ok none, w') still same =
          subst (λ (app : S). IsPassedOn handler app (locking w')) same
            (locking_passed w' still ttl)

guarded_passed :
    {S : Type 0} (c : Config) (r : Request) (user : String) (handler : Exec S Response)
    (w : World S)
    → w.redis.faults ≡ []
    → 0 < c.ttl_processing
    → IsPassedOn handler w.app (guarded c r user handler w)
unfolding guarded
guarded_passed c r user handler w calm ttl = by (request_hash c r user)
  where
    by : (hash : Outcome String) → IsPassedOn handler w.app (with_hash c r user handler hash w)
    by (ok hash) =
        unfold with_hash in guarded_at_passed c (key_of c r user hash) hash handler w calm ttl
    by (err e) = unfold with_hash in inl refl

for_user_passed :
    {S : Type 0} (c : Config) (r : Request) (user : Option String) (handler : Exec S Response)
    (w : World S)
    → w.redis.faults ≡ []
    → 0 < c.ttl_processing
    → IsPassedOn handler w.app (for_user c r user handler w)
unfolding for_user
for_user_passed c r none handler w calm ttl = inr (refl, λ h. h)
for_user_passed c r (some user) handler w calm ttl =
    passed_if handler (is_empty r.payload && (r.query == "") && (r.client_key == ""))
      (on_app handler) (guarded c r user handler) w (inr (refl, λ h. h))
      (guarded_passed c r user handler w calm ttl)

-- Where Redis does not fail and the lock of a running request lasts: whatever is asked for, the
-- application is as it was, or the handler has run on it once, and only when the handler was refused
-- can the answer be a refusal.
pub dispatch-IsPassedOn :
    {S : Type 0} (c : Config) (excluded : List String) (r : Request) (handler : Exec S Response)
    (w : World S)
    → w.redis.faults ≡ []
    → 0 < c.ttl_processing
    → IsPassedOn handler w.app (dispatch c excluded r handler w)
unfolding dispatch
dispatch-IsPassedOn c excluded r handler w calm ttl =
    passed_if handler (not (is_mutating r.method) || member r.path excluded) (on_app handler)
      (for_user c r r.user handler) w (inr (refl, λ h. h))
      (for_user_passed c r r.user handler w calm ttl)
