-- ===== src/RateLimit.antt =====
-- app/core/rate_limit.py: calls of a subject counted in windows of fixed length.
use Prim.Native.String.{◌++◌ as concat}
use e_bank_api.Prelude.{
  ℕ, zero, suc, ◌+◌, ◌-◌, ◌<◌, String, ◌==◌, eq_refl, ◌≡◌, ap, ◌∙◌, Bool, true, false, Option, none,
  some, List, [], ◌∷◌, ltb, leb, eqb, if◌then◌else◌, arith,
}
use e_bank_api.Errors.{rate_limit_exceeded}
use e_bank_api.Models.{Outcome, ok, err, Exec, ◌>>=◌, ◌>>◌}

-- The counters of Redis: a count, and the time at which it ends, if one was set. `true` at the head
-- of `faults` is a RedisError of the next command.
pub record Counters : Type 0 where
  pub counts : String → Option (ℕ × Option ℕ)
  pub now : ℕ
  pub faults : List Bool

pub record Limits : Type 0 where
  pub limit : ℕ
  pub window_seconds : ℕ

abbrev pub not_ended : ℕ → Option (ℕ × Option ℕ) → Option (ℕ × Option ℕ)
not_ended now none = none
not_ended now (some (n, none)) = some (n, none)
not_ended now (some (n, some ends)) = if ltb now ends then some (n, some ends) else none

abbrev pub counted : String → Counters → Option (ℕ × Option ℕ)
counted key r = not_ended r.now (r.counts key)

abbrev put : String → ℕ × Option ℕ → Counters → Counters
put key entry r = record r { counts = λ k. if key == k then some entry else r.counts k }

module _ (l : Limits) where
  -- A fault of Redis is answered with RateLimitExceeded.
  abbrev try_redis : List Bool → Counters → Outcome (Unit {0}) × Counters
  try_redis [] r = (ok tt, r)
  try_redis (true ∷ rest) r =
      (err (rate_limit_exceeded l.window_seconds), record r { faults = rest })
  try_redis (false ∷ rest) r = (ok tt, record r { faults = rest })

  unfoldable pub command : Exec Counters (Unit {0})
  command r = try_redis r.faults r

  -- INCR keeps the time at which the counter ends.
  unfoldable pub incr : String → Exec Counters ℕ
  unfolding command
  incr key = do
    command
    λ r. elim (counted key r) [
      | none ↦ (ok 1, put key (1, none) r)
      | some e ↦ (ok (suc (e.0)), put key (suc (e.0), e.1) r)
    ]

  unfoldable pub expire : String → Exec Counters (Unit {0})
  unfolding command
  expire key = do
    command
    λ r. elim (counted key r) [
      | none ↦ (ok tt, r)
      | some e ↦ (ok tt, put key (e.0, some (r.now + l.window_seconds)) r)
    ]

  -- TTL, with the window where Redis answers a negative number.
  ttl_of : Option (ℕ × Option ℕ) → ℕ → ℕ
  ttl_of none now = l.window_seconds
  ttl_of (some (n, none)) now = l.window_seconds
  ttl_of (some (n, some ends)) now = ends - now

  unfoldable pub ttl : String → Exec Counters ℕ
  unfolding command ttl_of
  ttl key = do command; λ r. (ok (ttl_of (counted key r) r.now), r)

  unfoldable pub expire_first : String → ℕ → Exec Counters (Unit {0})
  unfolding expire
  expire_first key count r = if eqb count 1 then expire key r else (ok tt, r)

  abbrev pub key_of_subject : String → String
  key_of_subject subject = concat "ratelimit:bank:" subject

  -- `allow`: whether the call is allowed, how many remain, and the seconds to the window's end.
  unfoldable pub allow : String → Exec Counters (Bool × ℕ × ℕ)
  unfolding incr expire_first ttl
  allow subject = do
    count ← incr (key_of_subject subject)
    expire_first (key_of_subject subject) count
    left ← ttl (key_of_subject subject)
    λ r. (ok (leb count l.limit, l.limit - count, left), r)

  -- n calls, one after another at one time.
  unfoldable pub calls : String → ℕ → Counters → Counters
  unfolding allow
  calls subject zero r = r
  calls subject (suc n) r = (allow subject (calls subject n r)).1

  -- The first call of a window opens it.
  allow_first :
      (subject : String) (r : Counters)
      → r.faults ≡ []
      → counted (key_of_subject subject) r ≡ none
      → 0 < l.window_seconds
      → ((allow subject r).0 ≡ ok (leb 1 l.limit, l.limit - 1, l.window_seconds))
        × ((allow subject r).1.counts (key_of_subject subject)
            ≡ some (1, some (r.now + l.window_seconds)))
        × ((allow subject r).1.faults ≡ [])
        × ((allow subject r).1.now ≡ r.now)
  unfolding allow incr expire_first expire ttl command ttl_of ◌>>=◌
  allow_first subject r calm free window = ground (arith, eq_refl (key_of_subject subject))

  -- A later call of the window counts.
  pub allow_next :
      (subject : String) (n ends : ℕ) (r : Counters)
      → r.faults ≡ []
      → r.counts (key_of_subject subject) ≡ some (suc n, some ends)
      → r.now < ends
      → ((allow subject r).0 ≡ ok (leb (suc (suc n)) l.limit, l.limit - suc (suc n), ends - r.now))
        × ((allow subject r).1.counts (key_of_subject subject) ≡ some (suc (suc n), some ends))
        × ((allow subject r).1.faults ≡ [])
        × ((allow subject r).1.now ≡ r.now)
  unfolding allow incr expire_first expire ttl command ttl_of ◌>>=◌
  allow_next subject n ends r calm there open_until =
      ground (arith, eq_refl (key_of_subject subject))

  -- What the calls of a window leave.
  calls_left :
      (subject : String) (n : ℕ) (r : Counters)
      → r.faults ≡ []
      → counted (key_of_subject subject) r ≡ none
      → 0 < l.window_seconds
      → ((calls subject (suc n) r).counts (key_of_subject subject)
          ≡ some (suc n, some (r.now + l.window_seconds)))
        × ((calls subject (suc n) r).faults ≡ [])
        × ((calls subject (suc n) r).now ≡ r.now)
  unfolding calls
  calls_left subject zero r calm free window =
      let (_, count, faults, now) = allow_first subject r calm free window in (count, faults, now)
  calls_left subject (suc n) r calm free window =
      let before = calls subject (suc n) r in
      let (there, quiet, clock) = calls_left subject n r calm free window in
      let (_, count, faults, now) =
        allow_next subject n (r.now + l.window_seconds) before quiet there (omega (arith, clock)) in
      (count, faults, now ∙ clock)

  -- Where Redis does not fail, the window's length is above zero (of length zero, a counter ends at
  -- once) and no window of the subject is open: of the calls that follow at one time, the call number n+1 is allowed exactly if n+1 is at most the limit, and is told how many
  -- remain and that the window ends a window's length later.
  pub allow_nth :
      (subject : String) (n : ℕ) (r : Counters)
      → r.faults ≡ []
      → counted (key_of_subject subject) r ≡ none
      → 0 < l.window_seconds
      → (allow subject (calls subject n r)).0
        ≡ ok (leb (suc n) l.limit, l.limit - suc n, l.window_seconds)
  unfolding calls
  allow_nth subject zero r calm free window =
      let (answer, _, _, _) = allow_first subject r calm free window in answer
  allow_nth subject (suc n) r calm free window =
      let before = calls subject (suc n) r in
      let (there, quiet, clock) = calls_left subject n r calm free window in
      let (answer, _, _, _) =
        allow_next subject n (r.now + l.window_seconds) before quiet there (omega (arith, clock)) in
      answer
      ∙ rw clock (ap (λ t. ok (leb (suc (suc n)) l.limit, l.limit - suc (suc n), t)) (omega arith))
