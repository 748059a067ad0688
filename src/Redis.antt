-- ===== src/Redis.antt =====
-- What the service uses of Redis: GET, SET with EX and NX, DEL, over a map from keys to a value and
-- the time at which it expires. Each command first takes the head of `faults`: `true` is a
-- RedisError, which the service turns into IdempotencyStorageException. The text that
-- `json.dumps` stores is held as the value that `json.loads` gives back.
use e_bank_api.Prelude.{
  ℕ, ◌+◌, String, ◌==◌, Bool, true, false, Option, none, some, List, [], ◌∷◌, ltb, if◌then◌else◌,
}
use e_bank_api.Errors.{idempotency_storage}
use e_bank_api.Models.{Outcome, ok, err, Exec, ◌>>◌}
use e_bank_api.Json.{Value}

pub record Redis : Type 0 where
  pub entries : String → Option (Value × ℕ)
  pub now : ℕ
  pub faults : List Bool

-- The value of a key that has not expired.
abbrev pub unexpired : ℕ → Option (Value × ℕ) → Option Value
unexpired now none = none
unexpired now (some (v, expires)) = if ltb now expires then some v else none

abbrev pub live : Redis → String → Option Value
live r k = unexpired r.now (r.entries k)

abbrev pub store : String → Option (Value × ℕ) → Redis → Redis
store k entry r = record r { entries = λ j. if k == j then entry else r.entries j }

abbrev answer : List Bool → Redis → Outcome (Unit {0}) × Redis
answer [] r = (ok tt, r)
answer (true ∷ rest) r = (err idempotency_storage, record r { faults = rest })
answer (false ∷ rest) r = (ok tt, record r { faults = rest })

unfoldable pub command : Exec Redis (Unit {0})
command r = answer r.faults r

unfoldable pub get : String → Exec Redis (Option Value)
unfolding command
get k = do command; λ r. (ok (live r k), r)

unfoldable pub set : String → Value → ℕ → Exec Redis (Unit {0})
unfolding command
set k v ex = do command; λ r. (ok tt, store k (some (v, r.now + ex)) r)

-- `set(..., nx=True)`: whether the key was free.
unfoldable pub set_nx : String → Value → ℕ → Exec Redis Bool
unfolding command
set_nx k v ex = do
  command
  λ r. elim (live r k) [
    | some _ ↦ (ok false, r)
    | none ↦ (ok true, store k (some (v, r.now + ex)) r)
  ]

unfoldable pub delete : String → Exec Redis (Unit {0})
unfolding command
delete k = do command; λ r. (ok tt, store k none r)
