-- ===== src/Idempotency/Effects.antt =====
-- What the service's calls do to Redis when no command fails.
use e_bank_api.Prelude.{ℕ, ◌+◌, String, ◌≡◌, none, some, [], arith}
use e_bank_api.Errors.{duplicate_request}
use e_bank_api.Models.{ok, err, ◌>>=◌}
use e_bank_api.Json.{Value}
use e_bank_api.Redis
use e_bank_api.Redis.{Redis, live, store, unexpired}
use e_bank_api.Idempotency.{
  processing, IdempotencyRecord, Config, to_dict, check, new_record, set_processing,
  completed_record, set_completed, set_failed,
}
use e_bank_api.Idempotency.Codec.{from_dict-to_dict}

module _ (k : String) (r : Redis) (calm : r.faults ≡ []) where
  pub check-found :
      (stored : IdempotencyRecord)
      → live r k ≡ some (to_dict stored)
      → check k r ≡ (ok (some stored), r)
  unfolding check ◌>>=◌ Redis.get
  check-found stored here = ground (arith, from_dict-to_dict stored)

  pub check-free : live r k ≡ none → check k r ≡ (ok none, r)
  unfolding check ◌>>=◌ Redis.get
  check-free free = ground arith

  pub set_processing-free :
      (c : Config) (hash : String)
      → live r k ≡ none
      → set_processing c k hash r ≡ (
        ok tt,
        store k
            (some (to_dict (new_record processing hash (c.iso r.now) 1), r.now + c.ttl_processing))
            r,
      )
  unfolding set_processing ◌>>=◌ Redis.set_nx
  set_processing-free c hash free = ground arith

  pub set_processing-taken :
      (c : Config) (hash : String) (v : Value)
      → live r k ≡ some v
      → set_processing c k hash r ≡ (err (duplicate_request k), r)
  unfolding set_processing ◌>>=◌ Redis.set_nx
  set_processing-taken c hash v taken = ground arith

  pub set_completed-found :
      (c : Config) (code : ℕ) (body : Value) (old : IdempotencyRecord)
      → live r k ≡ some (to_dict old)
      → set_completed c k code body r ≡ (
        ok tt,
        store k
            (some
              (to_dict (completed_record c (some old) code body r.now), r.now + c.ttl_completed))
            r,
      )
  unfolding set_completed ◌>>=◌ Redis.set
  set_completed-found c code body old here = ground (arith, check-found old here)

  pub set_failed-deletes : set_failed k r ≡ (ok tt, store k none r)
  unfolding set_failed Redis.delete ◌>>=◌
  set_failed-deletes = ground arith
