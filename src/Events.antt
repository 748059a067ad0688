-- ===== src/Events.antt =====
-- app/api/legacy.py: the routes of the integer service, and the body that `EventIn` (app/schemas) accepts.
pub mod Kept
use e_bank_api.Prelude.{
  String, ◌==◌, Bool, true, false, not, ◌&&◌, ◌||◌, Option, none, some, [], ◌∷◌, is_some, truthy,
  if◌then◌else◌,
}
use e_bank_api.Prelude.Int.{ℤ, pos, ltb_ℤ}
use e_bank_api.Errors.{http_exception}
use e_bank_api.Models.{Db, Env, Action, pure, raise_if, modify, ◌>>=◌, ◌>>◌}
use e_bank_api.Queries.{listed, delete_all}
use e_bank_api.Legacy
use e_bank_api.Legacy.{Balance}

pub record EventIn : Type 0 where
  pub type : String
  pub origin : Option String
  pub destination : Option String
  pub amount : ℤ

abbrev has_text : Option String → Bool
has_text o = is_some (truthy o)

-- What the model's fields and `validate_fields_by_type` accept.
unfoldable pub is_valid_event : EventIn → Bool
unfolding listed
is_valid_event b =
    listed b.type ("deposit" ∷ "withdraw" ∷ "transfer" ∷ [])
    && ltb_ℤ (pos 0) b.amount
    && (not (b.type == "deposit") || has_text b.destination)
    && (not (b.type == "withdraw") || has_text b.origin)
    && (not (b.type == "transfer") || (has_text b.origin && has_text b.destination))

-- A field that is there.
abbrev text_of : Option String → String
text_of none = ""
text_of (some s) = s

pub data EventOut : Type 0 where
  deposited : Balance → EventOut
  withdrew : Balance → EventOut
  transferred : Balance → Balance → EventOut

unfoldable pub served_event : Env → EventIn → Action EventOut
served_event env b =
    if b.type == "deposit"
    then (do
      account ← Legacy.deposit env (text_of b.destination) b.amount
      pure (deposited account))
    else if b.type == "withdraw"
    then (do account ← Legacy.withdraw env (text_of b.origin) b.amount; pure (withdrew account))
    else (do
      pair ← Legacy.transfer env (text_of b.origin) (text_of b.destination) b.amount
      pure (transferred (pair.0) (pair.1)))

-- A body that is not valid is answered by FastAPI with 422.
unfoldable pub event : Env → EventIn → Action EventOut
unfolding served_event is_valid_event
event env b = do raise_if (not (is_valid_event b)) (http_exception 422); served_event env b

-- `Settings.reset_allowed` (app/core/config.py)
unfoldable pub reset_allowed : (String → String) → Option String → String → Bool
unfolding listed
reset_allowed lower none env = not (listed (lower env) ("production" ∷ "prod" ∷ []))
reset_allowed lower (some s) env = listed (lower s) ("1" ∷ "true" ∷ "yes" ∷ "on" ∷ [])

-- The route `reset`, and `AccountService.reset`.
unfoldable pub reset : Bool → Bool → Action String
unfolding delete_all
reset allowed postgresql = do
  raise_if (not allowed) (http_exception 404)
  modify (delete_all postgresql)
  pure "OK"
