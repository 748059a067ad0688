-- ===== src/Events/Kept.antt =====
-- What every routine keeps, the legacy routes (app/api/legacy.py) keep.
use e_bank_api.Prelude.{Bool}
use e_bank_api.Models.{Db, Env, modify}
use e_bank_api.Models.Keeps.{Keeps, keeps_rules}
use e_bank_api.Routine.{Routine}
use e_bank_api.Legacy.Kept.{Keeps-deposit, Keeps-withdraw, Keeps-transfer}
use e_bank_api.Queries.{delete_all}
use e_bank_api.Events.{EventIn, served_event, event, reset}

module _ {P : Db → Type 0} (R : Routine P) where
  Keeps-served_event : (env : Env) (b : EventIn) → Keeps P (served_event env b)
  unfolding served_event
  Keeps-served_event env b =
      search (keeps_rules, Keeps-deposit, Keeps-withdraw, Keeps-transfer) depth 12

  pub Keeps-event : (env : Env) (b : EventIn) → Keeps P (event env b)
  unfolding event
  Keeps-event env b = search (keeps_rules, Keeps-served_event)

  Keeps-delete_all : (postgresql : Bool) → Keeps P (modify (delete_all postgresql))
  Keeps-delete_all postgresql = record { after = λ db h. R.cleared postgresql db h }

  pub Keeps-reset : (allowed postgresql : Bool) → Keeps P (reset allowed postgresql)
  unfolding reset
  Keeps-reset allowed postgresql = search (keeps_rules, Keeps-delete_all)
