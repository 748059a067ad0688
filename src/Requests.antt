-- ===== src/Requests.antt =====
-- The routes of app/api as what they do to the database: one service call in the scope of
-- `get_db` (app/core/database.py) each.
pub mod Reachable
pub mod Ordered
pub mod Statements
use e_bank_api.Prelude.{ℕ, ◌≤◌, String, Bool, Option, none}
use e_bank_api.Json.{Fields}
use e_bank_api.Models.{Db, Env, Action, get_db}
use e_bank_api.Applications.{Application}
use e_bank_api.Onboarding
use e_bank_api.Completion
use e_bank_api.Completion.{Client}
use e_bank_api.Transfers
use e_bank_api.Transfers.{Settings, TransferArgs}
use e_bank_api.DemoBank
use e_bank_api.DemoBank.{Demo}
use e_bank_api.Events
use e_bank_api.Events.{EventIn}

-- The settings that the services of one bank share.
pub record Bank : Type 0 where
  pub demo : Demo
  pub transfers : Settings

-- The session ends with the request, and its pending account number with it.
unfoldable pub committed : {A : Type 0} → Action A → Db → Db
committed request db = record ((get_db request db).1) { account_number_pending = none }

-- One request served, or time going by.
pub data Step (b : Bank) (env : Env) (db : Db) : Db → Type 0 where
  wait : (now : ℕ) → db.now ≤ now → Step b env db (record db { now = now })
  get_status :
      (subject : String) (id : Option String)
      → Step b env db (committed (Onboarding.get_status env b.demo.opening.numbering subject id) db)
  start :
      (subject : String) (id : Option String)
      → Step b env db (committed (Onboarding.start env b.demo.opening.numbering subject id) db)
  consent :
      (subject policy : String) → Step b env db (committed (Onboarding.consent subject policy) db)
  attach_document :
      (subject doc_type : String) (extraction : Option String) (summary : Option Fields)
      (id : Option String)
      → Step b env db (
          committed
            (Onboarding.attach_document env b.demo.opening.numbering subject doc_type extraction
              summary id)
            db)
  complete :
      (subject : String) (p : Application) (email id : Option String) (c : Client)
      → Step b env db (committed (Completion.complete b.demo.opening env subject p email id c) db)
  skip :
      (subject : String) (email name id : Option String) (c : Client)
      → Step b env db
          (committed (Completion.skip_and_open b.demo.opening env subject email name id c) db)
  open_account :
      (subject : String)
      → Step b env db (committed (DemoBank.open_additional_account b.demo env subject) db)
  transfer :
      (subject : String) (m : TransferArgs)
      → Step b env db (committed (Transfers.transfer b.transfers env subject m) db)
  withdraw :
      (subject amount : String) (key : Option String) (c : Client)
      → Step b env db (committed (DemoBank.withdraw b.demo env subject amount key c) db)
  event : (body : EventIn) → Step b env db (committed (Events.event env body) db)
  reset :
      (allowed postgresql : Bool) → Step b env db (committed (Events.reset allowed postgresql) db)

-- Any number of steps, each with draws of its own.
pub data Reach (b : Bank) (db : Db) : Db → Type 0 where
  here : Reach b db db
  onwards : {db' db'' : Db} (env : Env) → Reach b db db' → Step b env db' db'' → Reach b db db''
