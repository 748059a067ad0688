-- ===== src/Requests/Reachable.antt =====
-- What holds of every database that requests lead to.
use e_bank_api.Prelude.{◌≤◌, none, ℕ}
use e_bank_api.Models.{Db, Env, Outcome, ok, err, Action, get_db}
use e_bank_api.Models.Keeps.{Keeps}
use e_bank_api.Ledger.Kept.{Keeps-ensures}
use e_bank_api.Routine.{Routine}
use e_bank_api.Onboarding.Kept.{Keeps-get_status, Keeps-start, Keeps-consent, Keeps-attach_document}
use e_bank_api.Completion.Kept.{Keeps-complete, Keeps-skip_and_open}
use e_bank_api.DemoBank.Kept.{Keeps-withdraw, Keeps-open_additional_account}
use e_bank_api.Transfers.Kept.{Keeps-transfer}
use e_bank_api.Events.Kept.{Keeps-event, Keeps-reset}
use e_bank_api.Requests.{
  Bank, committed, Step, wait, get_status, start, consent, attach_document, complete, skip,
  open_account, transfer, withdraw, event, reset, Reach, here, onwards,
}

get_db_keeps :
    {A : Type 0} (P : Db → Type 0) (act : Action A) (db : Db)
    → Keeps P act
    → P db
    → P (get_db act db).1
unfolding get_db
get_db_keeps {A = A} P act db keeps h = by (act db) (keeps.after db h)
  where
    by :
        (r : Outcome A × Db)
        → P r.1
        → let s : Outcome A × Db = elim r.0 [ ok a ↦ (ok a, r.1) | err e ↦ (err e, db) ] in P s.1
    by (ok a, _) k = k
    by (err e, _) k = h

-- A property that the routines of the tables keep, that time keeps, and that says nothing of a session's
-- pending number.
module _ {P : Db → Type 0} (R : Routine P)
    (wait_kept : (db : Db) (now : ℕ) → db.now ≤ now → P db → P (record db { now = now }))
    (ended : (db : Db) → P db → P (record db { account_number_pending = none })) (b : Bank) where
  committed_kept :
      {A : Type 0} (act : Action A) (db : Db) → Keeps P act → P db → P (committed act db)
  unfolding committed
  committed_kept act db keeps h = ended _ (get_db_keeps P act db keeps h)

  Step_kept : (env : Env) (db db' : Db) → Step b env db db' → P db → P db'
  Step_kept env db _ (wait now later) h = wait_kept db now later h
  Step_kept env db _ (get_status subject id) h =
      committed_kept _ db (Keeps-get_status R env b.demo.opening.numbering subject id) h
  Step_kept env db _ (start subject id) h =
      committed_kept _ db (Keeps-start R env b.demo.opening.numbering subject id) h
  Step_kept env db _ (consent subject policy) h =
      committed_kept _ db (Keeps-consent R subject policy) h
  Step_kept env db _ (attach_document subject doc_type extraction summary id) h =
      committed_kept _ db
        (Keeps-attach_document R env b.demo.opening.numbering subject doc_type extraction summary
          id)
        h
  Step_kept env db _ (complete subject p email id c) h =
      committed_kept _ db (Keeps-complete R b.demo.opening env subject p email id c) h
  Step_kept env db _ (skip subject email name id c) h =
      committed_kept _ db (Keeps-skip_and_open R b.demo.opening env subject email name id c) h
  Step_kept env db _ (open_account subject) h =
      committed_kept _ db (Keeps-open_additional_account R b.demo env subject) h
  Step_kept env db _ (transfer subject m) h =
      committed_kept _ db (Keeps-transfer P R.posts (Keeps-ensures R) b.transfers env subject m) h
  Step_kept env db _ (withdraw subject amount key c) h =
      committed_kept _ db (Keeps-withdraw R b.demo env subject amount key c) h
  Step_kept env db _ (event body) h = committed_kept _ db (Keeps-event R env body) h
  Step_kept env db _ (reset allowed postgresql) h =
      committed_kept _ db (Keeps-reset R allowed postgresql) h

  pub Reach_kept : (db db' : Db) → Reach b db db' → P db → P db'
  Reach_kept db _ here h = h
  Reach_kept db db' (onwards {db' = db1} env before last) h =
      Step_kept env db1 db' last (Reach_kept db db1 before h)
