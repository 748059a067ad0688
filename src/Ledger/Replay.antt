-- ===== src/Ledger/Replay.antt =====
-- Idempotency keys of journals (app/services/ledger.py).
use mathlib.Core.Path.{subst}
use e_bank_api.Prelude.{
  String, ◌==◌, eq_refl, ◌≡◌, ◌≢◌, ap, ◌∙◌, none, some, List, [], ◌∷◌, ◌++◌, arith, truthy,
  Bool-cases, inl, inr, ne→eq_false,
}
use e_bank_api.Errors.{idempotent_replay, pending_rollback}
use e_bank_api.Models.{JournalEntry, Db, Env, ok, err, ◌>>=◌}
use e_bank_api.Ledger.{PostArgs, journal_by_key, check_replay, journal_row, write_journal, post}
use e_bank_api.Ledger.Checks.{IsEntry, check_lines_iff}
use e_bank_api.Ledger.Post.{post-ok, post_tables, write_journal-ok}

truthy-some : (k : String) → k ≢ "" → truthy (some k) ≡ some k
truthy-some k h = rw (ne→eq_false k "" h)

journal_by_key-append :
    (k : String) (rows : List JournalEntry) (j : JournalEntry)
    → journal_by_key k rows ≡ none
    → j.idempotency_key ≡ some k
    → journal_by_key k (rows ++ j ∷ []) ≡ some j
unfolding journal_by_key
journal_by_key-append k [] j fresh key = ground (arith, eq_refl k)
journal_by_key-append k (i ∷ rows) j fresh key = ground (arith, journal_by_key-append k rows j)

-- A key that passed the lookup is new.
check_replay-fresh :
    (k : String) (db : Db)
    → check_replay (some k) db ≡ (ok tt, db)
    → journal_by_key k db.journal_entries ≡ none
unfolding check_replay
check_replay-fresh k db h = ground arith

pub check_replay-pass :
    (k : String) (db : Db)
    → journal_by_key k db.journal_entries ≡ none
    → check_replay (truthy (some k)) db ≡ (ok tt, db)
unfolding check_replay
check_replay-pass k db unused = elim (Bool-cases (k == "")) [
  | inl empty ↦ rw empty
  | inr real ↦ rw real (rw (unused, check_replay))
]

check_replay-used :
    (k : String) (j : JournalEntry) (db : Db)
    → journal_by_key k db.journal_entries ≡ some j
    → check_replay (some k) db ≡ (err (idempotent_replay j.id), db)
unfolding check_replay
check_replay-used k j db h = rw (h, check_replay)

-- A `post` under the key of a journal that is there raises the replay of that journal, whatever
-- the entry, and writes nothing.
pub post_replay :
    (env : Env) (m : PostArgs) (k : String) (j : JournalEntry) (db : Db)
    → m.audit.idempotency_key ≡ some k
    → k ≢ ""
    → journal_by_key k db.journal_entries ≡ some j
    → post env m db ≡ (err (idempotent_replay j.id), db)
unfolding post ◌>>=◌
post_replay env m k j db key real used =
    let looked_up : check_replay (truthy m.audit.idempotency_key) db
        ≡ (err (idempotent_replay j.id), db) =
      rw key (rw (truthy-some k real) (check_replay-used k j db used)) in
    ground arith

-- Once `post` has returned a journal under a key that is not empty, `post` under that key raises
-- the replay of that journal and writes nothing.
pub post_once :
    (env env' : Env) (m m' : PostArgs) (k : String) (j : JournalEntry) (db db' : Db)
    → post env m db ≡ (ok j, db')
    → m.audit.idempotency_key ≡ some k
    → m'.audit.idempotency_key ≡ some k
    → k ≢ ""
    → post env' m' db' ≡ (err (idempotent_replay j.id), db')
unfolding journal_row
post_once env env' m m' k j db db' done key key' real =
    let (_, passed, written) = post-ok env m j db db' done in
    let (row, _) = write_journal-ok env m j db db' written in
    let (_, _, journals) = post_tables env m j db db' done in
    let fresh =
      check_replay-fresh k db (
        subst (λ o. check_replay o db ≡ (ok tt, db)) (ap truthy key ∙ truthy-some k real) passed) in
    let own : j.idempotency_key ≡ some k = ap (λ (i : JournalEntry). i.idempotency_key) row ∙ key in
    post_replay env' m' k j db' key' real
      (rw journals (journal_by_key-append k db.journal_entries j fresh own))

-- When a concurrent request commits a journal under a key, not empty and not there before, between
-- the lookup and the insert, a balanced `post` under it raises the error of an ended transaction, and
-- not the replay of that journal.
pub post_conflict :
    (env : Env) (m : PostArgs) (k holder : String) (db : Db)
    → IsEntry m.lines
    → m.audit.idempotency_key ≡ some k
    → k ≢ ""
    → journal_by_key k db.journal_entries ≡ none
    → env.raced k ≡ some holder
    → (post env m db).0 ≡ err pending_rollback
unfolding post write_journal ◌>>=◌
post_conflict env m k holder db entry key real fresh raced =
    let passed : check_replay (truthy m.audit.idempotency_key) db ≡ (ok tt, db) =
      rw key (check_replay-pass k db fresh) in
    ground (arith, passed, truthy-some k real, (check_lines_iff m.lines).1 entry)
