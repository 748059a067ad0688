-- ===== src/Ledger/Post.antt =====
-- What a successful `LedgerService.post` has written.
use mathlib.Core.Option
use e_bank_api.Prelude.{
  true, ◌+◌, String, ◌≡◌, refl, ap, ◌∙◌, Option, none, some, List, [], ◌∷◌, ◌++◌, map, arith,
  truthy,
}
use e_bank_api.Models.{JournalEntry, Db, Env, ok, err, ◌>>=◌}
use e_bank_api.Errors.{Error}
use e_bank_api.Ledger.{
  key_holder, all_known, PostingLine, mirror_line, get_account, PostArgs, check_replay, posting_row,
  mirror_lines, journal_row, write_journal, post,
}
use e_bank_api.Ledger.Mirror.{adjust, net, get_account-mirror_lines}
use e_bank_api.Ledger.Checks.{IsEntry, check_lines_iff}

-- The tables with the journal and its postings, before the balances are moved.
unfoldable pub entered : PostArgs → JournalEntry → Db → Db
entered m j db = record db {
  journal_entries = db.journal_entries ++ j ∷ [];
  ledger_postings = db.ledger_postings ++ map (posting_row j.id) m.lines;
  drawn = db.drawn + 1;
}

pub write_journal-ok :
    (env : Env) (m : PostArgs) (j : JournalEntry) (db db' : Db)
    → write_journal env m db ≡ (ok j, db')
    → (j ≡ journal_row m (env.uuid db.drawn) db)
      × (db' ≡ mirror_lines env m m.lines (entered m j db))
unfolding write_journal entered ◌>>=◌
write_journal-ok env m j db db' h = ground arith

-- The lookup and the checks write nothing.
pub check_replay_state : (k : Option String) (db : Db) → (check_replay k db).1 ≡ db
unfolding check_replay
check_replay_state none db = refl
check_replay_state (some k) db = ground arith

pub post-ok :
    (env : Env) (m : PostArgs) (j : JournalEntry) (db db' : Db)
    → post env m db ≡ (ok j, db')
    → IsEntry m.lines
      × (check_replay (truthy m.audit.idempotency_key) db ≡ (ok tt, db))
      × (write_journal env m db ≡ (ok j, db'))
unfolding post ◌>>=◌
post-ok env m j db db' h =
    let key = truthy m.audit.idempotency_key in
    (
      (check_lines_iff m.lines).0 (ground (arith, check_replay_state key db)),
      ground (arith, check_replay_state key db),
      ground (arith, check_replay_state key db),
    )

-- A `post` that raises moves no balance, and leaves no posting and no mirrored row.
pub post-err :
    (env : Env) (m : PostArgs) (e : Error) (db db' : Db)
    → post env m db ≡ (err e, db')
    → (db'.accounts ≡ db.accounts)
      × (db'.ledger_postings ≡ db.ledger_postings)
      × (db'.transactions ≡ db.transactions)
unfolding post write_journal ◌>>=◌
post-err env m e db db' h = ground (arith, check_replay_state (truthy m.audit.idempotency_key) db)

-- The loop over the balances writes no posting and no journal.
pub ledger_postings-mirror_lines :
    (env : Env) (m : PostArgs) (lines : List PostingLine) (db : Db)
    → ((mirror_lines env m lines db).ledger_postings ≡ db.ledger_postings)
      × ((mirror_lines env m lines db).journal_entries ≡ db.journal_entries)
unfolding mirror_lines
ledger_postings-mirror_lines env m [] db = (refl, refl)
ledger_postings-mirror_lines env m (l ∷ lines) db =
    ground (arith, ledger_postings-mirror_lines env m lines (mirror_line env m l db))

-- The same of a successful `post`, table by table.
pub post_tables :
    (env : Env) (m : PostArgs) (j : JournalEntry) (db db' : Db)
    → post env m db ≡ (ok j, db')
    → ((id : String)
        → get_account id db' ≡ Option.map (adjust (net id m.lines)) (get_account id db))
      × (db'.ledger_postings ≡ db.ledger_postings ++ map (posting_row j.id) m.lines)
      × (db'.journal_entries ≡ db.journal_entries ++ j ∷ [])
unfolding entered
post_tables env m j db db' h =
    let (_, e) = write_journal-ok env m j db db' (post-ok env m j db db' h).2 in
    let (postings, journals) = ledger_postings-mirror_lines env m m.lines (entered m j db) in
    (
      λ id. ap (get_account id) e ∙ get_account-mirror_lines env m id m.lines (entered m j db),
      ap (λ (d : Db). d.ledger_postings) e ∙ postings,
      ap (λ (d : Db). d.journal_entries) e ∙ journals,
    )

-- A balanced entry under a fresh key, on ledger accounts that are there, is posted.
pub post_total :
    (env : Env) (m : PostArgs) (db : Db)
    → IsEntry m.lines
    → check_replay (truthy m.audit.idempotency_key) db ≡ (ok tt, db)
    → key_holder env m.audit.idempotency_key db ≡ none
    → all_known m.lines db.ledger_accounts ≡ true
    → (post env m db).0 ≡ ok (journal_row m (env.uuid db.drawn) db)
unfolding post write_journal ◌>>=◌
post_total env m db entry fresh free known = ground (arith, (check_lines_iff m.lines).1 entry)
