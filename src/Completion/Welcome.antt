-- ===== src/Completion/Welcome.antt =====
-- The welcome grant of `_ensure_welcome` (app/services/onboarding_complete.py).
use Prim.Native.String.{◌++◌ as concat}
use e_bank_api.Prelude.{
  truthy, String, eq_refl, ◌≡◌, ◌≢◌, refl, ap, sym, ◌∙◌, Bool, true, false, Option, none, some,
  List, [], ◌∷◌, ◌++◌, arith, ne→eq_false, if◌then◌else◌,
}
use e_bank_api.Prelude.Int.{ℤ}
use e_bank_api.Errors.{assertion_error, idempotent_replay}
use e_bank_api.Models.{
  Account, JournalEntry, Transaction, Db, Env, Outcome, ok, err, lift, >>=-eq-ok, debit, credit,
  ◌>>=◌,
}
use e_bank_api.Applications.{Opening}
use mathlib.Core.Option
use mathlib.Core.Path.{subst}
use e_bank_api.Prelude.Table.{find, key-find}
use e_bank_api.Ledger.{
  account_key, Audit, PostArgs, sys_cash_id, line, get_account, journal_by_key, welcome_grant, post,
  ensure_customer_ledger_account, ensure_system_accounts, ensure_ledger_account, mirror_line,
  mirror_lines, mirror_row, add_transaction, txn_type, check_lines, check_each, insert_journal,
  insert_postings, write_journal, key_holder, check_replay,
}
use e_bank_api.Ledger.Replay.{check_replay-pass}
use e_bank_api.Ledger.Post.{post-ok, write_journal-ok, entered, post_tables}
use e_bank_api.Completion.{
  Client, welcome_audit, has_grant, replay_is_true, grant_to, ensure_welcome, welcome_money,
}

abbrev grant_args : Account → ℤ → Audit → PostArgs
grant_args a x audit = record {
  entry_type = "welcome_grant";
  lines = line sys_cash_id debit x ∷ line a.id credit x ∷ [];
  audit = record audit { reason = some "Welcome demo funds" };
  mirror_transactions = true;
}

abbrev with_ledger : Account → Db → Db
with_ledger a db = (ensure_customer_ledger_account a db).1

welcome_grant-post :
    (env : Env) (a : Account) (x : ℤ) (audit : Audit) (db : Db)
    → welcome_grant env a x audit db ≡ post env (grant_args a x audit) (with_ledger a db)
unfolding welcome_grant ensure_customer_ledger_account ensure_system_accounts ◌>>=◌
welcome_grant-post env a x audit db = refl

with_ledger_state :
    (a : Account) (db : Db)
    → ((with_ledger a db).accounts ≡ db.accounts)
      × ((with_ledger a db).journal_entries ≡ db.journal_entries)
unfolding ensure_customer_ledger_account ensure_system_accounts ensure_ledger_account ◌>>=◌
with_ledger_state a db = ground arith

module _ (o : Opening) where
  has_grant-append :
      (id : String) (rows : List Transaction) (t : Transaction)
      → t.account_id ≡ id
      → t.type ≡ "demo_grant"
      → has_grant o id (rows ++ t ∷ []) ≡ true
  unfolding has_grant
  has_grant-append id [] t own grant = rw (own, grant, eq_refl id) refl
  has_grant-append id (s ∷ rows) t own grant = ground (arith, has_grant-append id rows t own grant)

  has_grant_posted :
      (env : Env) (a : Account) (x : ℤ) (audit : Audit) (j : JournalEntry) (db db' : Db)
      → a.id ≢ sys_cash_id
      → get_account a.id db ≡ some a
      → post env (grant_args a x audit) db ≡ (ok j, db')
      → has_grant o a.id db'.transactions ≡ true
  unfolding mirror_lines mirror_line mirror_row add_transaction entered txn_type
  has_grant_posted env a x audit j db db' ne found h =
      let m = grant_args a x audit in
      let (_, written) = write_journal-ok env m j db db' (post-ok env m j db db' h).2 in
      rw (written, ne→eq_false a.id sys_cash_id ne, found)
        (has_grant-append a.id db.transactions _ refl refl)

  no_replay :
      (env : Env) (a : Account) (x : ℤ) (audit : Audit) (k i : String) (db db' : Db)
      → audit.idempotency_key ≡ some k
      → journal_by_key k db.journal_entries ≡ none
      → env.raced k ≡ none
      → post env (grant_args a x audit) db ≢ (err (idempotent_replay i), db')
  unfolding post write_journal insert_journal insert_postings key_holder check_lines check_each
      ◌>>=◌
  no_replay env a x audit k i db db' key fresh quiet h =
      let passed : check_replay (truthy audit.idempotency_key) db ≡ (ok tt, db) =
        rw key (check_replay-pass k db fresh) in
      let free : key_holder env audit.idempotency_key db ≡ none =
        rw key (ground (arith, fresh, quiet)) in
      ground (arith, passed, free)

  -- What a grant leaves: a transaction of type demo_grant, and the account.
  abbrev IsGranted : String → Db → Type 0
  IsGranted id db =
      (has_grant o id db.transactions ≡ true) × (a : Account) × (get_account id db ≡ some a)

  IsGranted-welcome_grant :
      (env : Env) (a : Account) (x : ℤ) (audit : Audit) (j : JournalEntry) (db db' : Db)
      → a.id ≢ sys_cash_id
      → get_account a.id db ≡ some a
      → welcome_grant env a x audit db ≡ (ok j, db')
      → IsGranted a.id db'
  IsGranted-welcome_grant env a x audit j db db' ne found h =
      let posted = sym (welcome_grant-post env a x audit db) ∙ h in
      let there : get_account a.id (with_ledger a db) ≡ some a =
        ap (find account_key a.id) ((with_ledger_state a db).0) ∙ found in
      let (accounts, _, _) =
        post_tables env (grant_args a x audit) j (with_ledger a db) db' posted in
      (
        has_grant_posted env a x audit j (with_ledger a db) db' ne there posted,
        _,
        accounts a.id ∙ ap (Option.map _) there,
      )

  IsGranted-replayed :
      (env : Env) (a : Account) (x : ℤ) (audit : Audit) (k : String) (db db' : Db) (credited : Bool)
      → a.id ≢ sys_cash_id
      → get_account a.id db ≡ some a
      → audit.idempotency_key ≡ some k
      → journal_by_key k db.journal_entries ≡ none
      → env.raced k ≡ none
      → (r : Outcome JournalEntry × Db) → welcome_grant env a x audit db ≡ r
      → replay_is_true o r.0 r.1 ≡ (ok credited, db')
      → IsGranted a.id db'
  unfolding replay_is_true
  IsGranted-replayed env a x audit k db db' credited ne found key fresh quiet (ok j, d) e h =
      let same : d ≡ db' = cc in
      subst (IsGranted a.id) same (IsGranted-welcome_grant env a x audit j db d ne found e)
  IsGranted-replayed env a x audit k db db' credited ne found key fresh quiet
        (err (idempotent_replay i), d) e h =
      absurd (
        no_replay env a x audit k i (with_ledger a db) d key
          (ap (journal_by_key k) ((with_ledger_state a db).1) ∙ fresh) quiet
          (sym (welcome_grant-post env a x audit db) ∙ e))
  IsGranted-replayed env a x audit k db db' credited ne found key fresh quiet (err y, d) e h =
      absurd (cc)

  IsGranted-grant_to :
      (env : Env) (a : Account) (c : Client) (credited : Bool) (db db' : Db)
      → a.id ≢ sys_cash_id
      → get_account a.id db ≡ some a
      → journal_by_key (concat "welcome:" a.id) db.journal_entries ≡ none
      → env.raced (concat "welcome:" a.id) ≡ none
      → grant_to o env a c db ≡ (ok credited, db')
      → IsGranted a.id db'
  unfolding grant_to
  IsGranted-grant_to env a c credited db db' ne found fresh quiet h =
      let (x, db1, first, rest) = >>=-eq-ok (lift (welcome_money o)) _ db h in
      let same : db1 ≡ db = cc in
      let here =
        subst
          (λ d.
            (let (r, d') = welcome_grant env a x (welcome_audit o a c) d in replay_is_true o r d')
            ≡ (ok credited, db'))
          same rest in
      IsGranted-replayed env a x (welcome_audit o a c) (concat "welcome:" a.id) db db' credited ne
        found refl fresh quiet (welcome_grant env a x (welcome_audit o a c) db) refl here

  again :
      (env : Env) (id : String) (c : Client) (db : Db)
      → IsGranted id db
      → ensure_welcome o env id c db ≡ (ok true, db)
  unfolding ensure_welcome
  again env id c db (granted, a, found) = rw (found, ensure_welcome) (rw granted refl)

  missing :
      (env : Env) (id : String) (c : Client) (db : Db)
      → get_account id db ≡ none
      → ensure_welcome o env id c db ≡ (err assertion_error, db)
  unfolding ensure_welcome
  missing env id c db e = rw (e, ensure_welcome)

  present :
      (env : Env) (id : String) (a : Account) (c : Client) (db : Db)
      → get_account id db ≡ some a
      → ensure_welcome o env id c db
        ≡ (if has_grant o id db.transactions then (ok true, db) else grant_to o env a c db)
  unfolding ensure_welcome
  present env id a c db e = rw (e, ensure_welcome) refl

  IsGranted-ensure_welcome :
      (env : Env) (id : String) (c : Client) (credited : Bool) (db db' : Db)
      → id ≢ sys_cash_id
      → journal_by_key (concat "welcome:" id) db.journal_entries ≡ none
      → env.raced (concat "welcome:" id) ≡ none
      → (found : Option Account) → get_account id db ≡ found
      → ensure_welcome o env id c db ≡ (ok credited, db')
      → IsGranted id db'
  IsGranted-ensure_welcome env id c credited db db' ne fresh quiet none e h =
      let gone = missing env id c db e in absurd (cc)
  IsGranted-ensure_welcome env id c credited db db' ne fresh quiet (some a) e h =
      by (has_grant o id db.transactions) refl (sym (present env id a c db e) ∙ h)
    where
      same : a.id ≡ id
      same = key-find account_key id db.accounts a e

      by :
          (b : Bool)
          → has_grant o id db.transactions ≡ b
          → (if b then (ok true, db) else grant_to o env a c db) ≡ (ok credited, db')
          → IsGranted id db'
      by true granted k = let kept : db ≡ db' = cc in subst (IsGranted id) kept (granted, a, e)
      by false granted k =
          subst (λ i. IsGranted i db') same
            (IsGranted-grant_to env a c credited db db' (λ cash. ne (sym same ∙ cash))
              (ap (λ i. get_account i db) same ∙ e)
              (ap (λ i. journal_by_key (concat "welcome:" i) db.journal_entries) same ∙ fresh)
              (ap (λ i. env.raced (concat "welcome:" i)) same ∙ quiet) k)

  -- For an account other than the bank's cash, where no journal has the key of its welcome grant
  -- and none is committed meanwhile: once `_ensure_welcome` has returned, the account has a
  -- grant, and every later call on those tables returns true and writes nothing.
  pub ensure_welcome_once :
      (env : Env) (id : String) (c : Client) (credited : Bool) (db db' : Db)
      → id ≢ sys_cash_id
      → journal_by_key (concat "welcome:" id) db.journal_entries ≡ none
      → env.raced (concat "welcome:" id) ≡ none
      → ensure_welcome o env id c db ≡ (ok credited, db')
      → (has_grant o id db'.transactions ≡ true)
        × ((env' : Env) (c' : Client) → ensure_welcome o env' id c' db' ≡ (ok true, db'))
  ensure_welcome_once env id c credited db db' ne fresh quiet h =
      let granted =
        IsGranted-ensure_welcome env id c credited db db' ne fresh quiet (get_account id db) refl
          h in
      (granted.0, λ env' c'. again env' id c' db' granted)
