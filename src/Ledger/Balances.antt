-- ===== src/Ledger/Balances.antt =====
-- The three records of money that `LedgerService` (app/services/ledger.py) keeps: the postings, the
-- cached balances, and the mirrored transactions.
use mathlib.Core.Option
use e_bank_api.Prelude.{
  String, ◌==◌, eq_iff, ◌≡◌, ◌≢◌, refl, ap, sym, ◌∙◌, Bool, true, false, Option, none, some, List,
  [], ◌∷◌, ◌++◌, map, All, arith, if◌then◌else◌, ne→eq_false, Bool-cases, inl, inr,
}
use e_bank_api.Prelude.Int.{ℤ, pos, ◌+ℤ◌, ◌-ℤ◌, int_laws}
use e_bank_api.Errors.{Error}
use e_bank_api.Models.{
  Account, JournalEntry, Side, debit, credit, other_side, LedgerPosting, Db, Env, Outcome, ok, err,
}
use e_bank_api.Ledger.{
  PostingLine, PostArgs, sys_cash_id, on_side, posted, customer_balance, side_total, delta,
  posting_row, get_account, post,
}
use e_bank_api.Ledger.Checks.{IsSide, IsValidLine}
use e_bank_api.Ledger.Mirror.{adjust, moved, net}
use e_bank_api.Ledger.Post.{post-ok, post-err, post_tables}

pub posted-append :
    (side : Side) (id : String) (xs ys : List LedgerPosting)
    → posted side id (xs ++ ys) ≡ posted side id xs +ℤ posted side id ys
unfolding posted
posted-append side id [] ys = omega int_laws
posted-append side id (p ∷ xs) ys = rw (posted-append side id xs ys) (omega int_laws)

delta_sides :
    (s : Side) (l : PostingLine)
    → IsSide s
    → l.side ≡ s
    → delta l ≡ on_side credit s l.amount -ℤ on_side debit s l.amount
unfolding delta
delta_sides debit l v e = rw e (omega int_laws)
delta_sides credit l v e = rw e (omega int_laws)
delta_sides (other_side _) l v e = absurd v

no_move : (b : Bool) → (if b then pos 0 else pos 0) ≡ pos 0 -ℤ pos 0
no_move true = omega int_laws
no_move false = omega int_laws

moved-posted :
    (id : String) (l : PostingLine)
    → id ≢ sys_cash_id
    → IsValidLine l
    → moved id l
      ≡ (if l.ledger_account_id == id then on_side credit l.side l.amount else pos 0)
        -ℤ (if l.ledger_account_id == id then on_side debit l.side l.amount else pos 0)
unfolding moved
moved-posted id l ne v = elim (Bool-cases (l.ledger_account_id == id)) [
  | inl same ↦
      let e : l.ledger_account_id ≡ id = (eq_iff l.ledger_account_id id).0 same in
      let customer : l.ledger_account_id ≢ sys_cash_id = λ c. ne (sym e ∙ c) in
      rw (ne→eq_false l.ledger_account_id sys_cash_id customer, same)
        (delta_sides l.side l v.0 refl)
  | inr other ↦ rw other (no_move (l.ledger_account_id == sys_cash_id))
]

net-posted :
    (id j : String) (lines : List PostingLine)
    → id ≢ sys_cash_id
    → All IsValidLine lines
    → net id lines
      ≡ posted credit id (map (posting_row j) lines) -ℤ posted debit id (map (posting_row j) lines)
unfolding net posted posting_row
net-posted id j [] ne v = omega int_laws
net-posted id j (l ∷ lines) ne v =
    rw (moved-posted id l ne v.0, net-posted id j lines ne v.1) (omega int_laws)

-- The cached balance of every customer account is credits less debits of its postings.
pub record InSync (db : Db) : Type 0 where
  pub cached :
      (id : String) (a : Account)
      → id ≢ sys_cash_id
      → get_account id db ≡ some a
      → a.balance_cached ≡ customer_balance id db

map-eq-some :
    (x : ℤ) (o : Option Account) (a : Account)
    → Option.map (adjust x) o ≡ some a
    → (b : Account) × (o ≡ some b) × (a.balance_cached ≡ b.balance_cached +ℤ x)
map-eq-some x none a h = cc
map-eq-some x (some b) a h = (b, refl, ground arith)

customer_balance-post :
    (env : Env) (m : PostArgs) (j : JournalEntry) (id : String) (db db' : Db)
    → id ≢ sys_cash_id
    → post env m db ≡ (ok j, db')
    → customer_balance id db' ≡ customer_balance id db +ℤ net id m.lines
unfolding customer_balance
customer_balance-post env m j id db db' ne h =
    let rows = map (posting_row j.id) m.lines in
    let (_, postings, _) = post_tables env m j db db' h in
    let entry = (post-ok env m j db db' h).0 in
    let credits : posted credit id db'.ledger_postings
        ≡ posted credit id db.ledger_postings +ℤ posted credit id rows =
      ap (posted credit id) postings ∙ posted-append credit id db.ledger_postings rows in
    let debits : posted debit id db'.ledger_postings
        ≡ posted debit id db.ledger_postings +ℤ posted debit id rows =
      ap (posted debit id) postings ∙ posted-append debit id db.ledger_postings rows in
    rw (credits, debits, net-posted id j.id m.lines ne entry.each) (omega int_laws)

post_ok-InSync :
    (env : Env) (m : PostArgs) (j : JournalEntry) (db db' : Db)
    → post env m db ≡ (ok j, db')
    → InSync db
    → InSync db'
post_ok-InSync env m j db db' h s = record {
  cached = λ id a ne found.
      let (accounts, _, _) = post_tables env m j db db' h in
      let (b, before, moved_by) =
        map-eq-some (net id m.lines) (get_account id db) a (sym (accounts id) ∙ found) in
      moved_by
      ∙ ap (λ x. x +ℤ net id m.lines) (s.cached id b ne before)
      ∙ sym (customer_balance-post env m j id db db' ne h);
}

post_err-InSync :
    (env : Env) (m : PostArgs) (e : Error) (db db' : Db)
    → post env m db ≡ (err e, db')
    → InSync db
    → InSync db'
unfolding customer_balance
post_err-InSync env m e db db' h s = record {
  cached = λ id a ne found.
      let (accounts, postings, _) = post-err env m e db db' h in
      rw postings (s.cached id a ne (rw accounts at found));
}

-- Whatever `post` answers, it keeps every cached customer balance equal to the credits less the
-- debits of that account's postings.
pub post-InSync : (env : Env) (m : PostArgs) (db : Db) → InSync db → InSync (post env m db).1
post-InSync env m db s = go (post env m db) refl
  where
    go : (r : Outcome JournalEntry × Db) → post env m db ≡ r → InSync r.1
    go (ok j, db') h = post_ok-InSync env m j db db' h s
    go (err e, db') h = post_err-InSync env m e db db' h s

-- The sum of one side over all postings of the bank.
unfoldable pub side_sum : Side → List LedgerPosting → ℤ
side_sum side [] = pos 0
side_sum side (p ∷ rows) = on_side side p.side p.amount +ℤ side_sum side rows

pub side_sum-append :
    (side : Side) (xs ys : List LedgerPosting)
    → side_sum side (xs ++ ys) ≡ side_sum side xs +ℤ side_sum side ys
unfolding side_sum
side_sum-append side [] ys = omega int_laws
side_sum-append side (p ∷ xs) ys = rw (side_sum-append side xs ys) (omega int_laws)

side_sum-posting_row :
    (side : Side) (j : String) (lines : List PostingLine)
    → side_sum side (map (posting_row j) lines) ≡ side_total side lines
unfolding side_sum side_total posting_row
side_sum-posting_row side j [] = refl
side_sum-posting_row side j (l ∷ lines) = rw (side_sum-posting_row side j lines)

-- All debits of the bank equal all its credits.
abbrev pub IsTrialBalance : Db → Type 0
IsTrialBalance db = side_sum debit db.ledger_postings ≡ side_sum credit db.ledger_postings

post_ok-IsTrialBalance :
    (env : Env) (m : PostArgs) (j : JournalEntry) (db db' : Db)
    → post env m db ≡ (ok j, db')
    → IsTrialBalance db
    → IsTrialBalance db'
post_ok-IsTrialBalance env m j db db' h t =
    let (_, postings, _) = post_tables env m j db db' h in
    let entry = (post-ok env m j db db' h).0 in
    rw (
      postings,
      side_sum-append debit db.ledger_postings (map (posting_row j.id) m.lines),
      side_sum-append credit db.ledger_postings (map (posting_row j.id) m.lines),
      side_sum-posting_row debit j.id m.lines,
      side_sum-posting_row credit j.id m.lines,
      t,
      entry.balanced,
    )

-- Whatever `post` answers, the debits of all postings still equal the credits.
pub post-IsTrialBalance :
    (env : Env) (m : PostArgs) (db : Db) → IsTrialBalance db → IsTrialBalance (post env m db).1
post-IsTrialBalance env m db t = go (post env m db) refl
  where
    go : (r : Outcome JournalEntry × Db) → post env m db ≡ r → IsTrialBalance r.1
    go (ok j, db') h = post_ok-IsTrialBalance env m j db db' h t
    go (err e, db') h = rw ((post-err env m e db db' h).1) t
