-- ===== src/Transfers/Guards.antt =====
-- Which accounts a transfer may touch (app/services/transfer.py).
use mathlib.Core.Path.{subst}
use e_bank_api.Prelude.{
  String, ◌==◌, ◌≡◌, ◌≢◌, refl, ap, sym, ◌∙◌, Bool, true, false, ◌&&◌, Option, some, List, [], ◌∷◌,
  All, is_some, truthy, if◌then◌else◌, arith, eq_iff, Option-cases, inl, inr,
}
use e_bank_api.Prelude.Table.{key-find}
use e_bank_api.Errors.{Error, account_not_found}
use e_bank_api.Models.{Account, Db, ok, ◌>>=◌, >>=-eq-ok}
use e_bank_api.Ledger.{get_account, account_key}
use e_bank_api.OnboardingAccounts.{
  is_text, is_ready, require_ready, ordered, insert_ordered, select_ordered, list_owned_checking,
  owned_checking, get_owned_checking,
}
use e_bank_api.Recipients.{resolve}
use e_bank_api.Transfers.{
  locked_pair, Settings, TransferArgs, require_active, require_onboarded_account,
  require_owned_account, origin_of, account_row, active_row, ready_if_owned, resolved_row,
  destination_of, parties,
}

-- The id is the primary key: the row of an account's id is that account.
abbrev pub IsKeyed : Db → Type 0
IsKeyed db = All (λ a. get_account a.id db ≡ some a) db.accounts

-- An active checking account of the subject that has been onboarded.
pub record IsOwn (subject : String) (a : Account) : Type 0 where
  pub owned : is_text a.owner_subject subject ≡ true
  pub checking : (a.kind == "checking") ≡ true
  pub active : (a.status == "active") ≡ true
  pub ready : is_ready a ≡ true

module _ (Q : Account → Type 0) where
  All-if :
      (b : Bool) (xs ys : List Account)
      → (b ≡ true → All Q xs)
      → (b ≡ false → All Q ys)
      → All Q (if b then xs else ys)
  All-if true xs ys qx qy = qx refl
  All-if false xs ys qx qy = qy refl

  All-insert_ordered :
      (a : Account) (rows : List Account) → Q a → All Q rows → All Q (insert_ordered a rows)
  unfolding insert_ordered
  All-insert_ordered a [] qa qs = (qa, tt)
  All-insert_ordered a (b ∷ rows) qa (qb, qs) =
      All-if (ordered a b) (a ∷ b ∷ rows) (b ∷ insert_ordered a rows) (λ _. (qa, (qb, qs)))
        (λ _. (qb, All-insert_ordered a rows qa qs))

All-select_ordered :
    (Q : Account → Type 0) (keep : Account → Bool) (rows : List Account)
    → All Q rows
    → All (λ a. (keep a ≡ true) × Q a) (select_ordered keep rows)
unfolding select_ordered
All-select_ordered Q keep [] qs = tt
All-select_ordered Q keep (a ∷ rows) (q, qs) =
    All-if (λ b. (keep b ≡ true) × Q b) (keep a) _ _
      (λ kept.
        All-insert_ordered (λ b. (keep b ≡ true) × Q b) a (select_ordered keep rows) (kept, q)
          (All-select_ordered Q keep rows qs))
      (λ _. All-select_ordered Q keep rows qs)

require_owned-ok :
    (subject id : String) (a : Account) (db db' : Db)
    → require_owned_account subject id db ≡ (ok a, db')
    → (db' ≡ db) × IsOwn subject a × (get_account a.id db ≡ some a)
unfolding require_owned_account get_owned_checking owned_checking require_active require_ready ◌>>=◌
require_owned-ok subject id a db db' h =
    let found : get_account id db ≡ some a = ground arith in
    (
      ground arith,
      record {
        owned = ground arith;
        checking = ground arith;
        active = ground arith;
        ready = ground arith;
      },
      ap (λ k. get_account k db) (key-find account_key id db.accounts a found) ∙ found,
    )

require_onboarded-first :
    (subject : String) (rows : List Account) (a : Account) (db db' : Db)
    → list_owned_checking subject db ≡ rows
    → All
        (λ b.
          ((is_text b.owner_subject subject && (b.kind == "checking")) ≡ true)
          × (get_account b.id db ≡ some b))
        rows
    → require_onboarded_account subject db ≡ (ok a, db')
    → (db' ≡ db) × IsOwn subject a × (get_account a.id db ≡ some a)
unfolding require_onboarded_account require_active require_ready ◌>>=◌
require_onboarded-first subject [] a db db' e all h = absurd (ground arith)
require_onboarded-first subject (b ∷ rows) a db db' e ((kept, found), _) h =
    let same : a ≡ b = ground arith in
    (
      ground arith,
      record {
        owned = ground arith;
        checking = ground arith;
        active = ground arith;
        ready = ground arith;
      },
      rw same found,
    )

require_onboarded-ok :
    (subject : String) (a : Account) (db db' : Db)
    → IsKeyed db
    → require_onboarded_account subject db ≡ (ok a, db')
    → (db' ≡ db) × IsOwn subject a × (get_account a.id db ≡ some a)
unfolding list_owned_checking
require_onboarded-ok subject a db db' keyed h =
    require_onboarded-first subject (list_owned_checking subject db) a db db' refl
      (All-select_ordered (λ b. get_account b.id db ≡ some b)
        (λ b. is_text b.owner_subject subject && (b.kind == "checking")) db.accounts keyed)
      h

-- The origin of a transfer is the subject's own.
origin_of-ok :
    (subject : String) (source : Option String) (a : Account) (db db' : Db)
    → IsKeyed db
    → origin_of subject source db ≡ (ok a, db')
    → (db' ≡ db) × IsOwn subject a × (get_account a.id db ≡ some a)
unfolding origin_of
origin_of-ok subject source a db db' keyed h = elim (Option-cases (truthy source)) [
  | inl e ↦
      let run : require_onboarded_account subject db ≡ (ok a, db') = ground arith in
      require_onboarded-ok subject a db db' keyed run
  | inr (id, e) ↦
      let run : require_owned_account subject id db ≡ (ok a, db') = ground arith in
      require_owned-ok subject id a db db' run
]

account_row-ok :
    (e : Error) (id : String) (a : Account) (db db' : Db)
    → account_row e id db ≡ (ok a, db')
    → (db' ≡ db) × (a.id ≡ id) × (get_account a.id db ≡ some a)
unfolding account_row
account_row-ok e id a db db' h =
    let found : get_account id db ≡ some a = ground arith in
    let same = key-find account_key id db.accounts a found in
    (ground arith, same, ap (λ k. get_account k db) same ∙ found)

active_row-ok :
    (id : String) (a : Account) (db db' : Db)
    → active_row id db ≡ (ok a, db')
    → account_row (account_not_found id) id db ≡ (ok a, db')
unfolding active_row account_row ◌>>=◌
active_row-ok id a db db' h = ground arith

resolved_row-ok :
    (s : Settings) (account document : Option String) (a : Account) (db db' : Db)
    → resolved_row s account document db ≡ (ok a, db')
    → (db' ≡ db) × (get_account a.id db ≡ some a)
unfolding resolved_row resolve
resolved_row-ok s account document a db db' h =
    let (recipient, db1, resolved, row) = >>=-eq-ok _ _ db h in
    let same : db1 ≡ db = ground arith in
    let (kept, _, found) = account_row-ok _ recipient.account_id a db1 db' row in
    (kept ∙ same, rw (sym same) found)

destination_of-ok :
    (s : Settings) (m : TransferArgs) (a : Account) (db db' : Db)
    → destination_of s m db ≡ (ok a, db')
    → (db' ≡ db) × (get_account a.id db ≡ some a)
unfolding destination_of
destination_of-ok s m a db db' h = elim (Option-cases (truthy m.destination_account_id)) [
  | inl e ↦
      let run : resolved_row s m.destination_account m.destination_document db ≡ (ok a, db') =
        ground arith in
      resolved_row-ok s m.destination_account m.destination_document a db db' run
  | inr (id, e) ↦
      let run : active_row id db ≡ (ok a, db') = ground arith in
      let (kept, _, found) = account_row-ok _ id a db db' (active_row-ok id a db db' run) in
      (kept, found)
]

locked_pair-ok :
    (o1 d1 o d : Account) (db db' : Db)
    → get_account o1.id db ≡ some o1
    → get_account d1.id db ≡ some d1
    → locked_pair o1 d1 db ≡ (ok (o, d), db')
    → (db' ≡ db)
      × (o ≡ o1)
      × (d ≡ d1)
      × (d1.id ≢ o1.id)
      × (is_some d1.owner_subject ≡ true → is_ready d1 ≡ true)
unfolding locked_pair account_row ready_if_owned require_ready ◌>>=◌
locked_pair-ok o1 d1 o d db db' origin dest h = (
  ground arith,
  ground arith,
  ground arith,
  λ same. ground (arith, (eq_iff d1.id o1.id).1 same),
  λ owned. ground arith,
)

-- The two accounts that a transfer works on are rows of the table, differ, and the origin is the
-- subject's own; a destination with an owner has been onboarded. Finding them writes nothing.
pub parties-ok :
    (s : Settings) (subject : String) (m : TransferArgs) (o d : Account) (db db' : Db)
    → IsKeyed db
    → parties s subject m db ≡ (ok (o, d), db')
    → (db' ≡ db)
      × IsOwn subject o
      × (get_account o.id db ≡ some o)
      × (get_account d.id db ≡ some d)
      × (d.id ≢ o.id)
      × (is_some d.owner_subject ≡ true → is_ready d ≡ true)
unfolding parties
parties-ok s subject m o d db db' keyed h =
    let (o1, db1, first, k1) = >>=-eq-ok _ _ db h in
    let (d1, db2, second, k2) = >>=-eq-ok _ _ db1 k1 in
    let (kept1, own, row1) = origin_of-ok subject m.source_account_id o1 db db1 keyed first in
    let (kept2, row2) = destination_of-ok s m d1 db1 db2 second in
    let kept : db2 ≡ db = kept2 ∙ kept1 in
    let found2 : get_account d1.id db ≡ some d1 = ap (get_account d1.id) (sym kept1) ∙ row2 in
    let (end, same_o, same_d, differ, ready) =
      locked_pair-ok o1 d1 o d db2 db' (rw kept row1) (rw kept found2) k2 in
    (
      end ∙ kept,
      subst (IsOwn subject) (sym same_o) own,
      rw same_o row1,
      rw same_d found2,
      rw (same_o, same_d) differ,
      rw same_d ready,
    )
