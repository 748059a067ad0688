-- ===== src/Queries/Pager.antt =====
-- A client that reads a statement page after page, with the cursor that a route gives back
-- (app/api/demo.py).
use mathlib.Core.List.{append_assoc}
use e_bank_api.Prelude.{
  ℕ, zero, suc, ◌<◌, String, ◌≡◌, refl, ap, sym, ◌∙◌, false, Option, none, some, List, [], ◌∷◌,
  ◌++◌, map, length, arith,
}
use e_bank_api.Models.{Transaction, Db, Outcome, ok, ◌then◌}
use e_bank_api.Queries.{
  TransactionRecord, to_tx_record, Query, take, list_transactions, next_cursor,
}
use e_bank_api.Queries.Cursor.{
  IsStored, newest, StandsBefore, at_start, behind_row, list_transactions-take,
}

onward :
    (String → Outcome (List TransactionRecord))
    → List TransactionRecord
    → Option String
    → Outcome (List TransactionRecord)
onward read rows none = ok rows
onward read rows (some c) = read c then λ rest. ok (rows ++ rest)

-- Reads on until a page has no last row.
unfoldable pub read_all :
    ℕ → ℕ → String → Query → Option String → Db → Outcome (List TransactionRecord)
unfolding list_transactions next_cursor onward
read_all zero n id q cursor db = ok []
read_all (suc fuel) n id q cursor db = list_transactions id n cursor q db then λ rows.
    onward (λ c. read_all fuel n id q (some c) db) rows (next_cursor rows)

-- The last row of a page that is not empty, and the rows behind it.
record Cut (n : ℕ) (rows : List Transaction) : Type 0 where
  before : List Transaction
  last : Transaction
  behind : List Transaction
  page : take n rows ≡ before ++ last ∷ []
  whole : rows ≡ before ++ last ∷ behind
  shorter : length behind < length rows

cut : (n : ℕ) (t : Transaction) (rows : List Transaction) → Cut (suc n) (t ∷ rows)
unfolding take
cut zero t rows = record {
  before = [];
  last = t;
  behind = rows;
  page = refl;
  whole = refl;
  shorter = omega arith;
}
cut (suc n) t [] = record {
  before = [];
  last = t;
  behind = [];
  page = refl;
  whole = refl;
  shorter = omega arith;
}
cut (suc n) t (s ∷ rows) =
    let c : Cut (suc n) (s ∷ rows) = cut n s rows in
    record {
      before = t ∷ c.before;
      last = c.last;
      behind = c.behind;
      page = ap (λ xs. t ∷ xs) c.page;
      whole = ap (λ xs. t ∷ xs) c.whole;
      shorter = let h = c.shorter in omega arith;
    }

next_cursor_last :
    (xs : List Transaction) (t : Transaction)
    → next_cursor (map to_tx_record (xs ++ t ∷ [])) ≡ some t.public_id
unfolding next_cursor to_tx_record
next_cursor_last [] t = refl
next_cursor_last (s ∷ []) t = refl
next_cursor_last (s ∷ r ∷ xs) t = next_cursor_last (r ∷ xs) t

map-append_lem :
    (xs ys : List Transaction)
    → map to_tx_record (xs ++ ys) ≡ map to_tx_record xs ++ map to_tx_record ys
map-append_lem [] ys = refl
map-append_lem (t ∷ xs) ys = ap (λ rows. to_tx_record t ∷ rows) (map-append_lem xs ys)

joined :
    {n : ℕ} {rows : List Transaction} (c : Cut n rows)
    → map to_tx_record (c.before ++ c.last ∷ []) ++ map to_tx_record c.behind
      ≡ map to_tx_record rows
joined c =
    sym (map-append_lem (c.before ++ c.last ∷ []) c.behind)
    ∙ ap (map to_tx_record) (append_assoc c.before (c.last ∷ []) c.behind ∙ sym c.whole)

take_nothing : (n : ℕ) → ok (map to_tx_record (take (suc n) [])) ≡ ok []
unfolding take
take_nothing n = refl

behind_cut :
    (id : String) (q : Query) (db : Db) (cursor : Option String) (ys xs : List Transaction)
    (t : Transaction) (zs : List Transaction)
    → StandsBefore id q db cursor ys
    → ys ≡ xs ++ t ∷ zs
    → StandsBefore id q db (some t.public_id) zs
behind_cut id q db _ _ xs t zs at_start e = behind_row xs t zs e
behind_cut id q db _ _ xs t zs (behind_row ws s ys split) e =
    behind_row (ws ++ s ∷ xs) t zs
      (split ∙ ap (λ rows. ws ++ s ∷ rows) e ∙ sym (append_assoc ws (s ∷ xs) (t ∷ zs)))

module _ (fuel n : ℕ) (id : String) (q : Query) (cursor : Option String) (db : Db) where
  read_all_step :
      (c : String) (rows rest : List TransactionRecord)
      → list_transactions id n cursor q db ≡ ok rows
      → next_cursor rows ≡ some c
      → read_all fuel n id q (some c) db ≡ ok rest
      → read_all (suc fuel) n id q cursor db ≡ ok (rows ++ rest)
  unfolding read_all onward
  read_all_step c rows rest here next later = rw (here, onward, next, later) refl

  read_all_end :
      list_transactions id n cursor q db ≡ ok [] → read_all (suc fuel) n id q cursor db ≡ ok []
  unfolding read_all next_cursor onward
  read_all_end here = rw here refl

module _ (id : String) (q : Query) (db : Db) (h : IsStored db.transactions)
    (e : q.chronological ≡ false) where
  read_all_behind :
      (fuel n : ℕ) (cursor : Option String) (ys : List Transaction)
      → StandsBefore id q db cursor ys
      → length ys < fuel
      → read_all fuel (suc n) id q cursor db ≡ ok (map to_tx_record ys)
  unfolding read_all
  read_all_behind zero n cursor ys s lt = absurd (omega arith)
  read_all_behind (suc fuel) n cursor [] s lt =
      read_all_end fuel (suc n) id q cursor db
        (list_transactions-take id q db h (suc n) cursor [] e s ∙ take_nothing n)
  read_all_behind (suc fuel) n cursor (y ∷ ys) s lt =
      let c : Cut (suc n) (y ∷ ys) = cut n y ys in
      let rest : read_all fuel (suc n) id q (some c.last.public_id) db
          ≡ ok (map to_tx_record c.behind) =
        read_all_behind fuel n (some c.last.public_id) c.behind
          (behind_cut id q db cursor (y ∷ ys) c.before c.last c.behind s c.whole)
          (let k = c.shorter in omega arith) in
      let page : list_transactions id (suc n) cursor q db
          ≡ ok (map to_tx_record (c.before ++ c.last ∷ [])) =
        list_transactions-take id q db h (suc n) cursor (y ∷ ys) e s
        ∙ ap (λ rows. ok (map to_tx_record rows)) c.page in
      read_all_step fuel (suc n) id q cursor db c.last.public_id
        (map to_tx_record (c.before ++ c.last ∷ [])) (map to_tx_record c.behind) page
        (next_cursor_last c.before c.last) rest
      ∙ ap ok (joined c)

-- On a table whose ids grow and whose public ids are unique and not empty, a client that asks for
-- the newest rows first, with the `next_cursor` of each page as the cursor of the next, ends, and
-- has every row of the query once in order: whatever size of page above zero, when it may ask
-- once more than there are rows.
pub read_all-newest :
    (id : String) (q : Query) (db : Db) (fuel n : ℕ)
    → IsStored db.transactions
    → q.chronological ≡ false
    → length (newest id q db) < fuel
    → read_all fuel (suc n) id q none db ≡ ok (map to_tx_record (newest id q db))
read_all-newest id q db fuel n h e lt =
    read_all_behind id q db h e fuel n none (newest id q db) at_start lt
