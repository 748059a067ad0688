-- ===== src/Queries/Pages.antt =====
-- Selections of the rows of a table whose ids grow (app/repositories/account_repository.py).
use e_bank_api.Prelude.{
  ◌<◌, ◌≡◌, refl, ap, ◌∙◌, Bool, true, false, ◌&&◌, List, [], ◌∷◌, All, if◌then◌else◌, arith,
}
use e_bank_api.Models.{Transaction, ◌then◌}
use e_bank_api.Queries.{keep_rows, insert_by_id, by_id}

abbrev pub IsBelow : Transaction → List Transaction → Type 0
IsBelow t rows = All (λ s. t.id < s.id) rows

-- Ids grow along the table, as the autoincrement gives them.
abbrev pub IsSerial : List Transaction → Type 0
IsSerial [] = Unit
IsSerial (t ∷ rows) = IsBelow t rows × IsSerial rows

pub All-keep_rows :
    (P : Transaction → Type 0) (keep : Transaction → Bool) (rows : List Transaction)
    → All P rows
    → All P (keep_rows keep rows)
unfolding keep_rows
All-keep_rows P keep [] h = tt
All-keep_rows P keep (t ∷ rows) (p, h) = by (keep t) (All-keep_rows P keep rows h)
  where
    by :
        (b : Bool)
        → All P (keep_rows keep rows)
        → All P (if b then t ∷ keep_rows keep rows else keep_rows keep rows)
    by true k = (p, k)
    by false k = k

pub keep_rows-IsSerial :
    (keep : Transaction → Bool) (rows : List Transaction)
    → IsSerial rows
    → IsSerial (keep_rows keep rows)
unfolding keep_rows
keep_rows-IsSerial keep [] h = tt
keep_rows-IsSerial keep (t ∷ rows) (below, h) =
    by (keep t) (All-keep_rows (λ s. t.id < s.id) keep rows below) (keep_rows-IsSerial keep rows h)
  where
    by :
        (b : Bool)
        → IsBelow t (keep_rows keep rows)
        → IsSerial (keep_rows keep rows)
        → IsSerial (if b then t ∷ keep_rows keep rows else keep_rows keep rows)
    by true k i = (k, i)
    by false k i = i

insert_by_id_first :
    (t : Transaction) (rows : List Transaction) → IsBelow t rows → insert_by_id t rows ≡ t ∷ rows
unfolding insert_by_id
insert_by_id_first t [] h = refl
insert_by_id_first t (s ∷ rows) (h, _) = ground arith

-- Sorting a serial table changes nothing.
pub by_id-IsSerial : (rows : List Transaction) → IsSerial rows → by_id rows ≡ rows
unfolding by_id
by_id-IsSerial [] h = refl
by_id-IsSerial (t ∷ rows) (below, h) =
    ap (insert_by_id t) (by_id-IsSerial rows h) ∙ insert_by_id_first t rows below

-- One selection after another.
pub keep_rows-keep_rows :
    (p q r : Transaction → Bool) (rows : List Transaction)
    → ((t : Transaction) → r t ≡ (p t && q t))
    → keep_rows r rows ≡ keep_rows p (keep_rows q rows)
unfolding keep_rows
keep_rows-keep_rows p q r [] h = refl
keep_rows-keep_rows p q r (t ∷ rows) h = ground (arith, h t, keep_rows-keep_rows p q r rows h)

pub keep_every :
    (keep : Transaction → Bool) (rows : List Transaction)
    → All (λ s. keep s ≡ true) rows
    → keep_rows keep rows ≡ rows
unfolding keep_rows
keep_every keep [] h = refl
keep_every keep (t ∷ rows) (e, h) = ground (arith, keep_every keep rows h)

pub keep_none :
    (keep : Transaction → Bool) (rows : List Transaction)
    → All (λ s. keep s ≡ false) rows
    → keep_rows keep rows ≡ []
unfolding keep_rows
keep_none keep [] h = refl
keep_none keep (t ∷ rows) (e, h) = ground (arith, keep_none keep rows h)
