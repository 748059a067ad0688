-- ===== src/Queries/Newest.antt =====
-- Rows the newest first, as `order_by(Transaction.id.desc())` of app/repositories/account_repository.py
-- gives them.
use mathlib.Core.List.{append-nil}
use e_bank_api.Prelude.{
  ◌≡◌, refl, ap, ◌∙◌, ◌<◌, ◌++◌, ◌∷◌, [], Bool, true, false, if◌then◌else◌, List, All, arith,
}
use e_bank_api.Models.{Transaction}
use e_bank_api.Queries.{keep_rows, reverse}
use e_bank_api.Queries.Pages.{IsBelow, IsSerial}

abbrev pub IsNewestFirst : List Transaction → Type 0
IsNewestFirst [] = Unit
IsNewestFirst (t ∷ rows) = All (λ s. s.id < t.id) rows × IsNewestFirst rows

pub All-append :
    (P : Transaction → Type 0) (xs ys : List Transaction) → All P xs → All P ys → All P (xs ++ ys)
All-append P [] ys h k = k
All-append P (t ∷ xs) ys (p, h) k = (p, All-append P xs ys h k)

pub All-reverse :
    (P : Transaction → Type 0) (rows : List Transaction) → All P rows → All P (reverse rows)
unfolding reverse
All-reverse P [] h = tt
All-reverse P (t ∷ rows) (p, h) =
    All-append P (reverse rows) (t ∷ []) (All-reverse P rows h) (p, tt)

append-IsNewestFirst :
    (t : Transaction) (xs : List Transaction)
    → IsBelow t xs
    → IsNewestFirst xs
    → IsNewestFirst (xs ++ t ∷ [])
append-IsNewestFirst t [] h k = (tt, tt)
append-IsNewestFirst t (s ∷ xs) (p, h) (q, k) =
    (All-append (λ u. u.id < s.id) xs (t ∷ []) q (p, tt), append-IsNewestFirst t xs h k)

pub reverse-IsNewestFirst : (rows : List Transaction) → IsSerial rows → IsNewestFirst (reverse rows)
unfolding reverse
reverse-IsNewestFirst [] h = tt
reverse-IsNewestFirst (t ∷ rows) (p, h) =
    append-IsNewestFirst t (reverse rows) (All-reverse (λ s. t.id < s.id) rows p)
      (reverse-IsNewestFirst rows h)

-- What stands at a place of a list where all rows have a property.
pub All-at :
    (P : Transaction → Type 0) (xs : List Transaction) (t : Transaction) (ys : List Transaction)
    → All P (xs ++ t ∷ ys)
    → P t
All-at P [] t ys (p, h) = p
All-at P (s ∷ xs) t ys (p, h) = All-at P xs t ys h

-- The rows before one of them are newer, the rows behind it older.
pub sides_IsNewestFirst :
    (xs : List Transaction) (t : Transaction) (ys : List Transaction)
    → IsNewestFirst (xs ++ t ∷ ys)
    → IsBelow t xs × All (λ s. s.id < t.id) ys
sides_IsNewestFirst [] t ys (p, h) = (tt, p)
sides_IsNewestFirst (s ∷ xs) t ys (p, h) =
    let rest = sides_IsNewestFirst xs t ys h in
    ((All-at (λ u. u.id < s.id) xs t ys p, rest.0), rest.1)

pub keep_rows-append :
    (keep : Transaction → Bool) (xs ys : List Transaction)
    → keep_rows keep (xs ++ ys) ≡ keep_rows keep xs ++ keep_rows keep ys
unfolding keep_rows
keep_rows-append keep [] ys = refl
keep_rows-append keep (t ∷ xs) ys = ground (arith, keep_rows-append keep xs ys)

keep_rows_last :
    (keep : Transaction → Bool) (t : Transaction) (rows : List Transaction)
    → reverse rows ++ keep_rows keep (t ∷ []) ≡ reverse (if keep t then t ∷ rows else rows)
unfolding keep_rows reverse
keep_rows_last keep t rows = by (keep t)
  where
    by :
        (b : Bool)
        → reverse rows ++ (if b then t ∷ [] else []) ≡ reverse (if b then t ∷ rows else rows)
    by true = refl
    by false = append-nil (reverse rows)

pub keep_rows-reverse :
    (keep : Transaction → Bool) (rows : List Transaction)
    → keep_rows keep (reverse rows) ≡ reverse (keep_rows keep rows)
unfolding keep_rows reverse
keep_rows-reverse keep [] = refl
keep_rows-reverse keep (t ∷ rows) =
    keep_rows-append keep (reverse rows) (t ∷ [])
    ∙ ap (λ xs. xs ++ keep_rows keep (t ∷ [])) (keep_rows-reverse keep rows)
    ∙ keep_rows_last keep t (keep_rows keep rows)
