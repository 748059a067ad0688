-- ===== src/Ledger/Checks.antt =====
-- The checks at the head of `LedgerService.post` (app/services/ledger.py), against the definition
-- of a balanced entry.
use e_bank_api.Prelude.{◌≤◌, ◌≡◌, ◌↔◌, refl, List, [], ◌∷◌, length, All, arith}
use e_bank_api.Prelude.Int.{ℤ, pos, ◌≤ℤ◌}
use e_bank_api.Models.{Outcome, Side, debit, credit, other_side, ok}
use e_bank_api.Ledger.{PostingLine, side_total, check_line, check_each, check_lines}

abbrev pub IsSide : Side → Type 0
IsSide (other_side _) = ⊥
IsSide _ = Unit

-- A side that the ledger knows, and an amount above zero.
abbrev pub IsValidLine : PostingLine → Type 0
IsValidLine l = IsSide l.side × (pos 1 ≤ℤ l.amount)

pub record IsEntry (lines : List PostingLine) : Type 0 where
  pub two : 2 ≤ length lines
  pub balanced : side_total debit lines ≡ side_total credit lines
  pub positive : pos 1 ≤ℤ side_total debit lines
  pub each : All IsValidLine lines

check_line-ok :
    (s : Side) (x : ℤ) (rest : Outcome (Unit {0}))
    → check_line s x rest ≡ ok tt
    → (IsSide s × (pos 1 ≤ℤ x)) × (rest ≡ ok tt)
unfolding check_line
check_line-ok debit x rest h = ground arith
check_line-ok credit x rest h = ground arith
check_line-ok (other_side _) x rest h = ground arith

ok-check_line :
    (s : Side) (x : ℤ) (rest : Outcome (Unit {0}))
    → IsSide s × (pos 1 ≤ℤ x)
    → rest ≡ ok tt
    → check_line s x rest ≡ ok tt
unfolding check_line
ok-check_line debit x rest v h = ground arith
ok-check_line credit x rest v h = ground arith
ok-check_line (other_side _) x rest v h = absurd v.0

pub check_each_iff : (lines : List PostingLine) → (check_each lines ≡ ok tt) ↔ All IsValidLine lines
unfolding check_each
check_each_iff [] = (λ h. tt, λ h. refl)
check_each_iff (l ∷ lines) = (
  λ h.
      let (v, rest) = check_line-ok l.side l.amount (check_each lines) h in
      (v, (check_each_iff lines).0 rest),
  λ v. ok-check_line l.side l.amount (check_each lines) v.0 ((check_each_iff lines).1 v.1),
)

-- The checks pass for exactly the balanced entries: at least two lines, debits equal to credits
-- and above zero, every line on a known side with an amount above zero.
pub check_lines_iff : (lines : List PostingLine) → (check_lines lines ≡ ok tt) ↔ IsEntry lines
unfolding check_lines
check_lines_iff lines = (
  λ h. record {
    two = ground arith;
    balanced = ground arith;
    positive = ground arith;
    each = (check_each_iff lines).0 (ground arith);
  },
  λ e. ground (arith, (check_each_iff lines).1 e.each),
)
