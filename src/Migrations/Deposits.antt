-- ===== src/Migrations/Deposits.antt =====
-- Balances that became transactions come back (alembic/versions/0002_migrate_balance_to_ledger.py).
use e_bank_api.Prelude.{
  Bool, ◌≡◌, ◌≢◌, refl, ap, sym, ◌∙◌, String, ◌==◌, true, false, inl, inr, List, [], ◌∷◌, map, All,
  if◌then◌else◌, eq_refl, ne→eq_false, Bool-cases,
}
use e_bank_api.Prelude.Int.{ℤ, pos, ◌+ℤ◌, +ℤ_zero, zero_+ℤ, eqb_ℤ, eqb_ℤ→eq}
use e_bank_api.Migrations.{
  downgraded, OldAccount, OldTransaction, deposits, upgrade_0002, sum_of, downgrade_0002,
}

-- The ids of accounts are a key.
abbrev pub IsKeyed : List OldAccount → Type 0
IsKeyed [] = Unit
IsKeyed (a ∷ rows) = All (λ b. b.id ≢ a.id) rows × IsKeyed rows

-- A deposit counts for its account.
sum_of-deposits-cons :
    (id : String) (a : OldAccount) (rows : List OldAccount)
    → sum_of id (deposits (a ∷ rows))
      ≡ (if a.id == id then a.balance else pos 0) +ℤ sum_of id (deposits rows)
unfolding deposits sum_of
sum_of-deposits-cons id a rows = elim (Bool-cases (eqb_ℤ a.balance (pos 0))) [
  | inl nothing ↦
      rw nothing (
        rw (eqb_ℤ→eq a.balance (pos 0) nothing) (sym (by (a.id == id) (sum_of id (deposits rows)))))
  | inr something ↦ rw something refl
]
  where
    by : (b : Bool) (x : ℤ) → (if b then pos 0 else pos 0) +ℤ x ≡ x
    by true x = zero_+ℤ x
    by false x = zero_+ℤ x

sum_of-absent :
    (id : String) (rows : List OldAccount)
    → All (λ b. b.id ≢ id) rows
    → sum_of id (deposits rows) ≡ pos 0
unfolding deposits sum_of
sum_of-absent id [] h = refl
sum_of-absent id (a ∷ rows) (h, hs) =
    sum_of-deposits-cons id a rows
    ∙ rw (ne→eq_false a.id id h) (zero_+ℤ (sum_of id (deposits rows)) ∙ sum_of-absent id rows hs)

sum_of-other :
    (id : String) (a : OldAccount) (rows : List OldAccount)
    → a.id ≢ id
    → sum_of id (deposits (a ∷ rows)) ≡ sum_of id (deposits rows)
sum_of-other id a rows h =
    sum_of-deposits-cons id a rows
    ∙ rw (ne→eq_false a.id id h) (zero_+ℤ (sum_of id (deposits rows)))

sum_of-own :
    (a : OldAccount) (rows : List OldAccount)
    → All (λ b. b.id ≢ a.id) rows
    → sum_of a.id (deposits (a ∷ rows)) ≡ a.balance
sum_of-own a rows h =
    sum_of-deposits-cons a.id a rows
    ∙ rw (eq_refl a.id, sum_of-absent a.id rows h) (+ℤ_zero a.balance)

abbrev ids : List OldAccount → List String
ids rows = map (λ (a : OldAccount). a.id) rows

-- The accounts behind one that has its deposit in front.
restored_behind :
    (a : OldAccount) (seen rows : List OldAccount)
    → All (λ b. b.id ≢ a.id) seen
    → map (downgraded (deposits (a ∷ rows))) (ids seen)
      ≡ map (downgraded (deposits rows)) (ids seen)
unfolding downgraded
restored_behind a [] rows h = refl
restored_behind a (b ∷ seen) rows (h, hs) =
    cc (restored_behind a seen rows hs, sum_of-other b.id a rows (λ e. h (sym e)))

restored_all :
    (rows : List OldAccount) → IsKeyed rows → map (downgraded (deposits rows)) (ids rows) ≡ rows
unfolding downgraded
restored_all [] h = refl
restored_all (a ∷ rows) (h, hs) =
    cc (restored_behind a rows rows h, restored_all rows hs, sum_of-own a rows h)

-- Where the ids of accounts are a key and no transaction is there: to migrate the balances to
-- transactions and back gives the accounts and their balances again.
pub downgrade-upgrade :
    (rows : List OldAccount) → IsKeyed rows → downgrade_0002 (upgrade_0002 (rows, [])) ≡ (rows, [])
unfolding downgrade_0002 upgrade_0002
downgrade-upgrade rows h =
    ap (λ (r : List OldAccount). (r, let none_left : List OldTransaction = [] in none_left))
      (restored_all rows h)
