-- ===== src/Migrations/Left.antt =====
-- Which accounts are left to rename (alembic/versions/0005_uuid_public_ids.py).
use e_bank_api.Prelude.{
  ℕ, ◌⊎◌, ◌+◌, ◌≡◌, refl, Bool, true, false, ◌||◌, inl, inr, String, ◌==◌, List, [], ◌∷◌, map, All,
  arith, eq_iff, Bool-cases, if◌then◌else◌,
}
use e_bank_api.Models.{Account, Db, Env}
use e_bank_api.Migrations.{renamed, renamed_account, rename, rename_all, chk_ids, is_chk}

abbrev pub among : String → List String → Bool
among id [] = false
among id (i ∷ ids) = id == i || among id ids

-- No account's id is like 'chk_%' but those of the ids to come.
abbrev pub Pending : List String → List Account → Type 0
Pending ids rows = All (λ a. is_chk a.id ≡ true → among a.id ids ≡ true) rows

Pending-more :
    (id : String) (ids : List String) (rows : List Account)
    → Pending ids rows
    → Pending (id ∷ ids) rows
Pending-more id ids [] h = tt
Pending-more id ids (a ∷ rows) (h, hs) = (λ e. ground (arith, h e), Pending-more id ids rows hs)

chosen :
    (a : Account) (ids : List String) (rows : List Account) (b : Bool)
    → is_chk a.id ≡ b
    → Pending ids rows
    → Pending (if b then a.id ∷ ids else ids) (a ∷ rows)
chosen a ids rows true like h =
    (λ e. ground (arith, eq_iff a.id a.id), Pending-more a.id ids rows h)
chosen a ids rows false other h = (λ e. absurd (ground (arith, e, other)), h)

pub chk_ids-Pending : (rows : List Account) → Pending (chk_ids rows) rows
unfolding chk_ids
chk_ids-Pending [] = tt
chk_ids-Pending (a ∷ rows) = chosen a (chk_ids rows) rows (is_chk a.id) refl (chk_ids-Pending rows)

Pending-renamed :
    (old new : String) (ids : List String) (rows : List Account)
    → is_chk new ≡ false
    → Pending (old ∷ ids) rows
    → Pending ids (map (renamed_account old new) rows)
Pending-renamed old new ids [] plain h = tt
Pending-renamed old new ids (a ∷ rows) plain (h, hs) =
    (first (Bool-cases (a.id == old)), Pending-renamed old new ids rows plain hs)
  where
    first :
        (a.id == old ≡ true) ⊎ (a.id == old ≡ false)
        → is_chk (renamed old new a.id) ≡ true
        → among (renamed old new a.id) ids ≡ true
    first (inl is_old) = rw is_old (λ e. absurd (ground (arith, e, plain)))
    first (inr not_old) =
        rw not_old (λ e. ground (arith, h e, not_old, eq_iff a.id old, eq_iff old a.id))

none-Pending : (rows : List Account) → Pending [] rows → All (λ a. is_chk a.id ≡ false) rows
none-Pending [] h = tt
none-Pending (a ∷ rows) (h, hs) = (
  elim (Bool-cases (is_chk a.id)) [
    | inl like ↦ absurd (ground (arith, h like))
    | inr other ↦ other
  ],
  none-Pending rows hs,
)

pub rename_all_leaves :
    (env : Env) (ids : List String) (db : Db)
    → ((n : ℕ) → is_chk (env.uuid n) ≡ false)
    → Pending ids db.accounts
    → All (λ a. is_chk a.id ≡ false) (rename_all env ids db).accounts
unfolding rename_all rename
rename_all_leaves env [] db plain h = none-Pending db.accounts h
rename_all_leaves env (old ∷ ids) db plain h =
    rename_all_leaves env ids (record (rename old (env.uuid db.drawn) db) { drawn = db.drawn + 1 })
      plain (Pending-renamed old (env.uuid db.drawn) ids db.accounts (plain db.drawn) h)
