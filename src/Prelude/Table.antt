-- ===== src/Prelude/Table.antt =====
-- A database table as the list of its rows, in insertion order, with a text as primary key.
use Prim.Native.String.{String}
use mathlib.Core.Path.{◌≡◌}
use mathlib.Core.Option.{Option, none, some}
use mathlib.Core.List.{List, [], ◌∷◌, ◌++◌}
use native.Mathlib.Omega.{arith}
use text.Mathlib.Text.{◌==◌}
use text.Mathlib.TextEquality.{eq_iff}
use e_bank_api.Prelude.Tests.{if◌then◌else◌}

module _ {ℓ} {A : Type ℓ} (key : A → String) where
  -- `session.get(Model, k)`, `select(Model).where(Model.id == k)`
  unfoldable pub find : String → List A → Option A
  find k [] = none
  find k (r ∷ rows) = if key r == k then some r else find k rows

  -- The row of this key takes the new field values.
  unfoldable pub save : A → List A → List A
  save r [] = []
  save r (s ∷ rows) = if key s == key r then r ∷ rows else s ∷ save r rows

  pub find-save :
      (k : String) (r old : A) (rows : List A)
      → find (key r) rows ≡ some old
      → find k (save r rows) ≡ (if key r == k then some r else find k rows)
  unfolding find save
  find-save k r old [] h = cc
  find-save k r old (s ∷ rows) h =
      ground
        (arith, find-save k r old rows, eq_iff (key s) (key r), eq_iff (key s) k, eq_iff (key r) k)

  pub find-append :
      (k : String) (rows : List A) (r : A)
      → find k (rows ++ r ∷ [])
        ≡ elim (find k rows) [ none ↦ (if key r == k then some r else none) | some s ↦ some s ]
  unfolding find
  find-append k [] r = ground arith
  find-append k (s ∷ rows) r = ground (arith, find-append k rows r)

  -- The row that is found has the key that was asked for.
  pub key-find : (k : String) (rows : List A) (r : A) → find k rows ≡ some r → key r ≡ k
  unfolding find
  key-find k [] r h = cc
  key-find k (s ∷ rows) r h = ground (arith, key-find k rows r, eq_iff (key s) k)
