-- ===== src/Models/Keeps.antt =====
-- Properties of the tables that an action keeps, whether it returns or raises.
use e_bank_api.Prelude.{Bool, true, false, Option, none, some, if◌then◌else◌}
use e_bank_api.Errors.{Error}
use e_bank_api.Models.Session.{
  Outcome, ok, err, Exec, pure, raise, gets, or_raise, lift, raise_if, ◌>>=◌,
}

pub record Keeps {S A : Type 0} (P : S → Type 0) (act : Exec S A) : Type 0 where
  pub after : (db : S) → P db → P (act db).1

module _ {S A : Type 0} (P : S → Type 0) where
  pub Keeps-pure : (value : A) → Keeps P (pure value)
  Keeps-pure value = record { after = λ db p. p }

  pub Keeps-raise : (e : Error) → Keeps {A = A} P (raise e)
  Keeps-raise e = record { after = λ db p. p }

  pub Keeps-gets : (f : S → A) → Keeps P (gets f)
  Keeps-gets f = record { after = λ db p. p }

  pub Keeps-lift : (r : Outcome A) → Keeps P (lift r)
  Keeps-lift r = record { after = λ db p. p }

  pub Keeps-or_raise : (e : Error) (o : Option A) → Keeps P (or_raise e o)
  Keeps-or_raise e none = record { after = λ db p. p }
  Keeps-or_raise e (some a) = record { after = λ db p. p }

  pub Keeps-if : (b : Bool) (x y : Exec S A) → Keeps P x → Keeps P y → Keeps P (if b then x else y)
  Keeps-if true x y kx ky = kx
  Keeps-if false x y kx ky = ky

pub Keeps-raise_if : {S : Type 0} (P : S → Type 0) (b : Bool) (e : Error) → Keeps P (raise_if b e)
Keeps-raise_if P b e = record { after = λ db p. p }

module _ {S A B : Type 0} (P : S → Type 0) where
  abbrev resume : (A → Exec S B) → Outcome A × S → Outcome B × S
  resume f r = elim r.0 [ ok a ↦ f a r.1 | err e ↦ (err e, r.1) ]

  -- Each part is run from tables that have the property.
  pub Keeps-bind :
      (act : Exec S A) (next : A → Exec S B)
      → Keeps P act
      → ((r : A) → Keeps P (next r))
      → Keeps P (act >>= next)
  unfolding ◌>>=◌
  Keeps-bind act next first rest = record { after = λ db p. step (act db) (first.after db p) }
    where
      step : (r : Outcome A × S) → P r.1 → P (resume next r).1
      step (ok a, db') p = (rest a).after db' p
      step (err e, db') p = p

pub ruleset keeps_rules = (
  Keeps-pure, Keeps-raise, Keeps-gets, Keeps-lift, Keeps-or_raise, Keeps-if, Keeps-raise_if,
  Keeps-bind,
)
