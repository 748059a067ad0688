-- ===== src/Routes/Undone.antt =====
-- A request that raises leaves the database as it was: what its route does before the service call is
-- not to the database, nothing behind the call raises, and the session rolls the call back.
use e_bank_api.Prelude.{Bool, true, false, none, ◌≡◌, refl, ap, ◌∙◌, arith, if◌then◌else◌}
use e_bank_api.Errors.{Error}
use e_bank_api.Models.{
  raise, raise_if, lift, Db, Outcome, ok, err, Exec, Action, pure, ◌>>=◌, get_db,
}
use e_bank_api.Routes.{
  Bucket, on_receipts, on_counters, Counters, Backend, in_session, reading, accepted,
}

-- The database is not touched, whatever comes out.
pub record IsAside {A : Type 0} (m : Exec Backend A) : Type 0 where
  pub same : (s : Backend) → (m s).1.db ≡ s.db

-- Nothing is left of a call that raises.
pub record IsUndone {A : Type 0} (m : Exec Backend A) : Type 0 where
  pub same :
      (s : Backend) (e : Error)
      → s.db.account_number_pending ≡ none
      → (m s).0 ≡ err e
      → (m s).1.db ≡ s.db

module _ {A : Type 0} where
  pub IsAside-pure : (a : A) → IsAside (pure {S = Backend} a)
  IsAside-pure a = record { same = λ s. refl }

  pub IsAside-raise : (e : Error) → IsAside (raise {S = Backend} {A = A} e)
  IsAside-raise e = record { same = λ s. refl }

  pub IsAside-lift : (r : Outcome A) → IsAside (lift {S = Backend} r)
  IsAside-lift r = record { same = λ s. refl }

  pub IsAside-reading : (f : Db → Outcome A) → IsAside (reading f)
  unfolding reading
  IsAside-reading f = record { same = λ s. refl }

  pub IsAside-on_receipts : (f : Db → Exec Bucket A) → IsAside (on_receipts f)
  unfolding on_receipts
  IsAside-on_receipts f = record { same = λ s. refl }

  pub IsAside-on_counters : (m : Exec Counters A) → IsAside (on_counters m)
  IsAside-on_counters m = record { same = λ s. refl }

  pub IsAside-if :
      (b : Bool) (x y : Exec Backend A) → IsAside x → IsAside y → IsAside (if b then x else y)
  IsAside-if true x y hx hy = hx
  IsAside-if false x y hx hy = hy

  pub IsUndone-aside : (m : Exec Backend A) → IsAside m → IsUndone m
  IsUndone-aside m h = record { same = λ s e closed raised. h.same s }

  pub IsUndone-in_session : (m : Action A) → IsUndone (in_session m)
  unfolding in_session get_db
  IsUndone-in_session m = record { same = λ s e closed raised. ground arith }

  pub IsUndone-if :
      (b : Bool) (x y : Exec Backend A) → IsUndone x → IsUndone y → IsUndone (if b then x else y)
  IsUndone-if true x y hx hy = hx
  IsUndone-if false x y hx hy = hy

pub IsAside-raise_if : (b : Bool) (e : Error) → IsAside (raise_if {S = Backend} b e)
IsAside-raise_if b e = record { same = λ s. refl }

pub IsAside-accepted : (b : Bool) → IsAside (accepted b)
unfolding accepted
IsAside-accepted b = record { same = λ s. refl }

module _ {A B : Type 0} where
  pub IsAside-bind :
      (m : Exec Backend A) (f : A → Exec Backend B)
      → IsAside m
      → ((a : A) → IsAside (f a))
      → IsAside (m >>= f)
  unfolding ◌>>=◌
  IsAside-bind m f first rest = record { same = λ s. by s (m s) (first.same s) }
    where
      by :
          (s : Backend) (r : Outcome A × Backend)
          → r.1.db ≡ s.db
          → let next : Outcome B × Backend = elim r.0 [ ok a ↦ f a r.1 | err e ↦ (err e, r.1) ] in
            next.1.db ≡ s.db
      by s (ok a, s') h = (rest a).same s' ∙ h
      by s (err e, s') h = h

  pub IsUndone-bind :
      (m : Exec Backend A) (f : A → Exec Backend B)
      → IsAside m
      → ((a : A) → IsUndone (f a))
      → IsUndone (m >>= f)
  unfolding ◌>>=◌
  IsUndone-bind m f first rest = record {
    same = λ s e closed raised. by s e closed (m s) (first.same s) raised;
  }
    where
      by :
          (s : Backend) (e : Error)
          → s.db.account_number_pending ≡ none
          → (r : Outcome A × Backend) → r.1.db ≡ s.db
          → let next : Outcome B × Backend = elim r.0 [ ok a ↦ f a r.1 | err x ↦ (err x, r.1) ] in
            (next.0 ≡ err e → next.1.db ≡ s.db)
      by s e closed (ok a, s') h raised =
          (rest a).same s' e (ap (λ (d : Db). d.account_number_pending) h ∙ closed) raised ∙ h
      by s e closed (err x, s') h raised = h

  -- What follows the call cannot raise.
  pub IsUndone-answer :
      (m : Exec Backend A) (g : A → B) → IsUndone m → IsUndone (m >>= λ a. pure (g a))
  unfolding ◌>>=◌
  IsUndone-answer m g undone = record {
    same = λ s e closed raised. by s e (m s) (undone.same s e closed) raised;
  }
    where
      by :
          (s : Backend) (e : Error) (r : Outcome A × Backend)
          → (r.0 ≡ err e → r.1.db ≡ s.db)
          → let next : Outcome B × Backend = elim r.0 [
            | ok a ↦ (ok (g a), r.1)
            | err x ↦ (err x, r.1)
          ] in
            (next.0 ≡ err e → next.1.db ≡ s.db)
      by s e (ok a, s') h raised = absurd (cc)
      by s e (err x, s') h raised = h (cc)

pub ruleset aside_rules = (
  IsAside-pure, IsAside-raise, IsAside-lift, IsAside-reading, IsAside-on_receipts,
  IsAside-on_counters, IsAside-if, IsAside-raise_if, IsAside-accepted, IsAside-bind,
)
