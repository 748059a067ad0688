-- ===== src/Models/Session.antt =====
-- A coroutine over a database session: it may write and may raise. What was written before a raise
-- stays written; the session's scope (`get_db` of app/core/database.py) then rolls it back.
use e_bank_api.Prelude.{ap, ℕ, ◌+◌, String, ◌≡◌, refl, Bool, Option, none, some, if◌then◌else◌}
use e_bank_api.Errors.{Error}
use e_bank_api.Models.Rows.{Db}

pub data Outcome {ℓ} (A : Type ℓ) : Type ℓ where
  ok : A → Outcome A
  err : Error → Outcome A

-- The second step is taken when the first has a value.
infixl 5 ◌then◌
abbrev pub ◌then◌ {ℓ κ} : {A : Type ℓ} {B : Type κ} → Outcome A → (A → Outcome B) → Outcome B
ok a then f = f a
err e then f = err e

-- A method over a state, which may raise.
abbrev pub Exec : Type 0 → Type 0 → Type 0
Exec S A = S → Outcome A × S

abbrev pub Action : Type 0 → Type 0
Action = Exec Db

-- What the program does not implement: `uuid4`, of which the n-th draw is `uuid n`;
-- `secrets.randbelow`; and the journal that a concurrent transaction commits under a key between the
-- lookup and the insert.
pub record Env : Type 0 where
  pub uuid : ℕ → String
  pub randbelow : ℕ → ℕ
  pub raced : String → Option String

module _ {S A : Type 0} where
  abbrev pub pure : A → Exec S A
  pure a db = (ok a, db)

  abbrev pub raise : Error → Exec S A
  raise e db = (err e, db)

  abbrev pub gets : (S → A) → Exec S A
  gets f db = (ok (f db), db)

  abbrev pub or_raise : Error → Option A → Exec S A
  or_raise e none = raise e
  or_raise e (some a) = pure a

  abbrev pub lift : Outcome A → Exec S A
  lift r db = (r, db)

infixl 5 ◌>>=◌ ◌>>◌
unfoldable pub ◌>>=◌ : {S A B : Type 0} → Exec S A → (A → Exec S B) → Exec S B
◌>>=◌ m f db = let (r, db') = m db in elim r [ ok a ↦ f a db' | err e ↦ (err e, db') ]

abbrev pub ◌>>◌ : {S A B : Type 0} → Exec S A → Exec S B → Exec S B
m >> k = m >>= λ _. k

-- Inversion of a bind that returned: both parts returned.
pub >>=-eq-ok :
    {S A B : Type 0} (m : Exec S A) (f : A → Exec S B) {b : B} (db : S) {db' : S}
    → (m >>= f) db ≡ (ok b, db')
    → (a : A) × (db1 : S) × (m db ≡ (ok a, db1)) × (f a db1 ≡ (ok b, db'))
unfolding ◌>>=◌
>>=-eq-ok {S} {A} {B} m f {b} db {db'} h = go (m db) refl h
  where
    go :
        (r : Outcome A × S)
        → m db ≡ r
        → ◌≡◌ {A = Outcome B × S} (elim r.0 [ ok a ↦ f a r.1 | err e ↦ (err e, r.1) ]) (ok b, db')
        → (a : A) × (db1 : S) × (m db ≡ (ok a, db1)) × (f a db1 ≡ (ok b, db'))
    go (ok a, db1) e k = (a, db1, e, k)
    go (err x, db1) e k = absurd (cc)

abbrev pub raise_if : {S : Type 0} → Bool → Error → Exec S (Unit {0})
raise_if c e db = (if c then err e else ok tt, db)

abbrev pub modify : {S : Type 0} → (S → S) → Exec S (Unit {0})
modify f db = (ok tt, f db)

-- `new_uuid` of app/domain/ids.py
unfoldable pub new_uuid : Env → Action String
new_uuid env db = (ok (env.uuid db.drawn), record db { drawn = db.drawn + 1 })

-- `get_db`: commit what a request wrote when it returns, roll it back when it raises.
unfoldable pub get_db {ℓ} : {A : Type ℓ} → (Db → Outcome A × Db) → Db → Outcome A × Db
get_db request db = let (r, db') = request db in elim r [ ok a ↦ (ok a, db') | err e ↦ (err e, db) ]

abbrev resumed : {S A B : Type 0} → (A → Exec S B) → Outcome A × S → Outcome B × S
resumed f r = elim r.0 [ ok a ↦ f a r.1 | err e ↦ (err e, r.1) ]

pub >>=-ok :
    {S A B : Type 0} (m : Exec S A) (f : A → Exec S B) {a : A} (db : S) {db' : S}
    → m db ≡ (ok a, db')
    → (m >>= f) db ≡ f a db'
unfolding ◌>>=◌
>>=-ok m f db h = ap (resumed f) h

pub >>=-err :
    {S A B : Type 0} (m : Exec S A) (f : A → Exec S B) {e : Error} (db : S) {db' : S}
    → m db ≡ (err e, db')
    → (m >>= f) db ≡ (err e, db')
unfolding ◌>>=◌
>>=-err m f db h = ap (resumed f) h

-- A request that raises leaves the database as it was.
pub get_db-err :
    {A : Type 0} (m : Action A) {e : Error} (db : Db) {db' : Db}
    → m db ≡ (err e, db')
    → get_db m db ≡ (err e, db)
unfolding get_db
get_db-err m db h = rw (h, get_db) refl
