-- ===== src/Ledger/Mirror.antt =====
-- The loop of `LedgerService.post` that keeps the cached balances in step.
use mathlib.Core.Option
use mathlib.Core.Path.{subst}
use e_bank_api.Prelude.{
  String, ◌==◌, eq_iff, ◌≡◌, refl, ap, sym, Option, none, some, List, [], ◌∷◌, if◌then◌else◌,
  Option-cases, Bool-cases, inl, inr, ◌∙◌,
}
use e_bank_api.Prelude.Int.{ℤ, pos, ◌+ℤ◌, +ℤ_zero, +ℤ_assoc}
use e_bank_api.Prelude.Table.{find-save, key-find}
use e_bank_api.Models.{Account, Db, Env}
use e_bank_api.Ledger.{
  PostingLine, PostArgs, sys_cash_id, delta, account_key, get_account, set_balance, add_transaction,
  mirror_line, mirror_lines,
}

-- The account with this much more.
abbrev pub adjust : ℤ → Account → Account
adjust x a = record a { balance_cached = a.balance_cached +ℤ x }

-- What one line moves on an account.
unfoldable pub moved : String → PostingLine → ℤ
moved id l =
    if l.ledger_account_id == sys_cash_id
    then pos 0
    else if l.ledger_account_id == id
    then delta l
    else pos 0

unfoldable pub net : String → List PostingLine → ℤ
unfolding moved
net id [] = pos 0
net id (l ∷ lines) = moved id l +ℤ net id lines

pub get_account-set_balance :
    (id : String) (a : Account) (b : ℤ) (db : Db)
    → get_account a.id db ≡ some a
    → get_account id (set_balance a b db)
      ≡ (if a.id == id then some (record a { balance_cached = b }) else get_account id db)
unfolding set_balance
get_account-set_balance id a b db h =
    find-save account_key id (record a { balance_cached = b }) a db.accounts h

map-adjust_zero : (o : Option Account) → Option.map (adjust (pos 0)) o ≡ o
map-adjust_zero none = refl
map-adjust_zero (some a) = λ i. some (record a { balance_cached = +ℤ_zero a.balance_cached i })

-- A line whose account is not there changes no account.
map-adjust-none :
    (k id : String) (x : ℤ) (db : Db)
    → get_account k db ≡ none
    → get_account id db ≡ Option.map (adjust (if k == id then x else pos 0)) (get_account id db)
map-adjust-none k id x db h = elim (Bool-cases (k == id)) [
  | inl same ↦ let e : k ≡ id = (eq_iff k id).0 same in rw (← e) (rw h)
  | inr other ↦ rw other (rw map-adjust_zero)
]

get_account-credit_row :
    (id : String) (x : ℤ) (a : Account) (db : Db)
    → get_account a.id db ≡ some a
    → get_account id (set_balance a (a.balance_cached +ℤ x) db)
      ≡ Option.map (adjust (if a.id == id then x else pos 0)) (get_account id db)
get_account-credit_row id x a db h =
    get_account-set_balance id a (a.balance_cached +ℤ x) db h ∙ elim (Bool-cases (a.id == id)) [
      | inl same ↦ rw same (
          ap (Option.map (adjust x)) (sym h ∙ ap (λ i. get_account i db) ((eq_iff a.id id).0 same)))
      | inr other ↦ rw other (rw map-adjust_zero)
    ]

-- The account of a line takes the line's amount.
pub get_account-credit :
    (k id : String) (x : ℤ) (a : Account) (db : Db)
    → get_account k db ≡ some a
    → get_account id (set_balance a (a.balance_cached +ℤ x) db)
      ≡ Option.map (adjust (if k == id then x else pos 0)) (get_account id db)
get_account-credit k id x a db h =
    let e : a.id ≡ k = key-find account_key k db.accounts a h in
    subst
      (λ i.
        get_account id (set_balance a (a.balance_cached +ℤ x) db)
        ≡ Option.map (adjust (if i == id then x else pos 0)) (get_account id db))
      e (get_account-credit_row id x a db (subst (λ i. get_account i db ≡ some a) (sym e) h))

pub get_account-mirror_line :
    (env : Env) (m : PostArgs) (id : String) (l : PostingLine) (db : Db)
    → get_account id (mirror_line env m l db) ≡ Option.map (adjust (moved id l)) (get_account id db)
unfolding mirror_line moved add_transaction
get_account-mirror_line env m id l db = elim (Bool-cases (l.ledger_account_id == sys_cash_id)) [
  | inl cash ↦ rw cash (rw map-adjust_zero)
  | inr customer ↦ rw customer (elim (Option-cases (get_account l.ledger_account_id db)) [
    | inl missing ↦ rw missing (map-adjust-none l.ledger_account_id id (delta l) db missing)
    | inr (a, e) ↦ rw e (elim (Bool-cases m.mirror_transactions) [
      | inl on ↦ rw on (get_account-credit l.ledger_account_id id (delta l) a db e)
      | inr off ↦ rw off (get_account-credit l.ledger_account_id id (delta l) a db e)
    ])
  ])
]

map-adjust-adjust :
    (x y : ℤ) (o : Option Account)
    → Option.map (adjust y) (Option.map (adjust x) o) ≡ Option.map (adjust (x +ℤ y)) o
map-adjust-adjust x y none = refl
map-adjust-adjust x y (some a) =
    λ i. some (record a { balance_cached = +ℤ_assoc a.balance_cached x y i })

-- After the loop every account has moved by the sum of its lines, and nothing else of it changed.
pub get_account-mirror_lines :
    (env : Env) (m : PostArgs) (id : String) (lines : List PostingLine) (db : Db)
    → get_account id (mirror_lines env m lines db)
      ≡ Option.map (adjust (net id lines)) (get_account id db)
unfolding mirror_lines net
get_account-mirror_lines env m id [] db = rw map-adjust_zero
get_account-mirror_lines env m id (l ∷ lines) db =
    get_account-mirror_lines env m id lines (mirror_line env m l db)
    ∙ ap (Option.map (adjust (net id lines))) (get_account-mirror_line env m id l db)
    ∙ map-adjust-adjust (moved id l) (net id lines) (get_account id db)
