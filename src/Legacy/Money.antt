-- ===== src/Legacy/Money.antt =====
-- What the integer service does to the balances.
use e_bank_api.Prelude.{
  String, ◌==◌, eq_refl, Bool, true, false, ◌≡◌, ◌≢◌, ap, ◌∙◌, Option, none, some, arith,
  if◌then◌else◌, Option-cases, inl, inr,
}
use e_bank_api.Prelude.Int.{ℤ, pos, negsuc, ◌+ℤ◌, ◌-ℤ◌, ◌≤ℤ◌, int_laws}
use e_bank_api.Models.{Db, Env, Account, Outcome, ok, ◌>>=◌, >>=-eq-ok}
use e_bank_api.Ledger.{get_account}
use e_bank_api.Accounts
use e_bank_api.Accounts.{AccountRecord}
use e_bank_api.Accounts.Mirrored.{
  balance_of, balance_of-record_transaction, record_transaction-missing, balance_of-ensure_account,
}
use e_bank_api.Legacy.{
  Balance, overdraft_limit, to_int_balance, to_decimal, checked, settle, withdraw, transfer,
}

-- The checks only read, and they pass for an amount above zero that leaves the whole part of the
-- balance at the limit or above.
checked_state : (origin : String) (x : ℤ) (db : Db) → (checked origin x db).1 ≡ db
unfolding checked ◌>>=◌ Accounts.get_for_update
checked_state origin x db = ground arith

checked-ok :
    (origin : String) (x : ℤ) (a : AccountRecord) (db : Db)
    → (checked origin x db).0 ≡ ok a
    → (b : Account) × (get_account origin db ≡ some b)
      × (pos 1 ≤ℤ x)
      × (overdraft_limit ≤ℤ to_int_balance b.balance_cached -ℤ x)
unfolding checked ◌>>=◌ Accounts.get_for_update
checked-ok origin x a db h = elim (Option-cases (get_account origin db)) [
  | inl missing ↦ absurd (ground arith)
  | inr (b, e) ↦ (b, e, ground arith, ground arith)
]

settle-ok :
    (env : Env) (origin destination : String) (x : ℤ) (r : Balance × Balance) (db db' : Db)
    → settle env origin destination x db ≡ (ok r, db')
    → let db1 = (Accounts.ensure_account destination db).1 in
      let db2 =
        (Accounts.record_transaction env origin
          (pos 0 -ℤ to_decimal x)
          "transfer_out"
          (some destination)
          db1).1 in
      (get_account origin db1 ≢ none)
      × (get_account destination db2 ≢ none)
      × (db'
          ≡ (Accounts.record_transaction env destination
              (to_decimal x)
              "transfer_in"
              (some origin)
              db2).1)
unfolding settle ◌>>=◌ Accounts.get
settle-ok env origin destination x r db db' h =
    let db1 = (Accounts.ensure_account destination db).1 in
    let db2 =
      (Accounts.record_transaction env origin (pos 0 -ℤ to_decimal x) "transfer_out"
        (some destination) db1).1 in
    (
      ground arith,
      λ missing. ground (
        arith,
        record_transaction-missing env destination (to_decimal x) "transfer_in" (some origin) db2
            missing,
      ),
      ground arith,
    )

-- A write into a known account, with the account left out.
record_known :
    (env : Env) (k id : String) (x : ℤ) (kind : String) (cp : Option String) (db : Db)
    → get_account k db ≢ none
    → balance_of (get_account id (Accounts.record_transaction env k x kind cp db).1)
      ≡ balance_of (get_account id db) +ℤ (if k == id then x else pos 0)
record_known env k id x kind cp db known = elim (Option-cases (get_account k db)) [
  | inl missing ↦ absurd (known missing)
  | inr (a, e) ↦ balance_of-record_transaction env k id x kind cp a db e
]

-- What a transfer has done to the balance `b` of an id, to give `c`.
moved_between :
    (o d : Bool) (x b c : ℤ)
    → c ≡ b +ℤ (if o then pos 0 -ℤ x else pos 0) +ℤ (if d then x else pos 0)
    → c ≡ b -ℤ (if o then x else pos 0) +ℤ (if d then x else pos 0)
moved_between true d x b c h = rw h (omega int_laws)
moved_between false d x b c h = rw h (omega int_laws)

-- A transfer that succeeds takes the amount from the origin and gives it to the destination (new
-- or not), leaves every other balance alone, and so conserves the sum; from an account to itself
-- it changes no balance.
pub transfer_moves :
    (env : Env) (origin destination : String) (x : ℤ) (r : Balance × Balance) (db db' : Db)
    → transfer env origin destination x db ≡ (ok r, db')
    → (id : String)
    → balance_of (get_account id db')
      ≡ balance_of (get_account id db)
        -ℤ (if origin == id then to_decimal x else pos 0)
        +ℤ (if destination == id then to_decimal x else pos 0)
unfolding transfer ◌>>=◌
transfer_moves env origin destination x r db db' h id =
    let db1 = (Accounts.ensure_account destination db).1 in
    let db2 =
      (Accounts.record_transaction env origin (pos 0 -ℤ to_decimal x) "transfer_out"
        (some destination) db1).1 in
    let settled : settle env origin destination x db ≡ (ok r, db') =
      ground (arith, checked_state origin x db) in
    let (known1, known2, done) = settle-ok env origin destination x r db db' settled in
    moved_between (origin == id) (destination == id) (to_decimal x) (balance_of (get_account id db))
      (balance_of (get_account id db'))
      (ap (λ d. balance_of (get_account id d)) done
        ∙ record_known env destination id (to_decimal x) "transfer_in" (some origin) db2 known2
        ∙ rw (
          record_known env origin id (pos 0 -ℤ to_decimal x) "transfer_out" (some destination) db1
              known1,
          balance_of-ensure_account destination id db,
        ))

-- The whole part of a balance is at most 99 hundredths above it.
to_int_bound :
    (b x : ℤ)
    → overdraft_limit ≤ℤ to_int_balance b -ℤ x
    → pos 1 ≤ℤ x
    → negsuc 100098 ≤ℤ b -ℤ to_decimal x
unfolding to_int_balance to_decimal
to_int_bound (pos n) (pos k) h p = omega int_laws
to_int_bound (negsuc n) (pos k) h p = omega int_laws
to_int_bound (pos n) (negsuc k) h p = omega int_laws
to_int_bound (negsuc n) (negsuc k) h p = omega int_laws

withdraw-checked :
    (env : Env) (origin : String) (x : ℤ) (r : Balance) (db db' : Db)
    → withdraw env origin x db ≡ (ok r, db')
    → (a : AccountRecord) × ((checked origin x db).0 ≡ ok a)
unfolding withdraw
withdraw-checked env origin x r db db' h =
    let (a, _, passed, _) = >>=-eq-ok _ _ db h in
    (a, ap (λ (o : Outcome AccountRecord × Db). o.0) passed)

-- A withdrawal that succeeds takes exactly the amount from the origin, and leaves it above
-- -1001.00: the limit of -1000 is tested on the whole part of the balance, which is rounded
-- towards zero.
pub withdraw_floor :
    (env : Env) (origin : String) (x : ℤ) (r : Balance) (db db' : Db)
    → withdraw env origin x db ≡ (ok r, db')
    → (balance_of (get_account origin db') ≡ balance_of (get_account origin db) -ℤ to_decimal x)
      × (negsuc 100098 ≤ℤ balance_of (get_account origin db'))
unfolding withdraw ◌>>=◌
withdraw_floor env origin x r db db' h =
    let after = Accounts.record_transaction env origin (pos 0 -ℤ to_decimal x) "withdraw" none in
    let written : db' ≡ (after db).1 = ground (arith, checked_state origin x db) in
    let (a, passed) = withdraw-checked env origin x r db db' h in
    let (b, found, positive, limit) = checked-ok origin x a db passed in
    let moved : balance_of (get_account origin db')
        ≡ balance_of (get_account origin db) -ℤ to_decimal x =
      ap (λ d. balance_of (get_account origin d)) written
      ∙ balance_of-record_transaction env origin origin (pos 0 -ℤ to_decimal x) "withdraw" none b db
          found
      ∙ rw (eq_refl origin) (omega int_laws) in
    (moved, rw (moved, found) (to_int_bound b.balance_cached x limit positive))
