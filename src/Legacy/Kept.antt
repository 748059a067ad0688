-- ===== src/Legacy/Kept.antt =====
-- What every routine keeps, the integer service (app/services/account_service.py) keeps.
use e_bank_api.Prelude.{inl, inr, Option-cases, ◌≡◌, refl, String, Option, none, some}
use e_bank_api.Prelude.Int.{ℤ, pos}
use e_bank_api.Models.{Db, Env, Account, pure}
use e_bank_api.Models.Keeps.{Keeps, Keeps-bind, Keeps-pure, keeps_rules}
use e_bank_api.Accounts
use e_bank_api.Accounts.{AccountRecord}
use e_bank_api.Ledger.{get_account}
use e_bank_api.Routine.{Routine}
use e_bank_api.Legacy.{deposit, deposit_into, withdraw, transfer}

module _ {P : Db → Type 0} (R : Routine P) where
  Keeps-record_transaction :
      (env : Env) (id : String) (x : ℤ) (kind : String) (cp : Option String)
      → Keeps P (Accounts.record_transaction env id x kind cp)
  Keeps-record_transaction env id x kind cp = record {
    after = λ db h. (R.recorded env id x kind cp).after db h;
  }

  Keeps-insert_account :
      (row : Account) → row.balance_cached ≡ pos 0 → Keeps P (Accounts.insert_account row)
  unfolding Accounts.insert_account
  Keeps-insert_account row zero = record {
    after = λ db h. elim (Option-cases (get_account row.id db)) [
      | inl free ↦ rw (free, Accounts.insert_account) (R.inserted row db zero h)
      | inr (a, e) ↦ rw (e, Accounts.insert_account) h
    ];
  }

  Keeps-ensure_account : (id : String) → Keeps P (Accounts.ensure_account id)
  unfolding Accounts.ensure_account Accounts.new_account
  Keeps-ensure_account id = record {
    after = λ db h. elim (Option-cases (get_account id db)) [
      | inl missing ↦
          rw (missing, Accounts.ensure_account)
            ((Keeps-insert_account (Accounts.new_account id none "checking" "USD" (pos 0) db)
                refl).after
              db h)
      | inr (a, e) ↦ rw (e, Accounts.ensure_account) h
    ];
  }

  Keeps-get : (id : String) → Keeps P (Accounts.get id)
  unfolding Accounts.get
  Keeps-get id = record { after = λ db h. h }

  Keeps-get_for_update : (id : String) → Keeps P (Accounts.get_for_update id)
  unfolding Accounts.get_for_update
  Keeps-get_for_update id = record { after = λ db h. h }

  Keeps-add_account : (id : String) → Keeps P (Accounts.add_account id)
  unfolding Accounts.new_account Accounts.add_account
  Keeps-add_account id = record {
    after = λ db h.
        let row = Accounts.new_account id none "checking" "USD" (pos 0) db in
        (Keeps-bind P (Accounts.insert_account row) (λ _. pure row) (Keeps-insert_account row refl)
            (λ _. Keeps-pure P row)).after
          db h;
  }

  Keeps-create : (env : Env) (id : String) (x : ℤ) → Keeps P (Accounts.create env id x)
  unfolding Accounts.create
  Keeps-create env id x = search (keeps_rules, Keeps-add_account, Keeps-record_transaction)

  ruleset mirrored_rules = (
    keeps_rules, Keeps-record_transaction, Keeps-ensure_account, Keeps-get, Keeps-get_for_update,
    Keeps-create,
  )

  pub Keeps-withdraw :
      (env : Env) (origin : String) (amount : ℤ) → Keeps P (withdraw env origin amount)
  unfolding withdraw
  Keeps-withdraw env origin amount = search mirrored_rules depth 14

  pub Keeps-transfer :
      (env : Env) (origin destination : String) (amount : ℤ)
      → Keeps P (transfer env origin destination amount)
  unfolding transfer
  Keeps-transfer env origin destination amount = search mirrored_rules depth 20

  Keeps-deposit_into :
      (env : Env) (destination : String) (amount : ℤ) (o : Option AccountRecord)
      → Keeps P (deposit_into env destination amount o)
  unfolding deposit_into
  Keeps-deposit_into env destination amount none = search mirrored_rules
  Keeps-deposit_into env destination amount (some _) = search mirrored_rules

  pub Keeps-deposit :
      (env : Env) (destination : String) (amount : ℤ) → Keeps P (deposit env destination amount)
  unfolding deposit
  Keeps-deposit env destination amount =
      search (mirrored_rules, Keeps-deposit_into env destination amount) depth 8
