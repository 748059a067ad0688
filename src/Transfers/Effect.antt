-- ===== src/Transfers/Effect.antt =====
-- What a transfer does to the balances (app/services/transfer.py).
use mathlib.Core.Path.{subst}
use mathlib.Core.Option
use e_bank_api.Prelude.{
  String, ◌==◌, ◌≡◌, ◌≢◌, ◌⊎◌, refl, ap, sym, ◌∙◌, true, false, Option, none, some, is_some, truthy,
  if◌then◌else◌, arith, inl, inr,
}
use e_bank_api.Prelude.Int.{ℤ, pos, ◌+ℤ◌, ◌-ℤ◌, ◌≤ℤ◌}
use e_bank_api.Errors.{Error, idempotent_replay}
use e_bank_api.Models.{Account, JournalEntry, Db, Env, Outcome, ok, err, ◌>>=◌, >>=-eq-ok}
use e_bank_api.Ledger
use e_bank_api.Ledger.{Audit, sys_cash_id, get_account}
use e_bank_api.Ledger.Mirror.{adjust}
use e_bank_api.Ledger.Post.{post-err}
use e_bank_api.Ledger.Transfer.{opened, ensure_customer-ok, transfer_args, transfer_effect}
use e_bank_api.Money.{parse_positive_money, above}
use e_bank_api.OnboardingAccounts.{is_ready}
use e_bank_api.Transfers.{
  Settings, TransferArgs, TransferView, account_row, unless_replay, within_limit, parties, answer,
  ledger_step, keyed_transfer, checked_amount, audit_of, transfer,
}
use e_bank_api.Transfers.Guards.{IsKeyed, IsOwn, parties-ok}

pub unless_replay_state : (r : Outcome JournalEntry) (db : Db) → (unless_replay r db).1 ≡ db
unfolding unless_replay
unless_replay_state r db = ground arith

-- A ledger transfer that is not raised on: it returned, or it was the replay of a journal.
unless_replay-ok :
    (r : Outcome JournalEntry) (db db' : Db)
    → unless_replay r db ≡ (ok tt, db')
    → (db' ≡ db)
      × (((j : JournalEntry) × (r ≡ ok j)) ⊎ ((id : String) × (r ≡ err (idempotent_replay id))))
unfolding unless_replay
unless_replay-ok (ok j) db db' h = (ground arith, inl (j, refl))
unless_replay-ok (err (idempotent_replay id)) db db' h = (ground arith, inr (id, refl))
unless_replay-ok (err e) db db' h = absurd (cc)

pub within_limit_state : (s : Settings) (x : ℤ) (db : Db) → (within_limit s x db).1 ≡ db
unfolding within_limit ◌>>=◌
within_limit_state s x db = ground arith

within_limit-ok :
    (s : Settings) (x : ℤ) (db db' : Db)
    → within_limit s x db ≡ (ok tt, db')
    → above s.decimal x s.max_transfer_amount ≡ ok false
unfolding within_limit ◌>>=◌
within_limit-ok s x db db' h = ground arith

pub answer_state :
    (s : Settings) (o d : Account) (x : ℤ) (memo : Option String) (db : Db)
    → (answer s o d x memo db).1 ≡ db
unfolding answer account_row ◌>>=◌
answer_state s o d x memo db = ground arith

checked_amount-ok : (s : Settings) (t : String) (x : ℤ) → checked_amount s t ≡ ok x → pos 1 ≤ℤ x
unfolding checked_amount parse_positive_money
checked_amount-ok s t x h = ground arith

-- The parts of a transfer that returned.
keyed_transfer-ok :
    (s : Settings) (env : Env) (subject : String) (m : TransferArgs) (v : TransferView)
    (db db' : Db)
    → IsKeyed db
    → keyed_transfer s env subject m db ≡ (ok v, db')
    → (o : Account) × (d : Account) × (x : ℤ) × (checked_amount s m.amount ≡ ok x)
      × (above s.decimal x s.max_transfer_amount ≡ ok false)
      × IsOwn subject o
      × (get_account o.id db ≡ some o)
      × (get_account d.id db ≡ some d)
      × (d.id ≢ o.id)
      × (is_some d.owner_subject ≡ true → is_ready d ≡ true)
      × (ledger_step s env o d x (audit_of s subject m) db ≡ (ok tt, db'))
unfolding keyed_transfer
keyed_transfer-ok s env subject m v db db' keyed h =
    let (x, db1, parsed, k1) = >>=-eq-ok _ _ db h in
    let (_, db2, limited, k2) = >>=-eq-ok _ _ db1 k1 in
    let ((o, d), db3, found, k3) = >>=-eq-ok _ _ db2 k2 in
    let (_, db4, moved, k4) = >>=-eq-ok _ _ db3 k3 in
    let same1 : db1 ≡ db = ground arith in
    let same2 : db2 ≡ db =
      sym (ap (λ (r : Outcome _ × Db). r.1) limited) ∙ within_limit_state s x db1 ∙ same1 in
    let (same3, own, row_o, row_d, differ, ready) =
      parties-ok s subject m o d db db3 keyed
        (subst (λ t. parties s subject m t ≡ (ok (o, d), db3)) same2 found) in
    let same4 : db4 ≡ db' =
      sym (answer_state s o d x m.memo db4) ∙ ap (λ (r : Outcome TransferView × Db). r.1) k4 in
    (
      o,
      d,
      x,
      ground arith,
      within_limit-ok s x db1 db2 limited,
      own,
      row_o,
      row_d,
      differ,
      ready,
      subst (λ t. ledger_step s env o d x (audit_of s subject m) t ≡ (ok tt, db')) same3
          (moved ∙ ap (λ t. (ok tt, t)) same4),
    )

-- A ledger transfer that raises leaves the accounts as they were.
ledger_transfer-err :
    (env : Env) (o d : Account) (x : ℤ) (audit : Audit) (e : Error) (db db' : Db)
    → Ledger.transfer env o d x audit db ≡ (err e, db')
    → db'.accounts ≡ db.accounts
unfolding Ledger.transfer ◌>>=◌
ledger_transfer-err env o d x audit e db db' h = ground (
  arith,
  ensure_customer-ok o db,
  ensure_customer-ok d (opened o db),
  post-err env (transfer_args o d x audit) e (opened d (opened o db)) db',
)

-- What the two ledger accounts of a transfer of x from o to d are moved by.
abbrev pub moves : Account → Account → ℤ → String → ℤ
moves o d x id = (if o.id == id then pos 0 -ℤ x else pos 0) +ℤ (if d.id == id then x else pos 0)

row_is_real :
    (a : Account) (db : Db)
    → get_account sys_cash_id db ≡ none
    → get_account a.id db ≡ some a
    → a.id ≢ sys_cash_id
row_is_real a db none_there here same =
    absurd_some (sym here ∙ ap (λ k. get_account k db) same ∙ none_there)
  where
    absurd_some : some a ≡ none → ⊥
    absurd_some e = absurd (cc)

-- The ledger's part of a transfer that returned.
ledger_step-ok :
    (s : Settings) (env : Env) (o d : Account) (x : ℤ) (audit : Audit) (db db' : Db)
    → o.id ≢ sys_cash_id
    → d.id ≢ sys_cash_id
    → ledger_step s env o d x audit db ≡ (ok tt, db')
    → ((o.overdraft_limit ≤ℤ o.balance_cached -ℤ x)
        × ((id : String)
            → get_account id db' ≡ Option.map (adjust (moves o d x id)) (get_account id db)))
      ⊎ (((id : String) × ((Ledger.transfer env o d x audit db).0 ≡ err (idempotent_replay id)))
          × (db'.accounts ≡ db.accounts))
unfolding ledger_step
ledger_step-ok s env o d x audit db db' real_o real_d h =
    let (result, after) = Ledger.transfer env o d x audit db in
    let (same, cases) = unless_replay-ok result after db' h in
    elim cases [
      | inl (j, returned) ↦ inl (
          transfer_effect env o d x audit db j db'
            (ap (λ r. (r, after)) returned ∙ ap (λ t. (ok j, t)) (sym same)) real_o real_d)
      | inr (id, replay) ↦ inr (
        (id, replay),
        ap (λ (t : Db). t.accounts) same
            ∙ ledger_transfer-err env o d x audit (idempotent_replay id) db after
                (ap (λ r. (r, after)) replay),
      )
    ]

-- Where ids are keys and no account has the id of the bank's cash, a customer's transfer that returns
-- was asked for under a key, for a positive amount that is not above the limit, from an active,
-- onboarded checking account of that customer to another account, which is onboarded if it has an
-- owner. Either the ledger moved the amount between these two, from a balance that stays at the
-- overdraft limit or above, and no other balance changed; or the key was used before, and no account
-- changed.
pub customer_transfer_effect :
    (s : Settings) (env : Env) (subject : String) (m : TransferArgs) (v : TransferView)
    (db db' : Db)
    → IsKeyed db
    → get_account sys_cash_id db ≡ none
    → transfer s env subject m db ≡ (ok v, db')
    → (is_some (truthy m.idempotency_key) ≡ true)
      × ((o : Account) × (d : Account) × (x : ℤ) × (checked_amount s m.amount ≡ ok x)
          × (pos 1 ≤ℤ x)
          × (above s.decimal x s.max_transfer_amount ≡ ok false)
          × IsOwn subject o
          × (d.id ≢ o.id)
          × (is_some d.owner_subject ≡ true → is_ready d ≡ true)
          × (((o.overdraft_limit ≤ℤ o.balance_cached -ℤ x)
                × ((id : String)
                    → get_account id db'
                      ≡ Option.map (adjust (moves o d x id)) (get_account id db)))
              ⊎ (((id : String) × ((Ledger.transfer env o d x (audit_of s subject m) db).0
                      ≡ err (idempotent_replay id)))
                  × (db'.accounts ≡ db.accounts))))
unfolding transfer
customer_transfer_effect s env subject m v db db' keyed no_cash h =
    let keyed_run : keyed_transfer s env subject m db ≡ (ok v, db') = ground arith in
    let (o, d, x, parsed, limit, own, row_o, row_d, differ, ready, moved) =
      keyed_transfer-ok s env subject m v db db' keyed keyed_run in
    (
      ground arith,
      (
        o,
        d,
        x,
        parsed,
        checked_amount-ok s m.amount x parsed,
        limit,
        own,
        differ,
        ready,
        ledger_step-ok s env o d x (audit_of s subject m) db db' (row_is_real o db no_cash row_o)
            (row_is_real d db no_cash row_d) moved,
      ),
    )
