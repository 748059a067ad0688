-- ===== src/Migrations/Restored.antt =====
-- Who can use the bank again (alembic/versions/0011_restore_ready_account_onboarding.py).
use mathlib.Core.Option
use e_bank_api.Prelude.{
  ◌≡◌, ◌≢◌, refl, ap, ◌∙◌, String, true, some, List, [], ◌∷◌, map, arith, eq_iff,
}
use e_bank_api.Prelude.Table.{find, key-find}
use e_bank_api.Models.{Account, Db}
use e_bank_api.Ledger.{account_key, get_account}
use e_bank_api.Migrations.{is_granted, restored_status, restored, upgrade_0011}

restored-id : (db : Db) (a : Account) → (restored db a).id ≡ a.id
unfolding restored
restored-id db a = ground arith

find-restored :
    (db : Db) (id : String) (rows : List Account)
    → find account_key id (map (restored db) rows)
      ≡ Option.map (restored db) (find account_key id rows)
unfolding find
find-restored db id [] = refl
find-restored db id (a ∷ rows) = ground (arith, find-restored db id rows, restored-id db a)

-- The status is the account's own, or that of an account which is ready.
restored_ready :
    (db : Db) (a : Account)
    → a.kind ≡ "checking"
    → is_granted a.id db.transactions ≡ true
    → ((restored db a).onboarding_status ≢ "not_started")
      × ((restored db a).onboarding_status ≢ "in_progress")
unfolding restored restored_status
restored_ready db a checking granted = (
  ground (
    arith,
    eq_iff a.kind "checking",
    eq_iff a.onboarding_status "not_started",
    eq_iff a.onboarding_status "in_progress",
    eq_iff "completed" "not_started",
    eq_iff "skipped" "not_started",
  ),
  ground (
    arith,
    eq_iff a.kind "checking",
    eq_iff a.onboarding_status "not_started",
    eq_iff a.onboarding_status "in_progress",
    eq_iff "completed" "in_progress",
    eq_iff "skipped" "in_progress",
  ),
)

restored_rest :
    (db : Db) (a : Account)
    → restored db a ≡ record a { onboarding_status = (restored db a).onboarding_status }
unfolding restored
restored_rest db a = ground arith

-- Behind migration 0011 a checking account that is found and has a transaction of type demo_grant is neither
-- not_started nor in_progress, and nothing but its status is changed of it.
pub upgrade_0011_restores :
    (db : Db) (id : String) (a : Account)
    → get_account id db ≡ some a
    → a.kind ≡ "checking"
    → is_granted id db.transactions ≡ true
    → (status : String) × (get_account id (upgrade_0011 db)
        ≡ some (record a { onboarding_status = status }))
      × (status ≢ "not_started")
      × (status ≢ "in_progress")
unfolding upgrade_0011
upgrade_0011_restores db id a here checking granted =
    let (not_new, not_open) =
      restored_ready db a checking (rw (key-find account_key id db.accounts a here) granted) in
    (
      (restored db a).onboarding_status,
      find-restored db id db.accounts ∙ rw here (ap some (restored_rest db a)),
      not_new,
      not_open,
    )
