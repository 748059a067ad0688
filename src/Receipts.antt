-- ===== src/Receipts.antt =====
-- app/services/statement_storage.py and `get_receipt_pdf` of app/services/demo_service.py: receipts, and
-- the bucket that keeps them. The layout of app/services/statement_pdf.py is a parameter, and the bytes
-- of a file are a text.
pub mod Kept
use Prim.Native.String.{◌++◌ as concat}
use e_bank_api.Prelude.{
  String, ◌==◌, Bool, true, false, not, Option, none, some, List, [], ◌∷◌, if◌then◌else◌,
}
use e_bank_api.Errors.{client_error}
use e_bank_api.Models.{Db, Outcome, ok, err, Exec, pure, lift, ◌>>=◌, ◌>>◌}
use e_bank_api.Filters.{Clerk}
use e_bank_api.Statements.{TransactionDetail, get_transaction}

-- S3: the objects of the bucket; `true` at the head of `faults` is a ClientError of the next call, of
-- another kind than a missing key.
pub record Bucket : Type 0 where
  pub objects : String → Option String
  pub faults : List Bool

attempted : List Bool → Bucket → Outcome (Unit {0}) × Bucket
attempted [] b = (ok tt, b)
attempted (true ∷ rest) b = (err client_error, record b { faults = rest })
attempted (false ∷ rest) b = (ok tt, record b { faults = rest })

unfoldable pub call_s3 : Exec Bucket (Unit {0})
unfolding attempted
call_s3 b = attempted b.faults b

-- `BankPDFStore.get`: a missing key is None.
unfoldable pub get_object : String → Exec Bucket (Option String)
unfolding call_s3
get_object key = do call_s3; λ b. (ok (b.objects key), b)

-- `BankPDFStore.put`
unfoldable pub put_object : String → String → Exec Bucket (Unit {0})
unfolding call_s3
put_object key body = do
  call_s3
  λ b. (ok tt, record b { objects = λ k. if key == k then some body else b.objects k })

unfoldable pub receipt_key : String → String → String
receipt_key account_id tx_public_id =
    concat "receipts/" (concat account_id (concat "/" (concat tx_public_id ".pdf")))

-- `f"receipt-{detail.get('type') or 'tx'}-{public_id}.pdf"`
unfoldable pub receipt_name : TransactionDetail → String → String
receipt_name d public_id =
    concat "receipt-" (
      concat (if d.row.type == "" then "tx" else d.row.type) (concat "-" (concat public_id ".pdf")))

-- The name of the bucket, stripped, and the layout of a receipt.
pub record Files : Type 0 where
  pub bucket : String
  pub build_receipt_pdf : TransactionDetail → String

module _ (f : Files) where
  -- `BankPDFStore.enabled`
  unfoldable pub enabled : Bool
  enabled = not (f.bucket == "")

  unfoldable pub cached : String → Exec Bucket (Option String)
  unfolding enabled
  cached key = if enabled then get_object key else pure none

  unfoldable pub keep : String → String → Exec Bucket (Unit {0})
  unfolding enabled
  keep key pdf = if enabled then put_object key pdf else pure tt

  unfoldable pub built_unless : String → TransactionDetail → Option String → Exec Bucket String
  unfolding keep
  built_unless key d (some pdf) = pure pdf
  built_unless key d none = do keep key (f.build_receipt_pdf d); pure (f.build_receipt_pdf d)

  -- The file of a transaction that is shown, and its name.
  unfoldable pub receipt_of : TransactionDetail → String → Exec Bucket (String × String)
  unfolding cached built_unless receipt_key receipt_name
  receipt_of d public_id = do
    found ← cached (receipt_key d.row.account_id public_id)
    pdf ← built_unless (receipt_key d.row.account_id public_id) d found
    pure (pdf, receipt_name d public_id)

  -- `get_receipt_pdf`
  unfoldable pub get_receipt_pdf : Clerk → String → String → Db → Exec Bucket (String × String)
  unfolding receipt_of
  get_receipt_pdf c subject public_id db = do
    d ← lift (get_transaction c subject public_id db)
    receipt_of d public_id
