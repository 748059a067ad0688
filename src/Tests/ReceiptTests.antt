-- ===== src/Tests/ReceiptTests.antt =====
-- A receipt that is asked for twice, and the theorem at it.
use e_bank_api.Prelude.{ap, ◌∙◌, ◌≡◌, ◌≢◌, refl, String, none, [], arith, eq_iff}
use e_bank_api.Statements.{TransactionDetail, get_transaction}
use e_bank_api.Models.{Outcome, lift, >>=-ok, ok, ◌>>=◌}
use e_bank_api.Receipts.{
  Bucket, Files, receipt_name, receipt_of, cached, built_unless, put_object, get_object, call_s3,
  get_receipt_pdf,
}
use e_bank_api.Receipts.Kept.{get_receipt_pdf_twice}
use e_bank_api.Tests.StatementTests.{clerk, deposited, deposit_detail, detail_shown}

abbrev files : Files
files = record { bucket = "pdfs"; build_receipt_pdf = λ d. d.row.title }

abbrev no_objects : Bucket
no_objects = record { objects = λ key. none; faults = [] }

abbrev stored : Bucket
stored = (receipt_of files deposit_detail "t1" no_objects).1

set : ◌≢◌ {A = String} "pdfs" ""
set = ground (arith, eq_iff "pdfs" "")

written :
    receipt_of files deposit_detail "t1" no_objects
    ≡ (ok (deposit_detail.row.title, receipt_name deposit_detail "t1"), stored)
unfolding receipt_of cached built_unless put_object get_object call_s3 ◌>>=◌
written = refl

served :
    get_receipt_pdf files clerk "alice" "t1" deposited no_objects
    ≡ (ok (deposit_detail.row.title, receipt_name deposit_detail "t1"), stored)
unfolding get_receipt_pdf
served =
    >>=-ok (lift (get_transaction clerk "alice" "t1" deposited)) (λ d. receipt_of files d "t1")
      no_objects (ap (λ (r : Outcome TransactionDetail). (r, no_objects)) detail_shown)
    ∙ written

get_receipt_pdf_twice_example :
    get_receipt_pdf files clerk "alice" "t1" deposited stored
    ≡ (ok (deposit_detail.row.title, receipt_name deposit_detail "t1"), stored)
get_receipt_pdf_twice_example =
    get_receipt_pdf_twice files set clerk "alice" "alice" "t1" deposit_detail.row.title
      (receipt_name deposit_detail "t1") deposited deposited deposit_detail deposit_detail
      no_objects stored refl detail_shown served detail_shown refl
