-- ===== src/Receipts/Kept.antt =====
-- A receipt stays what it was when it was first served (app/services/statement_storage.py).
use e_bank_api.Prelude.{sym, String, ◌≡◌, ◌≢◌, ap, ◌∙◌, some, [], arith, eq_refl, ne→eq_false}
use e_bank_api.Models.{Db, Outcome, ok, lift, ◌>>=◌, >>=-ok}
use e_bank_api.Filters.{Clerk}
use e_bank_api.Statements.{TransactionDetail, get_transaction}
use e_bank_api.Receipts.{
  Bucket, call_s3, get_object, put_object, receipt_key, receipt_name, Files, enabled, cached, keep,
  built_unless, receipt_of, get_receipt_pdf,
}

module _ (f : Files) (set : f.bucket ≢ "") where
  -- What the bucket holds of a receipt that was served.
  receipt_of-kept :
      (d : TransactionDetail) (id pdf name : String) (b b' : Bucket)
      → b.faults ≡ []
      → receipt_of f d id b ≡ (ok (pdf, name), b')
      → (b'.objects (receipt_key d.row.account_id id) ≡ some pdf) × (b'.faults ≡ [])
  unfolding receipt_of cached enabled built_unless keep get_object put_object call_s3 ◌>>=◌
  receipt_of-kept d id pdf name b b' calm served =
      ground (arith, ne→eq_false f.bucket "" set, eq_refl (receipt_key d.row.account_id id))

  -- What is there is served.
  receipt_of-found :
      (d : TransactionDetail) (id pdf : String) (b : Bucket)
      → b.faults ≡ []
      → b.objects (receipt_key d.row.account_id id) ≡ some pdf
      → receipt_of f d id b ≡ (ok (pdf, receipt_name d id), b)
  unfolding receipt_of cached enabled built_unless get_object call_s3 ◌>>=◌
  receipt_of-found d id pdf b calm there = ground (arith, ne→eq_false f.bucket "" set)

  -- Where a bucket is set and S3 does not fail: once the receipt of a transaction has been served, every later
  -- request for it that may see the transaction, on whatever tables, is answered with the same
  -- file, and the bucket stays as it is, if the transaction is still of the same account.
  pub get_receipt_pdf_twice :
      (c : Clerk) (subject subject' id pdf name : String) (db db' : Db) (d d' : TransactionDetail)
      (b b' : Bucket)
      → b.faults ≡ []
      → get_transaction c subject id db ≡ ok d
      → get_receipt_pdf f c subject id db b ≡ (ok (pdf, name), b')
      → get_transaction c subject' id db' ≡ ok d'
      → d'.row.account_id ≡ d.row.account_id
      → get_receipt_pdf f c subject' id db' b' ≡ (ok (pdf, receipt_name d' id), b')
  unfolding get_receipt_pdf
  get_receipt_pdf_twice c subject subject' id pdf name db db' d d' b b' calm shown served again
        same =
      let (there, still) = receipt_of-kept d id pdf name b b' calm (
        sym (
          >>=-ok (lift (get_transaction c subject id db)) (λ d. receipt_of f d id) b
            (ap (λ (r : Outcome TransactionDetail). (r, b)) shown))
        ∙ served) in
      >>=-ok (lift (get_transaction c subject' id db')) (λ d. receipt_of f d id) b'
        (ap (λ (r : Outcome TransactionDetail). (r, b')) again)
      ∙ receipt_of-found d' id pdf b' still (rw same there)
