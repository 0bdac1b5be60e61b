-- ===== src/Services/TransactionIngestion/Replay.antt =====
-- What one ingestion leaves in the table, and that repeating it changes nothing.

use cn_property_agent.Prelude.{
  ℕ, ◌≡◌, ◌⊎◌, refl, string_eq, List, [], ◌∷◌, arith, Result, ok, err, Distinct, inl, inr, All,
  Result-cases, Option-cases,
}
use cn_property_agent.Floats.{Floats}
use cn_property_agent.Utils.{TextTools}
use cn_property_agent.Domain.Common.{Raised, constraint_error}
use cn_property_agent.Domain.Transaction.{Transaction}
use cn_property_agent.Storage.Table.{keys, upsert, upsert_all, overwrite}
use cn_property_agent.Storage.Table.Replay.{upsert_all-Distinct, upsert_all_idem}
use cn_property_agent.Storage.Transactions.{transaction_key, upsert_transaction, upsert_many}
use cn_property_agent.Storage.Transactions.Laws.{Storable, transaction-IsBand, upsert_many_lem}
use cn_property_agent.Services.TransactionIngestion.{
  TransactionIngestionRequest, TransactionIngestionResult, TransactionProvider, empty_batch,
  collect, ingest,
}

module _ {F : Type 0} where
  -- A batch that is written whole consists of rows that fit, and is written as one would expect.
  abbrev pub Written :
      List (Transaction F) → List (Transaction F) → Result Raised ℕ × List (Transaction F) → Type 0
  Written items rows (ok n, rows') =
      All Storable items × (rows' ≡ upsert_all transaction_key overwrite items rows)
  Written items rows (err e, rows') = e ≡ constraint_error

  pub upsert_many-Written :
      (items rows : List (Transaction F)) → Written items rows (upsert_many items rows)
  unfolding upsert_many upsert_transaction upsert_all
  upsert_many-Written [] rows = (tt, refl)
  upsert_many-Written (item ∷ items) rows =
      ground (arith, upsert_many-Written items (upsert transaction_key overwrite item rows))

  upsert_many_replay :
      (items rows rows' : List (Transaction F)) (n : ℕ)
      → Distinct (keys transaction_key rows)
      → upsert_many items rows ≡ (ok n, rows')
      → (upsert_many items rows' ≡ (ok n, rows')) × Distinct (keys transaction_key rows')
  upsert_many_replay items rows rows' n d h =
      let w : Written items rows (ok n, rows') = rw h at (upsert_many-Written items rows) in
      ground (
        arith,
        h,
        w.0,
        w.1,
        upsert_many_lem items rows,
        upsert_many_lem items rows',
        upsert_all_idem transaction_key overwrite transaction-IsBand items rows d,
        upsert_all-Distinct transaction_key overwrite transaction-IsBand items rows d,
      )

module _ {F : Type 0} ⦃fl : Floats F⦄ (tools : TextTools) (tolerance : F)
    (provider : TransactionProvider F) (request : TransactionIngestionRequest F) where
  -- When `ingest` raises, the table is as it was, unless the exception is a constraint of the
  -- schema: a value too large for its column.
  pub ingest_raises :
      (rows rows' : List (Transaction F)) (e : Raised)
      → ingest tools tolerance provider request rows ≡ (err e, rows')
      → (rows' ≡ rows) ⊎ (e ≡ constraint_error)
  unfolding ingest
  ingest_raises rows rows' e h =
      elim (Option-cases (provider request.community request.start_date request.end_date)) [
        | inl failed ↦ ground arith
        | inr (fetched, p) ↦
            elim (Result-cases (collect tools tolerance request fetched.parsed empty_batch)) [
              | inl (b, q) ↦ ground (arith, upsert_many-Written b.accepted rows)
              | inr (x, q) ↦ ground arith
            ]
      ]

  -- When the primary key is unique in the table and `ingest` returns, the key is still unique, and
  -- ingesting the same fetch again returns the same report and leaves the table as it is.
  pub ingest_replay :
      (rows rows' : List (Transaction F)) (result : TransactionIngestionResult)
      → Distinct (keys transaction_key rows)
      → ingest tools tolerance provider request rows ≡ (ok result, rows')
      → (ingest tools tolerance provider request rows' ≡ (ok result, rows'))
        × Distinct (keys transaction_key rows')
  unfolding ingest
  ingest_replay rows rows' result d h =
      elim (Option-cases (provider request.community request.start_date request.end_date)) [
        | inl failed ↦ ground arith
        | inr (fetched, p) ↦
            elim (Result-cases (collect tools tolerance request fetched.parsed empty_batch)) [
              | inl (b, q) ↦
                  ground (arith, upsert_many_replay b.accepted rows rows' result.upserted_count d)
              | inr (x, q) ↦ ground arith
            ]
      ]
