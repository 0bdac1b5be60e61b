-- ===== src/Tests/Ingesting.antt =====
-- Runs of `ingest` over transactions, and the theorems about it at those inputs.
use cn_property_agent.Prelude.{
  ◌+◌, ◌≡◌, ◌⊎◌, refl, String, string_eq, none, some, true, false, List, [], ◌∷◌, ok, err, length,
  contains, Distinct,
}
use cn_property_agent.Prelude.Int.{ℤ, pos, ◌+ℤ◌, ◌-ℤ◌, ◌*ℤ◌}
use cn_property_agent.Prelude.Text.{strip}
use cn_property_agent.Domain.Common.{provider_fetch_error, constraint_error}
use cn_property_agent.Domain.Transaction.{Transaction, valid_transaction}
use cn_property_agent.Storage.Table.{find, keys, upsert}
use cn_property_agent.Storage.Transactions.{
  transaction_key, storable, upsert_transaction, upsert_many,
}
use cn_property_agent.Services.Normalization.Gates.{
  duplicate_in_batch, derived_unit_price, validate_unit_price_tolerance, in_future, before, after,
  negative, required_positive, nonpositive_when_present, checked_unit_price, build_transaction_id,
  coerce_floor_bucket,
}
use cn_property_agent.Services.Normalization.Chain.{
  rejection_of, source_identity, date_gates, measure_gates, candidate, normalize_transaction,
}
use cn_property_agent.Services.TransactionIngestion.{
  TransactionIngestionRequest, TransactionIngestionResult, TransactionProvider, collect,
  take_outcome, ingest,
}
use cn_property_agent.Services.TransactionIngestion.Accounting.{ingest_accounting}
use cn_property_agent.Services.TransactionIngestion.Replay.{ingest_raises, ingest_replay}
use cn_property_agent.Services.TransactionIngestion.Stored.{Belongs, ingest_stores}
use cn_property_agent.Tests.Samples.{whole, tools, garden, deal}
use cn_property_agent.Tests.Normalizing.{flat, tolerance_one}

abbrev request : TransactionIngestionRequest ℤ
request = record { community = garden; start_date = none; end_date = none }

-- One row that parsed, and the same row once more.
abbrev source : TransactionProvider ℤ
source community start_date end_date = some (record {
  parsed = deal "t1" 738999 100 500000 ∷ deal "t1" 738999 100 500000 ∷ [];
  parse_rejections = [];
  source_row_count = 3;
})

abbrev down : TransactionProvider ℤ
down community start_date end_date = none

abbrev one_report : TransactionIngestionResult
one_report = record {
  community_id = "c-1";
  start_date = none;
  end_date = none;
  source_row_count = 3;
  parsed_count = 2;
  upserted_count = 1;
  transaction_ids = "tx-lianjia\u{1f}t1" ∷ [];
  parse_rejections = [];
  quality_rejections = rejection_of (deal "t1" 738999 100 500000) duplicate_in_batch ∷ [];
  warnings = ("tx-lianjia\u{1f}t1", derived_unit_price) ∷ [];
}

ingests_one : ingest tools (pos 1) source request [] ≡ (ok one_report, flat ∷ [])
unfolding ingest collect take_outcome upsert_many upsert_transaction storable upsert rejection_of
    normalize_transaction source_identity date_gates measure_gates candidate in_future before after
    negative required_positive nonpositive_when_present checked_unit_price
    validate_unit_price_tolerance build_transaction_id coerce_floor_bucket valid_transaction strip
    ◌+ℤ◌ ◌-ℤ◌ ◌*ℤ◌
ingests_one = refl

one_report_returned : (ingest tools (pos 1) source request []).0 ≡ ok one_report
one_report_returned = rw ingests_one

down_raises : ingest tools (pos 1) down request [] ≡ (err provider_fetch_error, [])
unfolding ingest
down_raises = refl

ingest_accounting_example :
    (2 ≡ 1 + length one_report.quality_rejections)
    × (length one_report.transaction_ids ≡ 1)
    × Distinct one_report.transaction_ids
ingest_accounting_example =
    ingest_accounting tools (pos 1) request source [] one_report one_report_returned

ingest_raises_example :
    (◌≡◌ {A = List (Transaction ℤ)} [] []) ⊎ (provider_fetch_error ≡ constraint_error)
ingest_raises_example =
    ingest_raises tools (pos 1) down request [] [] provider_fetch_error down_raises

ingest_replay_example :
    (ingest tools (pos 1) source request (flat ∷ []) ≡ (ok one_report, flat ∷ []))
    × Distinct (keys transaction_key (flat ∷ []))
ingest_replay_example =
    ingest_replay tools (pos 1) source request [] (flat ∷ []) one_report tt ingests_one

ingest_stores_example :
    ((k : String)
      → contains k one_report.transaction_ids ≡ true
      → (t : Transaction ℤ) × (find transaction_key k (flat ∷ []) ≡ some t)
        × Belongs tools (pos 1) source request tolerance_one t)
    × ((k : String)
        → contains k one_report.transaction_ids ≡ false
        → find transaction_key k (flat ∷ []) ≡ find transaction_key k [])
ingest_stores_example =
    ingest_stores tools (pos 1) source request tolerance_one [] (flat ∷ []) one_report ingests_one
