-- ===== src/Services/TransactionIngestion.antt =====
-- services/transaction_ingestion.py: one fetch through the gates into the table. The provider and
-- the clock of the log line are outside; the state is the table `property_transaction`.
pub mod Accounting
pub mod Replay
pub mod Stored
use cn_property_agent.Prelude.{
  ℕ, String, string_eq, Bool, true, false, Option, none, some, List, [], ◌∷◌, ◌++◌, map, Result, ok,
  err, ◌>>=◌, contains, leb, if◌then◌else◌,
}
use cn_property_agent.Floats.{Floats}
use cn_property_agent.Utils.{TextTools}
use cn_property_agent.Domain.Common.{Date, Raised, validation_error, provider_fetch_error}
use cn_property_agent.Domain.Community.{Community}
use cn_property_agent.Domain.Transaction.{Transaction}
use cn_property_agent.Providers.Dto.{RawTransactionRecord}
use cn_property_agent.Providers.Parsing.{ParseRejection}
use cn_property_agent.Providers.Fetch.{FetchResult, parsed_count}
use cn_property_agent.Services.Normalization.Gates.{
  TransactionRejection, duplicate_in_batch, Warning, NormalizedTransaction, Outcome, normalized,
  rejected, float_arg,
}
use cn_property_agent.Services.Normalization.Chain.{normalize_transaction}
use cn_property_agent.Storage.Transactions.{transaction_key, upsert_many}

pub record TransactionIngestionRequest (F : Type 0) : Type 0 where
  pub community : Community F
  pub start_date : Option Date
  pub end_date : Option Date

-- `validate_range`
unfoldable pub valid_range : Option Date → Option Date → Bool
valid_range (some start) (some end) = leb start end
valid_range _ _ = true

-- `TransactionProvider.fetch_transactions`: `none` where the call raises.
abbrev pub TransactionProvider : Type 0 → Type 0
TransactionProvider F =
    Community F → Option Date → Option Date → Option (FetchResult (RawTransactionRecord F))

pub record TransactionIngestionResult : Type 0 where
  pub community_id : String
  pub start_date : Option Date
  pub end_date : Option Date
  pub source_row_count : ℕ
  pub parsed_count : ℕ
  pub upserted_count : ℕ
  pub transaction_ids : List String
  pub parse_rejections : List ParseRejection
  pub quality_rejections : List TransactionRejection
  -- f"{transaction_id}: {warning}" as its two parts
  pub warnings : List (String × Warning)

-- The local variables of `ingest`; `accepted` is a dict by `transaction_id`, in insertion order.
pub record Batch (F : Type 0) : Type 0 where
  pub accepted : List (Transaction F)
  pub rejections : List TransactionRejection
  pub warnings : List (String × Warning)

module _ {F : Type 0} where
  abbrev pub empty_batch : Batch F
  empty_batch = record { accepted = []; rejections = []; warnings = [] }

  abbrev pub accepted_ids : Batch F → List String
  accepted_ids b = map transaction_key b.accepted

  duplicate_of : Transaction F → TransactionRejection
  duplicate_of t = record {
    source = t.source;
    source_transaction_id = t.source_transaction_id;
    source_url = t.source_url;
    reason = duplicate_in_batch;
  }

  -- `_accept`
  unfoldable pub accept : NormalizedTransaction F → Batch F → Batch F
  unfolding duplicate_of
  accept n b =
      let t = n.transaction in
      if contains t.transaction_id (accepted_ids b)
      then record b { rejections = b.rejections ++ (duplicate_of t ∷ []) }
      else record b {
        accepted = b.accepted ++ (t ∷ []);
        warnings = b.warnings ++ map (λ w. (t.transaction_id, w)) n.warnings;
      }

  -- The body of the loop over the fetched records.
  unfoldable pub take_outcome : Outcome F → Batch F → Batch F
  unfolding accept
  take_outcome (rejected r) b = record b { rejections = b.rejections ++ (r ∷ []) }
  take_outcome (normalized n) b = accept n b

module _ {F : Type 0} ⦃fl : Floats F⦄ (tools : TextTools) (tolerance : F) where
  unfoldable pub collect :
      TransactionIngestionRequest F
      → List (RawTransactionRecord F)
      → Batch F
      → Result Raised (Batch F)
  collect request [] b = ok b
  collect request (r ∷ rs) b =
      elim (normalize_transaction tools request.community request.start_date request.end_date
        (float_arg tolerance) r) [
          | ok outcome ↦ collect request rs (take_outcome outcome b)
          | err e ↦ err e
        ]

  -- What `ingest` returns once the batch is collected and written.
  abbrev report :
      TransactionIngestionRequest F
      → FetchResult (RawTransactionRecord F)
      → Batch F
      → ℕ
      → TransactionIngestionResult
  report request fetched b upserted = record {
    community_id = request.community.community_id;
    start_date = request.start_date;
    end_date = request.end_date;
    source_row_count = fetched.source_row_count;
    parsed_count = parsed_count fetched;
    upserted_count = upserted;
    transaction_ids = accepted_ids b;
    parse_rejections = fetched.parse_rejections;
    quality_rejections = b.rejections;
    warnings = b.warnings;
  }

  store :
      TransactionIngestionRequest F
      → FetchResult (RawTransactionRecord F)
      → Result Raised (Batch F)
      → List (Transaction F)
      → Result Raised TransactionIngestionResult × List (Transaction F)
  store request fetched (err e) rows = (err e, rows)
  store request fetched (ok b) rows =
      let (written, rows') = upsert_many b.accepted rows in
      (written >>= (λ n. ok (report request fetched b n)), rows')

  unfoldable pub ingest :
      TransactionProvider F
      → TransactionIngestionRequest F
      → List (Transaction F)
      → Result Raised TransactionIngestionResult × List (Transaction F)
  unfolding store
  ingest provider request rows =
      elim (provider request.community request.start_date request.end_date) [
        | none ↦ (err provider_fetch_error, rows)
        | some fetched ↦ store request fetched (collect request fetched.parsed empty_batch) rows
      ]
