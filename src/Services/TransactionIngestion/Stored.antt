-- ===== src/Services/TransactionIngestion/Stored.antt =====
-- What one ingestion stores.

use cn_property_agent.Prelude.{
  ◌≡◌, String, string_eq, subst, ok-injective, ok-ne-err, true, false, some, List, [], ◌∷◌, arith,
  ok, contains, Distinct, Bool-cases, inl, inr, All, All-append, Result-cases, Option-cases,
}
use cn_property_agent.Floats.{Floats}
use cn_property_agent.Utils.{TextTools}
use cn_property_agent.Domain.Transaction.{Transaction, valid_transaction}
use cn_property_agent.Providers.Dto.{RawTransactionRecord}
use cn_property_agent.Services.Normalization.Gates.{
  Outcome, normalized, rejected, ToleranceArg, float_arg, validate_unit_price_tolerance,
}
use cn_property_agent.Services.Normalization.Chain.{normalize_transaction}
use cn_property_agent.Services.Normalization.Soundness.{normalize_transaction-Sound}
use cn_property_agent.Storage.Table.{find, upsert_all, overwrite}
use cn_property_agent.Storage.Table.Laws.{find_of_contains}
use cn_property_agent.Storage.Table.Replay.{find-upsert_all_absent}
use cn_property_agent.Storage.Transactions.{transaction_key}
use cn_property_agent.Storage.Transactions.Laws.{transaction-IsBand, find-upsert_all_row}
use cn_property_agent.Services.TransactionIngestion.{
  TransactionIngestionRequest, TransactionIngestionResult, TransactionProvider, Batch, empty_batch,
  accepted_ids, take_outcome, collect, ingest,
}
use cn_property_agent.Services.TransactionIngestion.Accounting.{collect_lem}
use cn_property_agent.Services.TransactionIngestion.Replay.{upsert_many-Written}

module _ {F : Type 0} ⦃fl : Floats F⦄ where
  -- The tolerance that a service keeps passes its own validation.
  pub validate_unit_price_tolerance_idem :
      (arg : ToleranceArg F) (tolerance : F)
      → validate_unit_price_tolerance arg ≡ ok tolerance
      → validate_unit_price_tolerance (float_arg tolerance) ≡ ok tolerance
  unfolding validate_unit_price_tolerance
  validate_unit_price_tolerance_idem arg tolerance h = ground arith

module _ {F : Type 0} ⦃fl : Floats F⦄ (tools : TextTools) (tolerance : F)
    (provider : TransactionProvider F) (request : TransactionIngestionRequest F)
    (valid : validate_unit_price_tolerance (float_arg tolerance) ≡ ok tolerance) where
  -- A valid transaction of the requested community.
  abbrev pub Belongs : Transaction F → Type 0
  Belongs t = (valid_transaction t ≡ true) × (t.community_id ≡ request.community.community_id)

  take_outcome-Belongs :
      (r : RawTransactionRecord F) (o : Outcome F) (b : Batch F)
      → normalize_transaction tools request.community request.start_date request.end_date
          (float_arg tolerance)
          r
        ≡ ok o
      → All Belongs b.accepted
      → All Belongs (take_outcome o b).accepted
  unfolding take_outcome
  take_outcome-Belongs r (rejected x) b h a = a
  take_outcome-Belongs r (normalized n) b h a =
      let s =
        normalize_transaction-Sound tools request.community request.start_date request.end_date
          (float_arg tolerance) tolerance r n valid h in
      elim (Bool-cases (contains n.transaction.transaction_id (accepted_ids b))) [
        | inl old ↦ rw old a
        | inr new ↦
            rw new
              (All-append Belongs b.accepted (n.transaction ∷ []) a ((s.is_valid, s.subject), tt))
      ]

  collect-Belongs :
      (rs : List (RawTransactionRecord F)) (b b' : Batch F)
      → collect tools tolerance request rs b ≡ ok b'
      → All Belongs b.accepted
      → All Belongs b'.accepted
  unfolding collect
  collect-Belongs [] b b' h a = subst (λ x. All Belongs x.accepted) (ok-injective h) a
  collect-Belongs (r ∷ rs) b b' h a =
      elim (Result-cases (
        normalize_transaction tools request.community request.start_date request.end_date
          (float_arg tolerance) r)) [
            | inl (o, e) ↦
                collect-Belongs rs (take_outcome o b) b' (rw (e, collect) at h)
                  (take_outcome-Belongs r o b e a)
            | inr (x, e) ↦ absurd (ok-ne-err (rw (e, collect) at h))
          ]

  -- A run that returns has collected a batch and written it.
  ingest_returns :
      (rows rows' : List (Transaction F)) (result : TransactionIngestionResult)
      → ingest tools tolerance provider request rows ≡ (ok result, rows')
      → (b : Batch F) × (result.transaction_ids ≡ accepted_ids b)
        × (rows' ≡ upsert_all transaction_key overwrite b.accepted rows)
        × All Belongs b.accepted
        × Distinct (accepted_ids b)
  unfolding ingest
  ingest_returns rows rows' result h =
      elim (Option-cases (provider request.community request.start_date request.end_date)) [
        | inl failed ↦ absurd (ground arith)
        | inr (fetched, p) ↦
            elim (Result-cases (collect tools tolerance request fetched.parsed empty_batch)) [
              | inl (b, q) ↦ (
                b,
                ground (arith, upsert_many-Written b.accepted rows),
                ground (arith, upsert_many-Written b.accepted rows),
                collect-Belongs fetched.parsed empty_batch b q tt,
                (collect_lem tools tolerance request fetched.parsed empty_batch b q tt).1,
              )
              | inr (x, q) ↦ absurd (ground arith)
            ]
      ]

  -- When the service's tolerance validates and `ingest` returns, each identity in the report is
  -- stored as a valid transaction of the requested community, and every row with another identity
  -- is as it was.
  pub ingest_stores :
      (rows rows' : List (Transaction F)) (result : TransactionIngestionResult)
      → ingest tools tolerance provider request rows ≡ (ok result, rows')
      → ((k : String)
          → contains k result.transaction_ids ≡ true
          → (t : Transaction F) × (find transaction_key k rows' ≡ some t) × Belongs t)
        × ((k : String)
            → contains k result.transaction_ids ≡ false
            → find transaction_key k rows' ≡ find transaction_key k rows)
  ingest_stores rows rows' result h =
      let (b, ids, table, valid_rows, distinct) = ingest_returns rows rows' result h in
      (
        (λ k m.
            let (t, found, p) =
              find_of_contains transaction_key Belongs k b.accepted valid_rows (rw ids at m) in
            (t, rw table (find-upsert_all_row k b.accepted rows t distinct found), p)),
        (λ k m. rw table (
            find-upsert_all_absent transaction_key overwrite transaction-IsBand k b.accepted rows
              (rw ids at m))),
      )
