-- ===== src/Services/TransactionIngestion/Accounting.antt =====
-- No row is lost between the fetch and the report.
use mathlib.Core.List.{map-append}
use cn_property_agent.Prelude.{
  ℕ, ◌+◌, ◌≡◌, refl, string_eq, List, [], ◌∷◌, arith, ok, length, length-append, contains, Distinct,
  Result-cases, Option-cases, IfOk, Bool-cases, Distinct-append_one, inl, inr, length-map,
}
use cn_property_agent.Floats.{Floats}
use cn_property_agent.Utils.{TextTools}
use cn_property_agent.Domain.Transaction.{Transaction}
use cn_property_agent.Providers.Dto.{RawTransactionRecord}
use cn_property_agent.Services.Normalization.Gates.{Outcome, normalized, rejected, float_arg}
use cn_property_agent.Services.Normalization.Chain.{normalize_transaction}
use cn_property_agent.Storage.Table.{upsert, overwrite}
use cn_property_agent.Storage.Transactions.{transaction_key, upsert_transaction, upsert_many}
use cn_property_agent.Services.TransactionIngestion.{
  TransactionIngestionRequest, TransactionIngestionResult, TransactionProvider, Batch, empty_batch,
  accepted_ids, take_outcome, collect, ingest,
}

module _ {F : Type 0} where
  abbrev pub handled : Batch F → ℕ
  handled b = length b.accepted + length b.rejections

  pub handled-take_outcome :
      (o : Outcome F) (b : Batch F) → handled (take_outcome o b) ≡ handled b + 1
  unfolding take_outcome
  handled-take_outcome (rejected r) b = omega (arith, length-append b.rejections (r ∷ []))
  handled-take_outcome (normalized n) b = grind (arith, length-append)

  pub accepted_ids-Distinct :
      (o : Outcome F) (b : Batch F)
      → Distinct (accepted_ids b)
      → Distinct (accepted_ids (take_outcome o b))
  unfolding take_outcome
  accepted_ids-Distinct (rejected r) b d = d
  accepted_ids-Distinct (normalized n) b d =
      elim (Bool-cases (contains n.transaction.transaction_id (accepted_ids b))) [
        | inl old ↦ rw old d
        | inr new ↦ rw (new, map-append) (Distinct-append_one _ _ new d)
      ]

  -- The number that `upsert_many` returns is that of the rows it was given.
  count-upsert_many :
      (items rows : List (Transaction F)) → IfOk (λ n. n ≡ length items) (upsert_many items rows).0
  unfolding upsert_many upsert_transaction
  count-upsert_many [] rows = refl
  count-upsert_many (item ∷ items) rows =
      ground (arith, count-upsert_many items (upsert transaction_key overwrite item rows))

module _ {F : Type 0} ⦃fl : Floats F⦄ (tools : TextTools) (tolerance : F)
    (request : TransactionIngestionRequest F) where
  pub collect_lem :
      (rs : List (RawTransactionRecord F)) (b b' : Batch F)
      → collect tools tolerance request rs b ≡ ok b'
      → Distinct (accepted_ids b)
      → (handled b' ≡ handled b + length rs) × Distinct (accepted_ids b')
  unfolding collect
  collect_lem [] b b' h d = ground arith
  collect_lem (r ∷ rs) b b' h d =
      elim (Result-cases (
        normalize_transaction tools request.community request.start_date request.end_date
          (float_arg tolerance) r)) [
            | inl (o, e) ↦
                let rest =
                  collect_lem rs (take_outcome o b) b' (rw (e, collect) at h)
                    (accepted_ids-Distinct o b d) in
                (omega (arith, rest.0, handled-take_outcome o b), rest.1)
            | inr (x, e) ↦ ground arith
          ]

  -- When `ingest` returns, the parsed records are as many as the upserted ones and the rejections
  -- together, and the report names as many identities as were upserted, each once.
  pub ingest_accounting :
      (provider : TransactionProvider F) (rows : List (Transaction F))
      (result : TransactionIngestionResult)
      → (ingest tools tolerance provider request rows).0 ≡ ok result
      → (result.parsed_count ≡ result.upserted_count + length result.quality_rejections)
        × (length result.transaction_ids ≡ result.upserted_count)
        × Distinct result.transaction_ids
  unfolding ingest
  ingest_accounting provider rows result h =
      elim (Option-cases (provider request.community request.start_date request.end_date)) [
        | inl failed ↦ ground arith
        | inr (fetched, e) ↦
            elim (Result-cases (collect tools tolerance request fetched.parsed empty_batch)) [
              | inl (b, f) ↦ ground (
                arith,
                collect_lem fetched.parsed empty_batch b f tt,
                count-upsert_many b.accepted rows,
                length-map transaction_key b.accepted,
              )
              | inr (x, f) ↦ ground arith
            ]
      ]
