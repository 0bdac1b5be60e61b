-- ===== src/Services/MarketObservations/Replay.antt =====
-- What one ingestion of market observations leaves, and that repeating it changes nothing.
use cn_property_agent.Prelude.{
  ◌+◌, ◌≡◌, refl, String, string_eq, List, [], ◌∷◌, ◌||◌, arith, ok, err, Distinct, contains,
  length, add_all, add_all-Distinct, contains-add_all, Option-cases, inl, inr,
}
use cn_property_agent.Domain.Common.{Raised}
use cn_property_agent.Domain.Context.{MarketObservation}
use cn_property_agent.Storage.Table.{keys, upsert, upsert_all, overwrite}
use cn_property_agent.Storage.Table.Replay.{
  IsBand, upsert_all_idem, upsert_all-Distinct, contains-upsert_all,
}
use cn_property_agent.Storage.Market.{observation_key}
use cn_property_agent.Services.MarketObservations.{
  MarketObservationIngestionRequest, MarketObservationIngestionResult, MarketObservationProvider,
  Progress, persist, ingest,
}

module _ {F : Type 0} where
  observation-IsBand : IsBand (observation_key {F = F}) overwrite
  observation-IsBand = record { keeps = λ old new. refl; assoc = λ a b c. refl; idem = λ a. refl }

  persist_lem :
      (os rows : List (MarketObservation F)) (p : Progress)
      → ((persist os p rows).0.persisted_count ≡ p.persisted_count + length os)
        × ((persist os p rows).0.observation_ids
            ≡ add_all (keys observation_key os) p.observation_ids)
        × ((persist os p rows).1 ≡ upsert_all observation_key overwrite os rows)
  unfolding persist upsert_all
  persist_lem [] rows p = (omega arith, refl, refl)
  persist_lem (o ∷ os) rows p =
      let (count, ids, table) = persist_lem os (upsert observation_key overwrite o rows) _ in
      (omega (arith, count), ids, table)

  module _ (provider : MarketObservationProvider F) (request : MarketObservationIngestionRequest)
      (rows rows' : List (MarketObservation F)) where
    -- When `ingest` of market observations raises, the table is as it was.
    pub ingest_market_raises :
        (e : Raised) → ingest provider request rows ≡ (err e, rows') → rows' ≡ rows
    unfolding ingest
    ingest_market_raises e h = elim (Option-cases (provider request)) [
      | inl failed ↦ ground (arith, h, failed)
      | inr (fetched, f) ↦ ground (arith, h, f)
    ]

    -- When `ingest` of market observations returns, as many were persisted as the source
    -- delivered, the report names each identity once, and the identities in the table are those of
    -- the report and those that were there.
    pub ingest_market_accounting :
        (result : MarketObservationIngestionResult)
        → ingest provider request rows ≡ (ok result, rows')
        → (result.persisted_observation_count ≡ result.source_observation_count)
          × Distinct result.observation_ids
          × ((k : String)
              → contains k (keys observation_key rows')
                ≡ (contains k result.observation_ids || contains k (keys observation_key rows)))
    unfolding ingest
    ingest_market_accounting result h = elim (Option-cases (provider request)) [
      | inl failed ↦ absurd (ground (arith, h, failed))
      | inr (fetched, f) ↦
          let os = fetched.observations in
          let ids = keys observation_key os in
          let (count, named, table) =
            persist_lem os rows (record { persisted_count = 0; observation_ids = [] }) in
          (
            ground (arith, h, f, count),
            ground (arith, h, f, named, add_all-Distinct ids [] tt),
            λ k. ground (
              arith,
              h,
              f,
              named,
              table,
              contains-add_all k ids [],
              contains-upsert_all observation_key overwrite observation-IsBand k os rows,
            ),
          )
    ]

    -- When the primary key is unique in the table and `ingest` of market observations returns, the
    -- key is still unique, and ingesting the same fetch again returns the same report and leaves
    -- the table as it is.
    pub ingest_market_replay :
        (result : MarketObservationIngestionResult)
        → Distinct (keys observation_key rows)
        → ingest provider request rows ≡ (ok result, rows')
        → (ingest provider request rows' ≡ (ok result, rows'))
          × Distinct (keys observation_key rows')
    unfolding ingest
    ingest_market_replay result d h = elim (Option-cases (provider request)) [
      | inl failed ↦ absurd (ground (arith, h, failed))
      | inr (fetched, f) ↦
          let os = fetched.observations in
          let p : Progress = record { persisted_count = 0; observation_ids = [] } in
          ground (
            arith,
            h,
            f,
            persist_lem os rows p,
            persist_lem os rows' p,
            upsert_all_idem observation_key overwrite observation-IsBand os rows d,
            upsert_all-Distinct observation_key overwrite observation-IsBand os rows d,
          )
    ]
