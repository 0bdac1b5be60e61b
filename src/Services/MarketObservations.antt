-- ===== src/Services/MarketObservations.antt =====
-- services/market_observation_ingestion.py and market_observation_query.py. The state is the table
-- `market_observation`; the provider and the clock of the log line are outside.
pub mod Replay
use cn_property_agent.Prelude.{
  ℕ, ◌+◌, String, string_eq, Bool, true, not, Option, none, some, List, [], ◌∷◌, map, Result, ok,
  err, ◌&&◌, ◌==◌, length, anyb, add_once, if◌then◌else◌,
}
use cn_property_agent.Prelude.Text.{is_blank}
use cn_property_agent.Domain.Common.{
  Date, Raised, validation_error, provider_fetch_error, provider_contract_error, nonempty, optional,
}
use cn_property_agent.Domain.Context.{MarketObservation}
use cn_property_agent.Providers.Fetch.{MarketObservationFetchResult}
use cn_property_agent.Storage.Market.{Filters, upsert_observation, list_for_city}
use cn_property_agent.Services.TransactionIngestion.{valid_range}

pub record MarketObservationIngestionRequest : Type 0 where
  pub city_code : String
  pub start_date : Option Date
  pub end_date : Option Date
  pub geography_code : Option String

pub record MarketObservationIngestionResult : Type 0 where
  pub city_code : String
  pub source_observation_count : ℕ
  pub persisted_observation_count : ℕ
  pub observation_ids : List String

-- `fetch_market_observations`: `none` where the call raises.
abbrev pub MarketObservationProvider : Type 0 → Type 0
MarketObservationProvider F =
    MarketObservationIngestionRequest → Option (MarketObservationFetchResult (MarketObservation F))

-- The local variables of `ingest`.
pub record Progress : Type 0 where
  pub persisted_count : ℕ
  pub observation_ids : List String

report : String → ℕ → Progress → MarketObservationIngestionResult
report city_code count p = record {
  city_code = city_code;
  source_observation_count = count;
  persisted_observation_count = p.persisted_count;
  observation_ids = p.observation_ids;
}

-- `MarketObservationQuery(…)`: its validators.
unfoldable pub valid_query : String → Filters → Bool
unfolding is_blank valid_range
valid_query city_code f =
    nonempty city_code
    && (not (is_blank city_code)
        && (optional (λ t. not (is_blank t)) f.geography_type
            && (optional (λ t. not (is_blank t)) f.geography_code
                && (optional (λ t. not (is_blank t)) f.metric_name
                    && valid_range f.start_date f.end_date))))

module _ {F : Type 0} where
  -- The loop over the observations.
  unfoldable pub persist :
      List (MarketObservation F)
      → Progress
      → List (MarketObservation F)
      → Progress × List (MarketObservation F)
  unfolding upsert_observation
  persist [] p rows = (p, rows)
  persist (o ∷ os) p rows =
      persist os
        (record {
          persisted_count = p.persisted_count + 1;
          observation_ids = add_once o.observation_id p.observation_ids;
        })
        (upsert_observation o rows)

  abbrev pub is_foreign : String → MarketObservation F → Bool
  is_foreign city_code o = not (o.city_code == city_code)

  -- `_require_requested_city`, then the loop.
  store_fetched :
      String
      → List (MarketObservation F)
      → List (MarketObservation F)
      → Result Raised MarketObservationIngestionResult × List (MarketObservation F)
  unfolding report persist
  store_fetched city_code observations rows =
      if anyb (is_foreign city_code) observations
      then (err provider_contract_error, rows)
      else let (p, rows') =
          persist observations (record { persisted_count = 0; observation_ids = [] }) rows in
        (ok (report city_code (length observations) p), rows')

  unfoldable pub ingest :
      MarketObservationProvider F
      → MarketObservationIngestionRequest
      → List (MarketObservation F)
      → Result Raised MarketObservationIngestionResult × List (MarketObservation F)
  unfolding store_fetched
  ingest provider request rows = elim (provider request) [
    | none ↦ (err provider_fetch_error, rows)
    | some fetched ↦ store_fetched request.city_code fetched.observations rows
  ]

  -- `get_market_observations` of a query that is constructed from these arguments
  unfoldable pub get_market_observations :
      String → Filters → List (MarketObservation F) → Result Raised (List (MarketObservation F))
  unfolding valid_query list_for_city
  get_market_observations city_code f rows =
      if valid_query city_code f then ok (list_for_city city_code f rows) else err validation_error
