-- ===== src/Tests/Market.antt =====
-- Runs over market observations and listing metrics, and the theorems about them at those inputs.
use mathlib.Core.List.Permᴰ
use cn_property_agent.Prelude.{
  ◌≡◌, ◌||◌, refl, String, string_eq, nat_eq, pair_eq, none, some, List, [], ◌∷◌, ok, err, contains,
  Distinct,
}
use cn_property_agent.Prelude.Int.{ℤ, pos, ◌-ℤ◌}
use cn_property_agent.Prelude.Sorting.{sorted}
use cn_property_agent.Prelude.Text.{str_ltb, is_blank}
use cn_property_agent.Domain.Common.{provider_contract_error, sold}
use cn_property_agent.Domain.Context.{MarketObservation}
use cn_property_agent.Domain.Listing.{ListingSnapshot}
use cn_property_agent.Storage.Table.{find, keys, upsert}
use cn_property_agent.Storage.Market.{Filters, observation_key, upsert_observation, list_for_city}
use cn_property_agent.Storage.Market.Query.{list_for_city-perm}
use cn_property_agent.Services.MarketObservations.{
  MarketObservationIngestionRequest, MarketObservationIngestionResult, MarketObservationProvider,
  persist, ingest, get_market_observations, valid_query,
}
use cn_property_agent.Services.MarketObservations.Replay.{
  ingest_market_raises, ingest_market_accounting, ingest_market_replay,
}
use cn_property_agent.Analytics.Common.{
  int_arg, validate_minimum_sample_count, validate_community_id, sorted_set, dedupe, median_metric,
  maximum,
}
use cn_property_agent.Analytics.Common.Median.{countb}
use cn_property_agent.Analytics.Listings.{
  CommunityListingMetrics, compute_community_listing_metrics, same_status,
}
use cn_property_agent.Analytics.Listings.Counts.{AddsUp, compute_community_listing_metrics-AddsUp}
use cn_property_agent.Tests.Samples.{whole}
use cn_property_agent.Tests.Listing.{home, asking}

abbrev index : MarketObservation ℤ
index = record {
  observation_id = "m-1";
  city_code = "310000";
  geography_type = "city";
  geography_code = none;
  geography_name = "Shanghai";
  period_start = 738900;
  period_end = 738930;
  metric_name = "price_index";
  value = pos 101;
  unit = "index";
  source = "bureau";
  source_url = none;
  publication_date = none;
  collected_at = 63849600000000000;
  parser_version = "v1";
  raw_payload_ref = none;
}

abbrev next_month : MarketObservation ℤ
next_month = record index { observation_id = "m-2"; period_start = 738931; period_end = 738960 }

abbrev request : MarketObservationIngestionRequest
request = record { city_code = "310000"; start_date = none; end_date = none; geography_code = none }

abbrev publishes : List (MarketObservation ℤ) → MarketObservationProvider ℤ
publishes os r = some (record { observations = os })

abbrev everything : Filters
everything = record {
  geography_type = none;
  geography_code = none;
  metric_name = none;
  start_date = none;
  end_date = none;
}

abbrev published : MarketObservationIngestionResult
published = record {
  city_code = "310000";
  source_observation_count = 2;
  persisted_observation_count = 2;
  observation_ids = "m-2" ∷ "m-1" ∷ [];
}

ingests_two :
    ingest (publishes (next_month ∷ index ∷ [])) request []
    ≡ (ok published, next_month ∷ index ∷ [])
unfolding ingest persist upsert_observation upsert
ingests_two = refl

abbrev elsewhere : MarketObservation ℤ
elsewhere = record index { observation_id = "m-9"; city_code = "110000" }

refuses_elsewhere :
    ingest (publishes (index ∷ elsewhere ∷ [])) request [] ≡ (err provider_contract_error, [])
unfolding ingest
refuses_elsewhere = refl

series_in_order :
    get_market_observations "310000" everything (next_month ∷ index ∷ [])
    ≡ ok (index ∷ next_month ∷ [])
unfolding get_market_observations valid_query list_for_city sorted is_blank
series_in_order = refl

ingest_market_raises_example : ◌≡◌ {A = List (MarketObservation ℤ)} [] []
ingest_market_raises_example =
    ingest_market_raises (publishes (index ∷ elsewhere ∷ [])) request [] [] provider_contract_error
      refuses_elsewhere

ingest_market_accounting_example :
    (published.persisted_observation_count ≡ published.source_observation_count)
    × Distinct published.observation_ids
    × ((k : String)
        → contains k (keys observation_key (next_month ∷ index ∷ [])) ≡ (
            contains k published.observation_ids
            || contains k (keys {R = MarketObservation ℤ} observation_key [])))
ingest_market_accounting_example =
    ingest_market_accounting (publishes (next_month ∷ index ∷ [])) request []
      (next_month ∷ index ∷ []) published ingests_two

ingest_market_replay_example :
    (ingest (publishes (next_month ∷ index ∷ [])) request (next_month ∷ index ∷ [])
      ≡ (ok published, next_month ∷ index ∷ []))
    × Distinct (keys observation_key (next_month ∷ index ∷ []))
ingest_market_replay_example =
    ingest_market_replay (publishes (next_month ∷ index ∷ [])) request [] (next_month ∷ index ∷ [])
      published tt ingests_two

list_for_city-perm_example :
    list_for_city "310000" everything (index ∷ next_month ∷ [])
    ≡ list_for_city "310000" everything (next_month ∷ index ∷ [])
list_for_city-perm_example =
    list_for_city-perm "310000" everything (Permᴰ.swap refl refl) (refl, (refl, tt))

-- The same listing, later and dearer, and an identity that nobody observed.
abbrev dearer : ListingSnapshot ℤ
dearer = record asking { snapshot_at = 30; list_price_cny = pos 1800000; status = sold }

abbrev metrics : CommunityListingMetrics ℤ
metrics = record {
  community_id = "c-1";
  minimum_sample_count = 3;
  listing_count = 2;
  snapshot_count = 2;
  observed_listing_count = 1;
  identity_only_listing_count = 1;
  latest_snapshot_at = some 30;
  current_status_counts = record { status = sold; count = 1 } ∷ [];
  active_listing_count = 0;
  median_active_list_price_cny = record { value = none; usable_count = 0 };
  median_active_unit_price_cny_sqm = record { value = none; usable_count = 0 };
  repricing_observable_count = 1;
  price_cut_count = 0;
  price_increase_count = 1;
  unchanged_price_count = 0;
  price_cut_share = some (pos 0);
  median_price_change_ratio = record { value = none; usable_count = 1 };
  listing_ids = "l-1" ∷ "l-2" ∷ [];
  latest_snapshot_sources = "lianjia" ∷ [];
}

measures :
    compute_community_listing_metrics
      (home ∷ record home { listing_id = "l-2"; source_listing_id = "2" } ∷ [])
      (dearer ∷ asking ∷ dearer ∷ [])
      "c-1"
      (int_arg (pos 3))
    ≡ ok metrics
unfolding compute_community_listing_metrics validate_minimum_sample_count validate_community_id
    is_blank find same_status sorted_set dedupe sorted str_ltb median_metric countb ◌-ℤ◌ maximum
measures = refl

compute_community_listing_metrics-AddsUp_example : AddsUp metrics
compute_community_listing_metrics-AddsUp_example =
    compute_community_listing_metrics-AddsUp
      (home ∷ record home { listing_id = "l-2"; source_listing_id = "2" } ∷ [])
      (dearer ∷ asking ∷ dearer ∷ []) "c-1" (int_arg (pos 3)) metrics measures
