-- ===== src/Storage/Market.antt =====
-- storage/repositories.py: `MarketObservationRepository`, over the table `market_observation`.
pub mod Query
use cn_property_agent.Prelude.{
  ℕ, String, string_eq, Bool, true, false, Option, none, some, List, [], ◌∷◌, ◌==◌, ◌&&◌, ◌||◌,
  length, ltb, leb, nat_beq, filterb,
}
use cn_property_agent.Prelude.Sorting.{sorted}
use cn_property_agent.Prelude.Text.{str_ltb}
use cn_property_agent.Domain.Common.{Date, optional}
use cn_property_agent.Domain.Context.{MarketObservation}
use cn_property_agent.Storage.Table.{upsert, upsert_all, overwrite}

-- What a query filters on; a filter that is `none` is not applied.
pub record Filters : Type 0 where
  pub geography_type : Option String
  pub geography_code : Option String
  pub metric_name : Option String
  pub start_date : Option Date
  pub end_date : Option Date

-- `column = ?` on a column that may be NULL, which no value equals.
code_is : Option String → String → Bool
code_is none code = false
code_is (some c) code = c == code

module _ {F : Type 0} where
  abbrev pub observation_key : MarketObservation F → String
  observation_key o = o.observation_id

  -- `upsert`; `upsert_many` runs it over its items, and counts them.
  unfoldable pub upsert_observation :
      MarketObservation F → List (MarketObservation F) → List (MarketObservation F)
  upsert_observation item rows = upsert observation_key overwrite item rows

  unfoldable pub upsert_many :
      List (MarketObservation F) → List (MarketObservation F) → ℕ × List (MarketObservation F)
  upsert_many items rows = (length items, upsert_all observation_key overwrite items rows)

  -- The WHERE clauses of `list_for_city`.
  unfoldable pub in_series : String → Filters → MarketObservation F → Bool
  unfolding code_is
  in_series city_code f o =
      o.city_code == city_code
      && (optional (λ t. o.geography_type == t) f.geography_type
          && (optional (code_is o.geography_code) f.geography_code
              && (optional (λ n. o.metric_name == n) f.metric_name
                  && (optional (λ start. leb start o.period_start) f.start_date
                      && optional (λ end. leb o.period_end end) f.end_date))))

  -- ORDER BY period_start, period_end, observation_id
  unfoldable pub chronological : MarketObservation F → MarketObservation F → Bool
  chronological a b =
      ltb a.period_start b.period_start
      || (nat_beq a.period_start b.period_start
          && (ltb a.period_end b.period_end
              || (nat_beq a.period_end b.period_end && str_ltb a.observation_id b.observation_id)))

  unfoldable pub list_for_city :
      String → Filters → List (MarketObservation F) → List (MarketObservation F)
  unfolding in_series chronological
  list_for_city city_code f rows = sorted chronological (filterb (in_series city_code f) rows)
