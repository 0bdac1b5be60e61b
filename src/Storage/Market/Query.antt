-- ===== src/Storage/Market/Query.antt =====
-- `list_for_city` over the same rows in another order.
use mathlib.Core.List.{Permᴰ}
use cn_property_agent.Prelude.{◌≡◌, String, string_eq, true, false, List, arith, Distinct}
use cn_property_agent.Prelude.Text.{str_order}
use cn_property_agent.Domain.Context.{MarketObservation}
use cn_property_agent.Storage.Table.{keys}
use cn_property_agent.Storage.Table.Reading.{reads_alike}
use cn_property_agent.Storage.Market.{
  Filters, observation_key, in_series, chronological, list_for_city,
}

module _ {F : Type 0} where
  chronological_asym :
      (a b : MarketObservation F) → chronological a b ≡ true → chronological b a ≡ false
  unfolding chronological
  chronological_asym a b h = ground (arith, str_order.asym a.observation_id b.observation_id)

  chronological_trans :
      (a b c : MarketObservation F)
      → chronological a b ≡ true
      → chronological b c ≡ true
      → chronological a c ≡ true
  unfolding chronological
  chronological_trans a b c h k =
      ground (arith, str_order.trans a.observation_id b.observation_id c.observation_id)

  chronological_key :
      (a b : MarketObservation F)
      → chronological a b ≡ false
      → chronological b a ≡ false
      → a.observation_id ≡ b.observation_id
  unfolding chronological
  chronological_key a b h k =
      ground (arith, str_order.connected a.observation_id b.observation_id tt tt)

  -- For a table of market observations whose primary key is unique, the series that
  -- `list_for_city` returns, and its order, do not depend on the order in which the table holds
  -- its rows.
  pub list_for_city-perm :
      (city_code : String) (f : Filters) {rows rows' : List (MarketObservation F)}
      → Permᴰ rows rows'
      → Distinct (keys observation_key rows)
      → list_for_city city_code f rows ≡ list_for_city city_code f rows'
  unfolding list_for_city
  list_for_city-perm city_code f p d =
      reads_alike observation_key chronological (in_series city_code f) chronological_asym
        chronological_trans chronological_key p d
