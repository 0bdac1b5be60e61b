-- ===== src/Domain/Context.antt =====
-- domain/context.py: the official market observation.
use cn_property_agent.Prelude.{String, Bool, Option, ◌&&◌, leb}
use cn_property_agent.Domain.Common.{Date, Instant, nonempty}

pub record MarketObservation (F : Type 0) : Type 0 where
  pub observation_id : String
  pub city_code : String
  pub geography_type : String
  pub geography_code : Option String
  pub geography_name : String
  pub period_start : Date
  pub period_end : Date
  pub metric_name : String
  pub value : F
  pub unit : String
  pub source : String
  pub source_url : Option String
  pub publication_date : Option Date
  pub collected_at : Instant
  pub parser_version : String
  pub raw_payload_ref : Option String

-- The field constraints and `validate_period`.
unfoldable pub valid_market_observation : {F : Type 0} → MarketObservation F → Bool
valid_market_observation o =
    nonempty o.observation_id
    && (nonempty o.city_code
        && (nonempty o.geography_type
            && (nonempty o.geography_name
                && (nonempty o.metric_name
                    && (nonempty o.unit
                        && (nonempty o.source
                            && (nonempty o.parser_version && leb o.period_start o.period_end)))))))
