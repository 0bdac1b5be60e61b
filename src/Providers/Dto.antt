-- ===== src/Providers/Dto.antt =====
-- providers/dto.py. The measurements are permissive: the gates of the services judge them.
use cn_property_agent.Prelude.{String, Option}
use cn_property_agent.Prelude.Int.{ℤ}
use cn_property_agent.Domain.Common.{Date, Instant}

pub record RawTransactionRecord (F : Type 0) : Type 0 where
  pub source : String
  pub source_transaction_id : Option String
  pub source_url : Option String
  pub deal_date : Option Date
  pub area_sqm : Option F
  pub layout : Option String
  pub floor_bucket : Option String
  pub orientation : Option String
  pub built_year : Option ℤ
  pub initial_listing_price_cny : Option F
  pub deal_price_cny : Option F
  pub unit_price_cny_sqm : Option F
  pub days_on_market : Option ℤ
  pub raw_payload_ref : Option String
  pub collected_at : Instant
  pub parser_version : String
