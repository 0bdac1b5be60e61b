-- ===== src/Domain/Transaction.antt =====
-- domain/transaction.py
use cn_property_agent.Prelude.{String, Bool, Option, ◌&&◌}
use cn_property_agent.Prelude.Int.{ℤ, pos, leb_ℤ}
use cn_property_agent.Floats.{Floats}
use cn_property_agent.Domain.Common.{
  Date, Instant, FloorBucket, nonempty, optional, plausible_year, positive,
}

pub record Transaction (F : Type 0) : Type 0 where
  pub transaction_id : String
  pub community_id : String
  pub source : String
  pub source_transaction_id : Option String
  pub source_url : Option String
  pub deal_date : Date
  pub area_sqm : F
  pub layout : Option String
  pub floor_bucket : FloorBucket
  pub orientation : Option String
  pub built_year : Option ℤ
  pub initial_listing_price_cny : Option F
  pub deal_price_cny : F
  pub unit_price_cny_sqm : F
  pub days_on_market : Option ℤ
  pub raw_payload_ref : Option String
  pub collected_at : Instant
  pub parser_version : String

-- The field constraints of the model.
unfoldable pub valid_transaction : {F : Type 0} ⦃fl : Floats F⦄ → Transaction F → Bool
valid_transaction t =
    nonempty t.transaction_id
    && (nonempty t.community_id
        && (nonempty t.source
            && (positive t.area_sqm
                && (optional plausible_year t.built_year
                    && (optional positive t.initial_listing_price_cny
                        && (positive t.deal_price_cny
                            && (positive t.unit_price_cny_sqm
                                && (optional (leb_ℤ (pos 0)) t.days_on_market
                                    && nonempty t.parser_version))))))))
