-- ===== src/Domain/Listing.antt =====
-- domain/listing.py
use cn_property_agent.Prelude.{String, Bool, Option, string_eq, ◌&&◌, ◌==◌, leb}
use cn_property_agent.Prelude.Int.{ℤ}
use cn_property_agent.Floats.{Floats}
use cn_property_agent.Domain.Common.{
  Instant, FloorBucket, ListingStatus, nonempty, optional, plausible_year, positive,
}

pub record Listing (F : Type 0) : Type 0 where
  pub listing_id : String
  pub community_id : String
  pub source : String
  pub source_listing_id : String
  pub area_sqm : Option F
  pub layout : Option String
  pub floor_bucket : FloorBucket
  pub orientation : Option String
  pub built_year : Option ℤ
  pub building_type : Option String
  pub first_seen_at : Instant
  pub last_seen_at : Instant
  pub status : ListingStatus

pub record ListingSnapshot (F : Type 0) : Type 0 where
  pub listing_id : String
  pub snapshot_at : Instant
  pub list_price_cny : F
  pub unit_price_cny_sqm : Option F
  pub status : ListingStatus
  pub source : String
  pub source_url : Option String
  pub raw_payload_ref : Option String
  pub parser_version : String

pub record ListingObservation (F : Type 0) : Type 0 where
  pub listing : Listing F
  pub snapshot : ListingSnapshot F

module _ {F : Type 0} ⦃fl : Floats F⦄ where
  -- The field constraints and `validate_seen_range`.
  unfoldable pub valid_listing : Listing F → Bool
  valid_listing l =
      nonempty l.listing_id
      && (nonempty l.community_id
          && (nonempty l.source
              && (nonempty l.source_listing_id
                  && (optional positive l.area_sqm
                      && (optional plausible_year l.built_year
                          && leb l.first_seen_at l.last_seen_at)))))

  unfoldable pub valid_snapshot : ListingSnapshot F → Bool
  valid_snapshot s =
      nonempty s.listing_id
      && (positive s.list_price_cny
          && (optional positive s.unit_price_cny_sqm
              && (nonempty s.source && nonempty s.parser_version)))

  -- The parts, and `validate_identity`.
  unfoldable pub valid_observation : ListingObservation F → Bool
  unfolding valid_listing valid_snapshot
  valid_observation o =
      valid_listing o.listing
      && (valid_snapshot o.snapshot && o.listing.listing_id == o.snapshot.listing_id)
