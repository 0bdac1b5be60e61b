-- ===== src/Providers/Lianjia/Recorded/Laws.antt =====
-- What a replayed snapshot delivers, and what becomes of it in the ingestion.
use cn_property_agent.Prelude.{ℕ, ◌+◌, ◌≡◌, refl, string_eq, true, some, arith, ◌==◌, All, length}
use cn_property_agent.Floats.{Floats}
use cn_property_agent.Domain.Community.{Community}
use cn_property_agent.Domain.Listing.{ListingObservation}
use cn_property_agent.Providers.Parsing.{ParseResult}
use cn_property_agent.Providers.Fetch.{
  FetchResult, from_parse_result, parsed_count, parse_rejection_count,
}
use cn_property_agent.Providers.Lianjia.Runtime.{Runtime}
use cn_property_agent.Providers.Lianjia.Listings.Laws.{
  IsOneSighting, IsIdentifiable, parse_listing_rows_return,
}
use cn_property_agent.Providers.Lianjia.Recorded.{
  LianjiaListingSnapshot, listing_context, with_row_count, fetch_current_listings,
}

-- A parse result whose rows are all accounted for is accepted.
with_row_count_accepts :
    {P : Type 0} (result : ParseResult P) (count : ℕ)
    → length result.records + length result.rejections ≡ count
    → with_row_count result count
      ≡ some (record {
        parsed = result.records;
        parse_rejections = result.rejections;
        source_row_count = count;
      })
unfolding from_parse_result
with_row_count_accepts result count h = ground (arith, h)

module _ {F : Type 0} ⦃fl : Floats F⦄ (rt : Runtime F) where
  -- A recorded listing snapshot that can be loaded, that was recorded for the requested community,
  -- and whose stated identities can be hashed, is delivered as a fetch whose observations and
  -- rejections are as many as the rows, with that source row count, and whose every observation is
  -- one valid sighting of that community.
  pub fetch_current_listings_delivers :
      (s : LianjiaListingSnapshot F) (community : Community F)
      → (s.community_id == community.community_id) ≡ true
      → All (IsIdentifiable rt (listing_context s)) s.rows
      → (f : FetchResult (ListingObservation F)) × (fetch_current_listings rt (some s) community
          ≡ some f)
        × (parsed_count f + parse_rejection_count f ≡ length s.rows)
        × (f.source_row_count ≡ length s.rows)
        × All (IsOneSighting rt (listing_context s)) f.parsed
  unfolding fetch_current_listings
  fetch_current_listings_delivers s community same hashed =
      let (result, e, counted, good) =
        parse_listing_rows_return rt (listing_context s) s.rows hashed in
      (
        record {
          parsed = result.records;
          parse_rejections = result.rejections;
          source_row_count = length s.rows;
        },
        ground (arith, same, e, with_row_count_accepts result (length s.rows) counted),
        counted,
        refl,
        good,
      )
