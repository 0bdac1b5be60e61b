-- ===== src/Tests/Listing.antt =====
-- Runs of the ingestion and the reads of listings, and the theorems about them at those inputs.
use mathlib.Core.List.Permᴰ
use cn_property_agent.Prelude.{
  ◌≡◌, ◌⊎◌, refl, String, string_eq, nat_eq, pair_eq, none, some, false, List, [], ◌∷◌, ok, err,
  anyb, contains, Distinct, map, arith,
}
use cn_property_agent.Prelude.Int.{ℤ, pos}
use cn_property_agent.Prelude.Sorting.{sorted}
use cn_property_agent.Domain.Common.{FloorBucket, active, provider_contract_error, constraint_error}
use cn_property_agent.Domain.Listing.{Listing, ListingSnapshot, ListingObservation}
use cn_property_agent.Storage.Table.{keys, upsert}
use cn_property_agent.Storage.Listings.{
  ListingStore, listing_key, upsert_listing, writable, append_snapshot, list_for_community,
  history_for_community,
}
use cn_property_agent.Storage.Listings.Query.{
  listings_for_community_perm, history_for_community-perm,
}
use cn_property_agent.Services.ListingIngestion.{
  ListingProvider, ListingIngestionResult, is_stray, note, persist, ingest,
}
use cn_property_agent.Services.ListingIngestion.Replay.{
  listing_of, Consistent, ingest_listings_replay,
}
use cn_property_agent.Services.ListingIngestion.History.{
  KeepsHistory, Records, ingest_listings-KeepsHistory, ingest_listings_raises,
  ingest_listings_accounting,
}
use cn_property_agent.Tests.Samples.{garden}

abbrev pub home : Listing ℤ
home = record {
  listing_id = "l-1";
  community_id = "c-1";
  source = "lianjia";
  source_listing_id = "1";
  area_sqm = some (pos 90);
  layout = none;
  floor_bucket = FloorBucket.mid;
  orientation = none;
  built_year = some (pos 2005);
  building_type = none;
  first_seen_at = 20;
  last_seen_at = 20;
  status = active;
}

abbrev pub asking : ListingSnapshot ℤ
asking = record {
  listing_id = "l-1";
  snapshot_at = 20;
  list_price_cny = pos 600000;
  unit_price_cny_sqm = none;
  status = active;
  source = "lianjia";
  source_url = none;
  raw_payload_ref = none;
  parser_version = "v1";
}

abbrev seen_today : ListingObservation ℤ
seen_today = record { listing = home; snapshot = asking }

-- What an earlier observation left.
abbrev earlier : ListingStore ℤ
earlier = record {
  listings = record home { first_seen_at = 10; last_seen_at = 10 } ∷ [];
  snapshots = record asking { snapshot_at = 10; list_price_cny = pos 650000 } ∷ [];
}

abbrev later : ListingStore ℤ
later = record {
  listings = record home { first_seen_at = 10; last_seen_at = 20 } ∷ [];
  snapshots = record asking { snapshot_at = 10; list_price_cny = pos 650000 } ∷ asking ∷ [];
}

abbrev fetch_of : List (ListingObservation ℤ) → ListingProvider ℤ
fetch_of os community = some (record { parsed = os; parse_rejections = []; source_row_count = 2 })

abbrev listed : ListingIngestionResult
listed = record {
  community_id = "c-1";
  source_row_count = 2;
  parsed_count = 1;
  persisted_observation_count = 1;
  listing_ids = "l-1" ∷ [];
  parse_rejections = [];
}

lists_one : ingest (fetch_of (seen_today ∷ [])) garden earlier ≡ (ok listed, later)
unfolding ingest persist upsert_listing writable append_snapshot upsert note
lists_one = refl

abbrev stray : ListingObservation ℤ
stray = record { listing = record home { community_id = "c-9" }; snapshot = asking }

refuses_stray :
    ingest (fetch_of (seen_today ∷ stray ∷ [])) garden earlier
    ≡ (err provider_contract_error, earlier)
unfolding ingest
refuses_stray = refl

-- A listing whose pair of source columns is taken by another identity.
clash_is_refused :
    upsert_listing (record home { listing_id = "l-2" }) earlier.listings ≡ err constraint_error
unfolding upsert_listing writable
clash_is_refused = refl

abbrev name_of : String → String × String
name_of id = ("lianjia", "1")

earlier-Consistent : Consistent name_of earlier
earlier-Consistent = (
  ((refl, refl), tt),
  λ k m j n p. ground (arith, m, n, string_eq.decides "l-1" k, string_eq.decides "l-1" j),
)

ingest_listings_replay_example :
    (ingest (fetch_of (seen_today ∷ [])) garden later ≡ (ok listed, later))
    × Consistent name_of later
ingest_listings_replay_example =
    ingest_listings_replay name_of (fetch_of (seen_today ∷ [])) garden
      (record { parsed = seen_today ∷ []; parse_rejections = []; source_row_count = 2 }) refl
      earlier later listed ((refl, refl), tt) earlier-Consistent (refl, tt) (refl, tt) lists_one

ingest_listings-KeepsHistory_example : KeepsHistory earlier later × Records (seen_today ∷ []) later
ingest_listings-KeepsHistory_example =
    ingest_listings-KeepsHistory (fetch_of (seen_today ∷ [])) garden
      (record { parsed = seen_today ∷ []; parse_rejections = []; source_row_count = 2 }) refl
      earlier later listed lists_one

ingest_listings_raises_example :
    (earlier ≡ earlier)
    ⊎ ((provider_contract_error ≡ constraint_error)
        × (anyb (is_stray garden) (seen_today ∷ stray ∷ []) ≡ false))
ingest_listings_raises_example =
    ingest_listings_raises (fetch_of (seen_today ∷ stray ∷ [])) garden
      (record { parsed = seen_today ∷ stray ∷ []; parse_rejections = []; source_row_count = 2 })
      refl earlier earlier provider_contract_error refuses_stray

ingest_listings_accounting_example :
    (listed.persisted_observation_count ≡ listed.parsed_count)
    × (anyb (is_stray garden) (seen_today ∷ []) ≡ false)
    × Distinct listed.listing_ids
    × ((k : String)
        → contains k listed.listing_ids
          ≡ contains k (keys listing_key (map listing_of (seen_today ∷ []))))
ingest_listings_accounting_example =
    ingest_listings_accounting (fetch_of (seen_today ∷ [])) garden
      (record { parsed = seen_today ∷ []; parse_rejections = []; source_row_count = 2 }) refl
      earlier later listed lists_one

abbrev other_home : Listing ℤ
other_home = record home { listing_id = "l-2"; source_listing_id = "2"; last_seen_at = 30 }

lists_last_seen_first : list_for_community "c-1" (home ∷ other_home ∷ []) ≡ other_home ∷ home ∷ []
unfolding list_for_community sorted
lists_last_seen_first = refl

listings_for_community_perm_example :
    list_for_community "c-1" (home ∷ other_home ∷ [])
    ≡ list_for_community "c-1" (other_home ∷ home ∷ [])
listings_for_community_perm_example =
    listings_for_community_perm "c-1" (Permᴰ.swap refl refl) (refl, (refl, tt))

history_for_community-perm_example :
    history_for_community "c-1" later
    ≡ history_for_community "c-1" (record {
      listings = later.listings;
      snapshots = asking ∷ record asking { snapshot_at = 10; list_price_cny = pos 650000 } ∷ [];
    })
history_for_community-perm_example =
    history_for_community-perm "c-1" later.listings (Permᴰ.swap refl refl) (refl, (refl, tt))
