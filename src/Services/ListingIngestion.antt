-- ===== src/Services/ListingIngestion.antt =====
-- services/listing_ingestion.py: one fetch of current listings, written as identities and history.
-- The provider and the clock of the log line are outside; the state is the two listing tables.
pub mod Replay
pub mod History
pub mod Recorded
use cn_property_agent.Prelude.{
  ℕ, suc, zero, String, string_eq, Bool, true, false, not, Option, none, some, List, [], ◌∷◌, ◌++◌,
  Result, ok, err, ◌>>=◌, ◌==◌, anyb, add_once, if◌then◌else◌,
}
use cn_property_agent.Domain.Common.{Raised, provider_fetch_error, provider_contract_error}
use cn_property_agent.Domain.Community.{Community}
use cn_property_agent.Domain.Listing.{ListingObservation}
use cn_property_agent.Providers.Parsing.{ParseRejection}
use cn_property_agent.Providers.Fetch.{FetchResult, parsed_count}
use cn_property_agent.Storage.Listings.{ListingStore, upsert_listing, append_snapshot}

-- `ListingProvider.fetch_current_listings`: `none` where the call raises.
abbrev pub ListingProvider : Type 0 → Type 0
ListingProvider F = Community F → Option (FetchResult (ListingObservation F))

pub record ListingIngestionResult : Type 0 where
  pub community_id : String
  pub source_row_count : ℕ
  pub parsed_count : ℕ
  pub persisted_observation_count : ℕ
  pub listing_ids : List String
  pub parse_rejections : List ParseRejection

-- The local variables of `ingest`.
pub record Progress : Type 0 where
  pub persisted_count : ℕ
  pub listing_ids : List String

abbrev pub no_progress : Progress
no_progress = record { persisted_count = 0; listing_ids = [] }

module _ {F : Type 0} where
  -- `persisted_count += 1`, and the identity, once.
  unfoldable pub note : ListingObservation F → Progress → Progress
  note o p = record {
    persisted_count = suc p.persisted_count;
    listing_ids = add_once o.listing.listing_id p.listing_ids;
  }

  abbrev pub written : ListingObservation F → ListingStore F → Result Raised (ListingStore F)
  written o store = upsert_listing o.listing store.listings >>= λ rows.
      ok (record { listings = rows; snapshots = append_snapshot o.snapshot store.snapshots })

  -- The loop over the observations: what is written before a raise stays.
  unfoldable pub persist :
      List (ListingObservation F)
      → Progress
      → ListingStore F
      → Result Raised Progress × ListingStore F
  unfolding note append_snapshot
  persist [] p store = (ok p, store)
  persist (o ∷ os) p store = elim (written o store) [
    | ok store' ↦ persist os (note o p) store'
    | err e ↦ (err e, store)
  ]

  abbrev pub is_stray : Community F → ListingObservation F → Bool
  is_stray community o = not (o.listing.community_id == community.community_id)

  unfoldable pub report :
      Community F → FetchResult (ListingObservation F) → Progress → ListingIngestionResult
  report community fetched p = record {
    community_id = community.community_id;
    source_row_count = fetched.source_row_count;
    parsed_count = parsed_count fetched;
    persisted_observation_count = p.persisted_count;
    listing_ids = p.listing_ids;
    parse_rejections = fetched.parse_rejections;
  }

  -- `_require_requested_community`, then the loop.
  store_fetched :
      Community F
      → FetchResult (ListingObservation F)
      → ListingStore F
      → Result Raised ListingIngestionResult × ListingStore F
  unfolding report persist
  store_fetched community fetched store =
      if anyb (is_stray community) fetched.parsed
      then (err provider_contract_error, store)
      else let (outcome, store') = persist fetched.parsed no_progress store in
        (outcome >>= (λ p. ok (report community fetched p)), store')

  unfoldable pub ingest :
      ListingProvider F
      → Community F
      → ListingStore F
      → Result Raised ListingIngestionResult × ListingStore F
  unfolding store_fetched
  ingest provider community store = elim (provider community) [
    | none ↦ (err provider_fetch_error, store)
    | some fetched ↦ store_fetched community fetched store
  ]
