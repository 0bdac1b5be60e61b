-- ===== src/Storage/Listings.antt =====
-- storage/repositories.py: `ListingRepository`, over the tables `listing` and `listing_snapshot`
-- of storage/schema.py.
pub mod Laws
pub mod Query
use cn_property_agent.Prelude.{
  ℕ, String, string_eq, nat_eq, pair_eq, Bool, not, Option, none, some, List, [], ◌∷◌, Result, ok,
  err, ◌==◌, ◌&&◌, ◌||◌, ltb, leb, nat_beq, anyb, filterb, filter_map, if◌then◌else◌,
}
use cn_property_agent.Prelude.Sorting.{sorted}
use cn_property_agent.Prelude.Text.{str_ltb}
use cn_property_agent.Domain.Common.{Instant, Raised, constraint_error, optional}
use cn_property_agent.Domain.Listing.{Listing, ListingSnapshot}
use cn_property_agent.Storage.Table.{find, upsert, overwrite}
use cn_property_agent.Storage.Transactions.{fits_integer}

abbrev pub least : ℕ → ℕ → ℕ
least a b = if leb a b then a else b

abbrev pub greatest : ℕ → ℕ → ℕ
greatest a b = if leb a b then b else a

pub record ListingStore (F : Type 0) : Type 0 where
  pub listings : List (Listing F)
  pub snapshots : List (ListingSnapshot F)

module _ {F : Type 0} where
  abbrev pub listing_key : Listing F → String
  listing_key l = l.listing_id

  -- PRIMARY KEY(listing_id, snapshot_at)
  abbrev pub snapshot_key : ListingSnapshot F → String × Instant
  snapshot_key s = (s.listing_id, s.snapshot_at)

  -- The SET clause of `upsert_listing`.
  abbrev pub merge_listing : Listing F → Listing F → Listing F
  merge_listing old new = record new {
    first_seen_at = least old.first_seen_at new.first_seen_at;
    last_seen_at = greatest old.last_seen_at new.last_seen_at;
  }

  -- UNIQUE(source, source_listing_id): a row of another listing has the same pair.
  abbrev pub clashes : Listing F → Listing F → Bool
  clashes item row =
      not (row.listing_id == item.listing_id)
      && (row.source == item.source && row.source_listing_id == item.source_listing_id)

  unfoldable pub writable : Listing F → List (Listing F) → Bool
  unfolding fits_integer
  writable item rows = optional fits_integer item.built_year && not (anyb (clashes item) rows)

  unfoldable pub upsert_listing : Listing F → List (Listing F) → Result Raised (List (Listing F))
  upsert_listing item rows =
      if writable item rows
      then ok (upsert listing_key merge_listing item rows)
      else err constraint_error

  unfoldable pub append_snapshot :
      ListingSnapshot F → List (ListingSnapshot F) → List (ListingSnapshot F)
  append_snapshot item rows = upsert snapshot_key overwrite item rows

  abbrev pub belongs_to : String → Listing F → Bool
  belongs_to community_id l = l.community_id == community_id

  -- ORDER BY last_seen_at DESC, listing_id
  unfoldable pub last_seen_first : Listing F → Listing F → Bool
  last_seen_first a b =
      ltb b.last_seen_at a.last_seen_at
      || (nat_beq a.last_seen_at b.last_seen_at && str_ltb a.listing_id b.listing_id)

  unfoldable pub list_for_community : String → List (Listing F) → List (Listing F)
  unfolding last_seen_first
  list_for_community community_id rows =
      sorted last_seen_first (filterb (belongs_to community_id) rows)

  -- ORDER BY listing_id, snapshot_at
  unfoldable pub by_listing : ListingSnapshot F → ListingSnapshot F → Bool
  by_listing a b =
      str_ltb a.listing_id b.listing_id
      || (a.listing_id == b.listing_id && ltb a.snapshot_at b.snapshot_at)

  -- `JOIN listing l ON l.listing_id = s.listing_id WHERE l.community_id = ?`
  unfoldable pub joined : String → List (Listing F) → ListingSnapshot F → Bool
  joined community_id listings s =
      anyb (λ l. l.listing_id == s.listing_id && belongs_to community_id l) listings

  unfoldable pub history_for_community : String → ListingStore F → List (ListingSnapshot F)
  unfolding joined by_listing
  history_for_community community_id store =
      sorted by_listing (filterb (joined community_id store.listings) store.snapshots)

  -- `history`: ORDER BY snapshot_at
  unfoldable pub history : String → List (ListingSnapshot F) → List (ListingSnapshot F)
  history listing_id rows =
      sorted (λ a b. ltb a.snapshot_at b.snapshot_at)
        (filterb (λ s. s.listing_id == listing_id) rows)

  -- The row of the window `PARTITION BY listing_id ORDER BY snapshot_at DESC` whose number is 1.
  unfoldable pub is_latest : List (ListingSnapshot F) → ListingSnapshot F → Bool
  is_latest rows s =
      not (
        anyb (λ other. other.listing_id == s.listing_id && ltb s.snapshot_at other.snapshot_at)
          rows)

  -- The mapping of `latest_snapshots_for_community`, as its values.
  unfoldable pub latest_snapshots_for_community : String → ListingStore F → List (ListingSnapshot F)
  unfolding joined is_latest
  latest_snapshots_for_community community_id store =
      filterb (λ s. joined community_id store.listings s && is_latest store.snapshots s)
        store.snapshots
