-- ===== src/Storage/Listings/Query.antt =====
-- The reads of the listing tables over the same rows in another order.
use mathlib.Core.List.{Permᴰ}
use mathlib.Core.Path.{ap₂}
use cn_property_agent.Prelude.{
  ◌≡◌, String, string_eq, nat_eq, pair_eq, true, false, List, arith, Distinct,
}
use cn_property_agent.Prelude.Text.{str_order}
use cn_property_agent.Domain.Listing.{Listing, ListingSnapshot}
use cn_property_agent.Storage.Table.{keys}
use cn_property_agent.Storage.Table.Reading.{reads_alike}
use cn_property_agent.Storage.Listings.{
  listing_key, snapshot_key, belongs_to, last_seen_first, list_for_community, by_listing, joined,
  history_for_community,
}

module _ {F : Type 0} where
  last_seen_first_asym :
      (a b : Listing F) → last_seen_first a b ≡ true → last_seen_first b a ≡ false
  unfolding last_seen_first
  last_seen_first_asym a b h = ground (arith, str_order.asym a.listing_id b.listing_id)

  last_seen_first_trans :
      (a b c : Listing F)
      → last_seen_first a b ≡ true
      → last_seen_first b c ≡ true
      → last_seen_first a c ≡ true
  unfolding last_seen_first
  last_seen_first_trans a b c h k =
      ground (arith, str_order.trans a.listing_id b.listing_id c.listing_id)

  last_seen_first_key :
      (a b : Listing F)
      → last_seen_first a b ≡ false
      → last_seen_first b a ≡ false
      → a.listing_id ≡ b.listing_id
  unfolding last_seen_first
  last_seen_first_key a b h k = ground (arith, str_order.connected a.listing_id b.listing_id tt tt)

  by_listing_asym : (a b : ListingSnapshot F) → by_listing a b ≡ true → by_listing b a ≡ false
  unfolding by_listing
  by_listing_asym a b h = ground (
    arith,
    str_order.asym a.listing_id b.listing_id,
    str_order.asym b.listing_id a.listing_id,
    string_eq.decides a.listing_id b.listing_id,
    string_eq.decides b.listing_id a.listing_id,
  )

  by_listing_trans :
      (a b c : ListingSnapshot F)
      → by_listing a b ≡ true
      → by_listing b c ≡ true
      → by_listing a c ≡ true
  unfolding by_listing
  by_listing_trans a b c h k = ground (
    arith,
    str_order.trans a.listing_id b.listing_id c.listing_id,
    string_eq.decides a.listing_id b.listing_id,
    string_eq.decides b.listing_id c.listing_id,
    string_eq.decides a.listing_id c.listing_id,
  )

  same_listing :
      (a b : ListingSnapshot F)
      → by_listing a b ≡ false
      → by_listing b a ≡ false
      → a.listing_id ≡ b.listing_id
  unfolding by_listing
  same_listing a b h k = ground (arith, str_order.connected a.listing_id b.listing_id tt tt)

  same_instant :
      (a b : ListingSnapshot F)
      → by_listing a b ≡ false
      → by_listing b a ≡ false
      → a.snapshot_at ≡ b.snapshot_at
  unfolding by_listing
  same_instant a b h k = ground (
    arith,
    same_listing a b h k,
    string_eq.decides a.listing_id b.listing_id,
    string_eq.decides b.listing_id a.listing_id,
  )

  -- For a table of listings whose primary key is unique, the rows that `list_for_community`
  -- returns, and their order, do not depend on the order in which the table holds its rows.
  pub listings_for_community_perm :
      (community_id : String) {rows rows' : List (Listing F)}
      → Permᴰ rows rows'
      → Distinct (keys listing_key rows)
      → list_for_community community_id rows ≡ list_for_community community_id rows'
  unfolding list_for_community
  listings_for_community_perm community_id p d =
      reads_alike listing_key last_seen_first (belongs_to community_id) last_seen_first_asym
        last_seen_first_trans last_seen_first_key p d

  -- For a table of snapshots whose primary key is unique, the history that `history_for_community`
  -- returns, and its order, do not depend on the order in which the table holds the snapshots.
  pub history_for_community-perm :
      (community_id : String) (listings : List (Listing F))
      {snapshots snapshots' : List (ListingSnapshot F)}
      → Permᴰ snapshots snapshots'
      → Distinct (keys snapshot_key snapshots)
      → history_for_community community_id (record { listings = listings; snapshots = snapshots })
        ≡ history_for_community community_id
            (record { listings = listings; snapshots = snapshots' })
  unfolding history_for_community
  history_for_community-perm community_id listings p d =
      reads_alike snapshot_key by_listing (joined community_id listings) by_listing_asym
        by_listing_trans
        (λ a b h k. ap₂ (λ x y. (x, y)) (same_listing a b h k) (same_instant a b h k)) p d
