-- ===== src/Tests/Querying.antt =====
-- Runs of the query services, and the theorems about them at those inputs.
use cn_property_agent.Prelude.{◌≡◌, refl, true, string_eq, none, some, List, [], ◌∷◌, map, ok}
use cn_property_agent.Prelude.Int.{ℤ}
use cn_property_agent.Prelude.Sorting.{sorted}
use cn_property_agent.Prelude.Text.{is_blank}
use cn_property_agent.Domain.Transaction.{valid_transaction}
use cn_property_agent.Storage.Table.{find, upsert_all, upsert}
use cn_property_agent.Storage.Transactions.{storable}
use cn_property_agent.Storage.Listings.{
  ListingStore, list_for_community, latest_snapshots_for_community,
}
use cn_property_agent.Analytics.Transactions.{CommunityTransactionMetrics}
use cn_property_agent.Services.Queries.{
  TransactionQuery, valid_transaction_query, CurrentListing, get_current_listings,
  get_transaction_metrics,
}
use cn_property_agent.Services.Queries.Totality.{
  get_transaction_metrics_total, get_current_listings_total,
}
use cn_property_agent.Tests.Samples.{whole, whole_order}
use cn_property_agent.Tests.Normalizing.{flat}
use cn_property_agent.Tests.Listing.{home, asking}

abbrev query : TransactionQuery
query = record { community_id = "c-1"; start_date = none; end_date = none }

valid_subject : valid_transaction_query query ≡ true
unfolding valid_transaction_query is_blank
valid_subject = refl

get_transaction_metrics_total_example :
    (m : CommunityTransactionMetrics ℤ) × (get_transaction_metrics query (flat ∷ []) ≡ ok m)
unfolding storable valid_transaction
get_transaction_metrics_total_example =
    get_transaction_metrics_total query (flat ∷ []) whole_order (λ n h. (n, refl)) valid_subject
      (refl, tt) (refl, tt)

-- Two snapshots of one listing.
abbrev store : ListingStore ℤ
store = record {
  listings = home ∷ [];
  snapshots = asking ∷ record asking { snapshot_at = 30 } ∷ [];
}

current :
    get_current_listings "c-1" store
    ≡ ok (
        record { listing = home; latest_snapshot = some (record asking { snapshot_at = 30 }) } ∷ [])
unfolding get_current_listings list_for_community latest_snapshots_for_community sorted find
    upsert_all upsert
current = refl

get_current_listings_total_example :
    (cs : List (CurrentListing ℤ)) × (get_current_listings "c-1" store ≡ ok cs)
    × (map (λ c. c.listing) cs ≡ list_for_community "c-1" store.listings)
get_current_listings_total_example = get_current_listings_total "c-1" store
