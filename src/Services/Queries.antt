-- ===== src/Services/Queries.antt =====
-- services/transaction_query.py and listing_query.py: reads of what is stored.
pub mod Totality
use cn_property_agent.Prelude.{
  String, string_eq, Bool, true, not, Option, none, some, List, [], ◌∷◌, map, Result, ok, err,
  ◌>>=◌, ◌&&◌, ◌==◌, if◌then◌else◌,
}
use cn_property_agent.Prelude.Int.{pos}
use cn_property_agent.Prelude.Text.{is_blank}
use cn_property_agent.Floats.{Floats}
use cn_property_agent.Domain.Common.{Date, Raised, validation_error, nonempty, optional, validated}
use cn_property_agent.Domain.Listing.{Listing, ListingSnapshot}
use cn_property_agent.Domain.Transaction.{Transaction}
use cn_property_agent.Storage.Table.{find, upsert_all, overwrite}
use cn_property_agent.Storage.Transactions.{list_for_community as transactions_of}
use cn_property_agent.Storage.Listings.{ListingStore, latest_snapshots_for_community}
use cn_property_agent.Storage.Listings.{list_for_community as listings_of}
use cn_property_agent.Analytics.Common.{minimum_sample_count, int_arg}
use cn_property_agent.Analytics.Transactions.{
  CommunityTransactionMetrics, compute_community_transaction_metrics,
}
use cn_property_agent.Services.TransactionIngestion.{valid_range}

pub record TransactionQuery : Type 0 where
  pub community_id : String
  pub start_date : Option Date
  pub end_date : Option Date

-- The validators of `TransactionQuery`.
unfoldable pub valid_transaction_query : TransactionQuery → Bool
unfolding is_blank valid_range
valid_transaction_query q =
    nonempty q.community_id
    && (not (is_blank q.community_id) && valid_range q.start_date q.end_date)

pub record CurrentListing (F : Type 0) : Type 0 where
  pub listing : Listing F
  pub latest_snapshot : Option (ListingSnapshot F)

-- `validate_identity`
unfoldable pub valid_current_listing : {F : Type 0} → CurrentListing F → Bool
valid_current_listing c = optional (λ s. s.listing_id == c.listing.listing_id) c.latest_snapshot

module _ {F : Type 0} where
  unfoldable pub get_transactions : TransactionQuery → List (Transaction F) → List (Transaction F)
  get_transactions q rows = transactions_of q.community_id q.start_date q.end_date rows

  -- `{item.listing_id: item for item in snapshots}`
  unfoldable pub by_identity : List (ListingSnapshot F) → List (ListingSnapshot F)
  by_identity snapshots = upsert_all (λ s. s.listing_id) overwrite snapshots []

  unfoldable pub current_listings :
      List (ListingSnapshot F) → List (Listing F) → Result Raised (List (CurrentListing F))
  unfolding valid_current_listing
  current_listings latest [] = ok []
  current_listings latest (l ∷ ls) = do
    c ←
        validated valid_current_listing
          (record { listing = l; latest_snapshot = find (λ s. s.listing_id) l.listing_id latest })
    rest ← current_listings latest ls
    ok (c ∷ rest)

  unfoldable pub get_current_listings :
      String → ListingStore F → Result Raised (List (CurrentListing F))
  unfolding by_identity current_listings
  get_current_listings community_id store =
      current_listings (by_identity (latest_snapshots_for_community community_id store))
        (listings_of community_id store.listings)

module _ {F : Type 0} ⦃fl : Floats F⦄ where
  -- `get_transaction_metrics` of a query that is constructed from these arguments
  unfoldable pub get_transaction_metrics :
      TransactionQuery → List (Transaction F) → Result Raised (CommunityTransactionMetrics F)
  unfolding valid_transaction_query get_transactions
  get_transaction_metrics q rows =
      if valid_transaction_query q
      then compute_community_transaction_metrics (get_transactions q rows) q.community_id
          (int_arg (pos minimum_sample_count))
      else err validation_error
