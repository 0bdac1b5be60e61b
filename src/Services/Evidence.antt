-- ===== src/Services/Evidence.antt =====
-- services/community_evidence.py: the stored evidence of one community, from both halves.
use cn_property_agent.Prelude.{
  String, string_eq, Bool, Option, none, List, Result, ◌>>=◌, ◌>>◌, not, raise_if, ◌==◌, ◌&&◌, ◌||◌,
  ltb,
}
use cn_property_agent.Prelude.Int.{pos}
use cn_property_agent.Floats.{Floats}
use cn_property_agent.Domain.Common.{Date, Instant, Raised, validation_error, nonempty, validated}
use cn_property_agent.Domain.Transaction.{Transaction}
use cn_property_agent.Storage.Listings.{ListingStore, list_for_community, history_for_community}
use cn_property_agent.Analytics.Common.{minimum_sample_count, int_arg}
use cn_property_agent.Analytics.Transactions.{CommunityTransactionMetrics, has_transactions}
use cn_property_agent.Analytics.Listings.{
  CommunityListingMetrics, compute_community_listing_metrics,
}
use cn_property_agent.Services.Queries.{
  TransactionQuery, valid_transaction_query, get_transaction_metrics,
}

pub record CommunityMarketEvidence (F : Type 0) : Type 0 where
  pub community_id : String
  pub transaction_metrics : CommunityTransactionMetrics F
  pub listing_metrics : CommunityListingMetrics F

-- `TransactionQuery(community_id=community_id)`
abbrev pub query_of : String → TransactionQuery
query_of community_id = record { community_id = community_id; start_date = none; end_date = none }

module _ {F : Type 0} where
  -- `validate_subject`, and the field's `min_length=1`
  unfoldable pub valid_evidence : CommunityMarketEvidence F → Bool
  valid_evidence e =
      nonempty e.community_id
      && (e.transaction_metrics.community_id == e.community_id
          && e.listing_metrics.community_id == e.community_id)

  -- The three properties of the model.
  abbrev pub latest_deal_date : CommunityMarketEvidence F → Option Date
  latest_deal_date e = e.transaction_metrics.latest_deal_date

  abbrev pub latest_snapshot_at : CommunityMarketEvidence F → Option Instant
  latest_snapshot_at e = e.listing_metrics.latest_snapshot_at

  unfoldable pub has_evidence : CommunityMarketEvidence F → Bool
  unfolding has_transactions
  has_evidence e = has_transactions e.transaction_metrics || ltb 0 e.listing_metrics.listing_count

module _ {F : Type 0} ⦃fl : Floats F⦄ where
  -- The listing half: the metrics of what the listing queries return.
  unfoldable pub stored_listing_metrics :
      String → ListingStore F → Result Raised (CommunityListingMetrics F)
  stored_listing_metrics community_id store =
      compute_community_listing_metrics (list_for_community community_id store.listings)
        (history_for_community community_id store) community_id (int_arg (pos minimum_sample_count))

  unfoldable pub get_market_evidence :
      String → List (Transaction F) → ListingStore F → Result Raised (CommunityMarketEvidence F)
  unfolding valid_evidence stored_listing_metrics valid_transaction_query
  get_market_evidence community_id rows store = do
    raise_if (not (valid_transaction_query (query_of community_id))) validation_error
    deals ← get_transaction_metrics (query_of community_id) rows
    listed ← stored_listing_metrics community_id store
    validated valid_evidence (record {
      community_id = community_id;
      transaction_metrics = deals;
      listing_metrics = listed;
    })
