-- ===== src/Providers/Lianjia/Recorded.antt =====
-- providers/lianjia/recorded_listings.py and recorded_transactions.py: the providers that replay a
-- recorded snapshot. Reading the file, JSON and the validation of the document are an argument:
-- `none` stands for the `LianjiaSnapshotError` that they raise.
pub mod Laws
use cn_property_agent.Prelude.{
  ℕ, String, string_eq, Bool, Option, none, some, List, Result, ok, err, ◌==◌, length,
  if◌then◌else◌,
}
use cn_property_agent.Prelude.Int.{pos}
use cn_property_agent.Floats.{Floats}
use cn_property_agent.Domain.Common.{Date, Instant, Raised}
use cn_property_agent.Domain.Community.{Community}
use cn_property_agent.Domain.Listing.{ListingObservation}
use cn_property_agent.Providers.Dto.{RawTransactionRecord}
use cn_property_agent.Providers.Parsing.{ParseResult}
use cn_property_agent.Providers.Fetch.{FetchResult, from_parse_result}
use cn_property_agent.Providers.Lianjia.Runtime.{Runtime}
use cn_property_agent.Providers.Lianjia.Cells.{Row}
use cn_property_agent.Providers.Lianjia.Transactions.{LianjiaParseContext, parse_transaction_rows}
use cn_property_agent.Providers.Lianjia.Listings.{LianjiaListingParseContext, parse_listing_rows}

pub record LianjiaListingSnapshot (F : Type 0) : Type 0 where
  pub community_id : String
  pub snapshot_at : Instant
  pub source_url : Option String
  pub raw_payload_ref : Option String
  pub rows : List (Row F)

pub record LianjiaTransactionSnapshot (F : Type 0) : Type 0 where
  pub collected_at : Instant
  pub source_url : Option String
  pub raw_payload_ref : Option String
  pub rows : List (Row F)

-- `from_parse_result(…, source_row_count=…)`, whose exception leaves the call.
abbrev pub with_row_count : {P : Type 0} → ParseResult P → ℕ → Option (FetchResult P)
with_row_count result count = elim (from_parse_result result (some (pos count))) [
  | ok fetched ↦ some fetched
  | err e ↦ none
]

-- What the parser raises leaves the call as well.
abbrev pub delivered : {P : Type 0} → Result Raised (ParseResult P) → ℕ → Option (FetchResult P)
delivered (ok result) count = with_row_count result count
delivered (err e) count = none

module _ {F : Type 0} where
  -- `parse_context`
  abbrev pub listing_context : LianjiaListingSnapshot F → LianjiaListingParseContext
  listing_context s = record {
    community_id = s.community_id;
    snapshot_at = s.snapshot_at;
    source_url = s.source_url;
    raw_payload_ref = s.raw_payload_ref;
  }

  abbrev pub transaction_context : LianjiaTransactionSnapshot F → LianjiaParseContext
  transaction_context s = record {
    collected_at = s.collected_at;
    source_url = s.source_url;
    raw_payload_ref = s.raw_payload_ref;
  }

  module _ ⦃fl : Floats F⦄ (rt : Runtime F) where
    -- A batch that was recorded for another community is refused.
    unfoldable pub fetch_current_listings :
        Option (LianjiaListingSnapshot F)
        → Community F
        → Option (FetchResult (ListingObservation F))
    unfolding parse_listing_rows from_parse_result
    fetch_current_listings none community = none
    fetch_current_listings (some s) community =
        if s.community_id == community.community_id
        then delivered (parse_listing_rows rt (listing_context s) s.rows) (length s.rows)
        else none

    -- The community and the dates select nothing.
    unfoldable pub fetch_transactions :
        Option (LianjiaTransactionSnapshot F)
        → Community F
        → Option Date
        → Option Date
        → Option (FetchResult (RawTransactionRecord F))
    unfolding parse_transaction_rows from_parse_result
    fetch_transactions none community start_date end_date = none
    fetch_transactions (some s) community start_date end_date =
        with_row_count (parse_transaction_rows rt (transaction_context s) s.rows) (length s.rows)
