-- ===== src/Tests/Lianjia.antt =====
-- A runtime of ASCII digits and whole numbers, rows of a recorded snapshot, and runs on them.
use Prim.Native.Char.{code}
use cn_property_agent.Prelude.{
  ℕ, ◌+◌, ◌-◌, ◌*◌, ◌≡◌, refl, String, string_eq, Option, none, some, [], ◌∷◌, ◌==◌, ◌&&◌, leb,
  if◌then◌else◌, Result, ok, err,
}
use cn_property_agent.Prelude.Int.{ℤ, pos, ◌*ℤ◌}
use cn_property_agent.Storage.Table.{find, upsert_all, upsert}
use cn_property_agent.Prelude.Text.{strip}
use cn_property_agent.Domain.Common.{FloorBucket, ListingStatus, active, Raised}
use cn_property_agent.Domain.Listing.{ListingObservation}
use cn_property_agent.Providers.Parsing.{RowOutcome, parsed, refused}
use cn_property_agent.Providers.Lianjia.Runtime.{Runtime}
use cn_property_agent.Providers.Lianjia.Numbers.{text_cell}
use cn_property_agent.Providers.Lianjia.Cells.{Row}
use cn_property_agent.Providers.Lianjia.Listings.{parse_listing_row}
use cn_property_agent.Providers.Lianjia.Recorded.{
  LianjiaListingSnapshot, LianjiaTransactionSnapshot, listing_context,
}
use cn_property_agent.Tests.Samples.{whole, tools, collected}

value_of : ℕ → String → ℕ
value_of n String.[] = n
value_of n (String.◌∷◌ c s) = value_of (n * 10 + (code c - 48)) s

unfoldable pub rt : Runtime ℤ
unfolding value_of strip
rt = record {
  text = tools;
  is_digit = λ c. leb 48 c && leb c 57;
  digit_value = λ c. c - 48;
  float_of = λ s. pos (value_of 0 s);
  float_text = λ x. "";
  whole = λ x. some x;
  int_text = λ x. "";
  from_iso_format = λ s. if s == "2024-05-01T00:00:00Z" then some (some collected) else none;
  trim = λ s. strip s;
}

abbrev pub listed_row : Row ℤ
listed_row = some (
    ("房源编号", text_cell "107")
    ∷ ("总价", text_cell " 523万 ")
    ∷ ("面积", text_cell "89平米")
    ∷ ("楼层", text_cell "中楼层/共18层")
    ∷ ("状态", text_cell "在售")
    ∷ [])

abbrev pub bare_row : Row ℤ
bare_row = some (("总价", text_cell "523") ∷ [])

abbrev pub sold_row : Row ℤ
sold_row =
    some
      (("链家编号", text_cell "201") ∷ ("成交日期", text_cell "2024年3月9日") ∷ ("总价", text_cell "498") ∷ [])

abbrev pub listing_snapshot : LianjiaListingSnapshot ℤ
listing_snapshot = record {
  community_id = "c-1";
  snapshot_at = collected;
  source_url = none;
  raw_payload_ref = some "snapshot://1";
  rows = listed_row ∷ none ∷ bare_row ∷ [];
}

abbrev pub transaction_snapshot : LianjiaTransactionSnapshot ℤ
transaction_snapshot = record {
  collected_at = collected;
  source_url = none;
  raw_payload_ref = some "snapshot://2";
  rows = sold_row ∷ none ∷ [];
}

abbrev seen :
    Result Raised (RowOutcome (ListingObservation ℤ))
    → Option (ℤ × Option ℤ × FloorBucket × ListingStatus)
seen (ok (parsed o)) =
    some (o.snapshot.list_price_cny, o.listing.area_sqm, o.listing.floor_bucket, o.listing.status)
seen (ok (refused q)) = none
seen (err e) = none

listed_row_parsed :
    seen (parse_listing_row rt (listing_context listing_snapshot) 0 listed_row)
    ≡ some (pos 5230000, some (pos 89), FloorBucket.mid, active)
unfolding parse_listing_row find upsert_all upsert rt ◌*ℤ◌
listed_row_parsed = refl
