-- ===== src/Tests/Recorded.antt =====
-- The theorems about the parsers and the recorded providers, at concrete rows.
use Prim.Native.Char.{Char, code}
use cn_property_agent.Prelude.{
  ◌+◌, ◌≡◌, ◌↔◌, refl, string_eq, true, none, some, [], arith, ok, All, length,
}
use cn_property_agent.Prelude.Int.{ℤ, pos, ◌*ℤ◌}
use cn_property_agent.Domain.Common.{Date, FloorBucket}
use cn_property_agent.Domain.Calendar.{is_date, date_of, is_leap, days_in_month}
use cn_property_agent.Providers.Fetch.{parsed_count}
use cn_property_agent.Providers.Lianjia.Wording.{parse_floor_bucket, parse_deal_date, is_separator}
use Prim.Native.String.{◌++◌}
use cn_property_agent.Providers.Lianjia.Numbers.{parse_wan_to_cny, malformed}
use cn_property_agent.Providers.Lianjia.Numbers.Digits.{KnowsUnits}
use cn_property_agent.Providers.Lianjia.Numbers.Prices.{parse_wan_to_cny_units}
use cn_property_agent.Providers.Lianjia.Wording.Words.{
  SaysOnly, floor_words, parse_floor_bucket_iff,
}
use cn_property_agent.Providers.Lianjia.Wording.Dates.{
  HasAsciiDigits, date_text, parse_deal_date_roundtrip,
}
use cn_property_agent.Providers.Lianjia.Cells.{normalize_row_keys, cell}
use cn_property_agent.Providers.Lianjia.Listings.{parse_listing_row, build_listing_id}
use cn_property_agent.Providers.Lianjia.Listings.Laws.{
  RowJudged, IsIdentifiable, parse_listing_row-Judged,
}
use cn_property_agent.Providers.Lianjia.Recorded.{listing_context, fetch_current_listings}
use cn_property_agent.Storage.Table.{find, upsert_all, upsert}
use cn_property_agent.Storage.Listings.{ListingStore}
use cn_property_agent.Services.ListingIngestion.{ListingIngestionResult, ingest}
use cn_property_agent.Services.ListingIngestion.Recorded.{Derived, ingest_recorded_total}
use cn_property_agent.Tests.Samples.{whole, garden}
use cn_property_agent.Tests.Lianjia.{rt, listed_row, listing_snapshot}

parse_listing_row-Judged_example :
    RowJudged rt
      (listing_context listing_snapshot)
      0
      listed_row
      (parse_listing_row rt (listing_context listing_snapshot) 0 listed_row)
parse_listing_row-Judged_example =
    parse_listing_row-Judged rt (listing_context listing_snapshot) 0 listed_row

abbrev empty_tables : ListingStore ℤ
empty_tables = record { listings = []; snapshots = [] }

snapshot-IsIdentifiable :
    All (IsIdentifiable rt (listing_context listing_snapshot)) listing_snapshot.rows
unfolding rt normalize_row_keys cell build_listing_id find upsert_all upsert
snapshot-IsIdentifiable = ((_, refl), (tt, (tt, tt)))

ingest_recorded_total_example :
    (result : ListingIngestionResult) × (store' : ListingStore ℤ) × (ingest
        (fetch_current_listings rt (some listing_snapshot))
        garden
        empty_tables
      ≡ (ok result, store'))
    × (result.source_row_count ≡ 3)
    × (result.parsed_count + length result.parse_rejections ≡ 3)
    × Derived rt.text store'
ingest_recorded_total_example =
    ingest_recorded_total rt listing_snapshot garden refl empty_tables tt snapshot-IsIdentifiable

parse_floor_bucket_iff_example :
    (parse_floor_bucket "中楼层/共18层" ≡ FloorBucket.mid)
    ↔ SaysOnly floor_words "中楼层/共18层" FloorBucket.mid
parse_floor_bucket_iff_example = parse_floor_bucket_iff "中楼层/共18层" FloorBucket.mid (λ e. cc)

rt-HasAsciiDigits : HasAsciiDigits rt
unfolding rt
rt-HasAsciiDigits = record { ascii = λ n h. (ground (arith, h), omega arith) }

leap_day : is_date 2024 2 29 ≡ true
unfolding is_date days_in_month is_leap
leap_day = refl

parse_deal_date_roundtrip_example :
    (date : Date) × (date_of 2024 2 29 ≡ some date)
    × ((a b : Char)
        → is_separator (code a) ≡ true
        → is_separator (code b) ≡ true
        → parse_deal_date rt (date_text a b "" 2024 2 29) (some "成交日期") ≡ ok date)
    × (parse_deal_date rt (date_text "年" "月" "日" 2024 2 29) (some "成交日期") ≡ ok date)
    × (parse_deal_date rt (date_text "年" "月" "" 2024 2 29) (some "成交日期") ≡ ok date)
parse_deal_date_roundtrip_example =
    parse_deal_date_roundtrip rt rt-HasAsciiDigits 2024 2 29 (some "成交日期") leap_day

rt-KnowsUnits : KnowsUnits rt
unfolding rt
rt-KnowsUnits = record {
  plus = refl;
  minus = refl;
  space = refl;
  wan = refl;
  yuan = refl;
  units = (refl, refl);
  caseless = λ s unit all known. refl;
}

parse_wan_to_cny_units_example :
    (parse_wan_to_cny rt ("523" ++ "") none ≡ ok (pos 5230000))
    × (parse_wan_to_cny rt ("523" ++ "万") none ≡ ok (pos 5230000))
    × (parse_wan_to_cny rt ("523" ++ "万元") none ≡ ok (pos 5230000))
    × (parse_wan_to_cny rt ("523" ++ "元") none ≡ malformed none)
unfolding rt ◌*ℤ◌
parse_wan_to_cny_units_example =
    parse_wan_to_cny_units rt rt-KnowsUnits "523" (refl, (refl, (refl, tt))) (λ e. cc) none
