-- ===== src/Providers/Lianjia/Listings.antt =====
-- providers/lianjia/listing_parser.py: an extracted row as a listing observation or a rejection.
pub mod Laws
use cn_property_agent.Prelude.{
  ℕ, suc, String, string_eq, Bool, Option, none, some, List, [], ◌∷◌, Result, ok, err, ◌>>=◌,
  if◌then◌else◌,
}
use cn_property_agent.Prelude.Int.{ℤ}
use cn_property_agent.Floats.{Floats}
use cn_property_agent.Utils.{TextTools, stable_id}
use cn_property_agent.Domain.Common.{Instant, FloorBucket, ListingStatus, Raised}
use cn_property_agent.Domain.Listing.{
  Listing, ListingSnapshot, ListingObservation, valid_observation,
}
use cn_property_agent.Providers.Parsing.{
  FieldParseError, missing_source_identity, malformed_row, schema_invalid, SourceRowRef, RowOutcome,
  parsed, ParseResult, build_parse_result,
}
use cn_property_agent.Providers.Lianjia.Runtime.{Runtime}
use cn_property_agent.Providers.Lianjia.Numbers.{
  lianjia_source, parse_area_sqm, parse_wan_to_cny, parse_unit_price_cny_sqm, parse_year,
}
use cn_property_agent.Providers.Lianjia.Wording.{
  parse_aware_datetime, parse_floor_bucket, parse_listing_status,
}
use cn_property_agent.Providers.Lianjia.Cells.{
  Row, Cells, Aliases, or_else, normalize_row_keys, cell, raw_text, convert, layout,
}
use cn_property_agent.Providers.Lianjia.Transactions.{reject, bare_ref}

abbrev pub listing_parser_version : String
listing_parser_version = "lianjia-listing-v1"

abbrev pub listing_id_field : String
listing_id_field = "房源编号"

abbrev pub list_price_field : String
list_price_field = "总价"

abbrev pub snapshot_at_field : String
snapshot_at_field = "快照时间"

abbrev pub listing_aliases : Aliases
listing_aliases =
    (listing_id_field, "房源编号" ∷ "链家编号" ∷ "房源id" ∷ "source_listing_id" ∷ [])
    ∷ (list_price_field, "总价" ∷ "挂牌价格（万）" ∷ "挂牌价格" ∷ "挂牌价" ∷ "售价" ∷ "报价" ∷ [])
    ∷ ("单价", "单价" ∷ "挂牌单价" ∷ "单价（元/平米）" ∷ "参考单价" ∷ [])
    ∷ ("建筑面积", "建筑面积" ∷ "面积" ∷ [])
    ∷ ("房屋户型", "房屋户型" ∷ "户型" ∷ [])
    ∷ ("标题", "标题" ∷ "房源标题" ∷ "title" ∷ "name" ∷ [])
    ∷ ("房屋朝向", "房屋朝向" ∷ "朝向" ∷ [])
    ∷ ("所在楼层", "所在楼层" ∷ "楼层" ∷ [])
    ∷ ("建成年代", "建成年代" ∷ "建筑年代" ∷ "建成年份" ∷ [])
    ∷ ("建筑类型", "建筑类型" ∷ "楼型" ∷ [])
    ∷ ("挂牌状态", "挂牌状态" ∷ "房源状态" ∷ "状态" ∷ "status" ∷ [])
    ∷ (snapshot_at_field, "快照时间" ∷ "采集时间" ∷ "snapshot_at" ∷ [])
    ∷ ("source_url", "source_url" ∷ "房源链接" ∷ "链接" ∷ "url" ∷ [])
    ∷ ("raw_payload_ref", "raw_payload_ref" ∷ [])
    ∷ []

pub record LianjiaListingParseContext : Type 0 where
  pub community_id : String
  pub snapshot_at : Instant
  pub source_url : Option String
  pub raw_payload_ref : Option String

unfoldable pub build_listing_id : TextTools → String → String → Result Raised String
unfolding stable_id
build_listing_id tools source source_listing_id =
    stable_id tools "lst" (source ∷ source_listing_id ∷ [])

-- The local variables that the conversions fill.
pub record ListingFields (F : Type 0) : Type 0 where
  pub snapshot_at : Option Instant
  pub list_price_cny : Option F
  pub unit_price_cny_sqm : Option F
  pub area_sqm : Option F
  pub built_year : Option ℤ
  pub orientation : Option String
  pub building_type : Option String
  pub layout : Option String
  pub floor_bucket : FloorBucket
  pub status : ListingStatus

-- `default if text is None else parse(text)`
abbrev pub parsed_or : {A : Type 0} → A → (String → A) → Option String → A
parsed_or default parse none = default
parsed_or default parse (some s) = parse s

-- `snapshot_at or context.snapshot_at`
abbrev pub instant_or : Option Instant → Instant → Instant
instant_or none t = t
instant_or (some t) other = t

module _ {F : Type 0} ⦃fl : Floats F⦄ (rt : Runtime F) (context : LianjiaListingParseContext) where
  unfoldable pub listing_url_of : Cells F → Option String
  unfolding raw_text
  listing_url_of cells = or_else (raw_text rt listing_aliases cells "source_url") context.source_url

  unfoldable pub listing_payload_of : Cells F → Option String
  unfolding raw_text
  listing_payload_of cells =
      or_else (raw_text rt listing_aliases cells "raw_payload_ref") context.raw_payload_ref

  -- `row_ref`
  unfoldable pub listing_ref_of : ℕ → Cells F → SourceRowRef
  unfolding raw_text listing_url_of listing_payload_of
  listing_ref_of row_index cells = record {
    source = lianjia_source;
    row_index = some row_index;
    source_row_id = raw_text rt listing_aliases cells listing_id_field;
    source_url = listing_url_of cells;
    raw_payload_ref = listing_payload_of cells;
  }

  -- The conversions, in the order in which they may raise.
  unfoldable pub listing_fields_of : Cells F → Result FieldParseError (ListingFields F)
  unfolding cell convert layout parse_aware_datetime parse_floor_bucket parse_listing_status
      parse_area_sqm parse_year parse_wan_to_cny parse_unit_price_cny_sqm
  listing_fields_of cells = do
    snapshot_at ← convert rt listing_aliases cells snapshot_at_field (parse_aware_datetime rt)
    list_price ← convert rt listing_aliases cells list_price_field (parse_wan_to_cny rt)
    unit_price ← convert rt listing_aliases cells "单价" (parse_unit_price_cny_sqm rt)
    area_sqm ← convert rt listing_aliases cells "建筑面积" (parse_area_sqm rt)
    built_year ← convert rt listing_aliases cells "建成年代" (parse_year rt)
    orientation ← cell rt listing_aliases cells "房屋朝向"
    building_type ← cell rt listing_aliases cells "建筑类型"
    layout' ← layout rt listing_aliases cells
    floor ← cell rt listing_aliases cells "所在楼层"
    status ← cell rt listing_aliases cells "挂牌状态"
    ok (record {
      snapshot_at = snapshot_at;
      list_price_cny = list_price;
      unit_price_cny_sqm = unit_price;
      area_sqm = area_sqm;
      built_year = built_year;
      orientation = orientation;
      building_type = building_type;
      layout = layout';
      floor_bucket = parsed_or FloorBucket.unknown parse_floor_bucket floor;
      status = parsed_or ListingStatus.unknown parse_listing_status status;
    })

  -- `ListingObservation(…)`: one row proves one instant.
  unfoldable pub observation_of :
      String → String → F → Cells F → ListingFields F → ListingObservation F
  unfolding listing_url_of listing_payload_of
  observation_of listing_id source_listing_id list_price cells f =
      let observed_at = instant_or f.snapshot_at context.snapshot_at in
      record {
        listing = record {
          listing_id = listing_id;
          community_id = context.community_id;
          source = lianjia_source;
          source_listing_id = source_listing_id;
          area_sqm = f.area_sqm;
          layout = f.layout;
          floor_bucket = f.floor_bucket;
          orientation = f.orientation;
          built_year = f.built_year;
          building_type = f.building_type;
          first_seen_at = observed_at;
          last_seen_at = observed_at;
          status = f.status;
        };
        snapshot = record {
          listing_id = listing_id;
          snapshot_at = observed_at;
          list_price_cny = list_price;
          unit_price_cny_sqm = f.unit_price_cny_sqm;
          status = f.status;
          source = lianjia_source;
          source_url = listing_url_of cells;
          raw_payload_ref = listing_payload_of cells;
          parser_version = listing_parser_version;
        };
      }

  -- The `try` around the model; an exception of `build_listing_id` leaves the function.
  unfoldable pub identified :
      SourceRowRef
      → Cells F
      → String
      → F
      → ListingFields F
      → Result Raised (RowOutcome (ListingObservation F))
  unfolding build_listing_id observation_of valid_observation
  identified ref cells id list_price f = do
    listing_id ← build_listing_id rt.text lianjia_source id
    let o = observation_of listing_id id list_price cells f
    ok (if valid_observation o then parsed o else reject ref schema_invalid none)

  -- Past the conversions.
  unfoldable pub priced :
      SourceRowRef
      → Cells F
      → String
      → ListingFields F
      → Result Raised (RowOutcome (ListingObservation F))
  unfolding identified
  priced ref cells id f = elim (f.list_price_cny) [
    | none ↦ ok (reject ref schema_invalid (some list_price_field))
    | some list_price ↦ identified ref cells id list_price f
  ]

  unfoldable pub listing_from_cells :
      ℕ → Cells F → Result Raised (RowOutcome (ListingObservation F))
  unfolding listing_ref_of cell listing_fields_of priced
  listing_from_cells row_index cells =
      let ref = listing_ref_of row_index cells in
      elim (cell rt listing_aliases cells listing_id_field) [
        | err e ↦ ok (reject ref e.reason (some listing_id_field))
        | ok none ↦ ok (reject ref missing_source_identity (some listing_id_field))
        | ok (some id) ↦ elim (listing_fields_of cells) [
          | err e ↦ ok (reject ref e.reason e.field)
          | ok f ↦ priced ref cells id f
        ]
      ]

  unfoldable pub parse_listing_row : ℕ → Row F → Result Raised (RowOutcome (ListingObservation F))
  unfolding listing_from_cells normalize_row_keys
  parse_listing_row row_index none = ok (reject (bare_ref row_index) malformed_row none)
  parse_listing_row row_index (some row) = listing_from_cells row_index (normalize_row_keys rt row)

  -- The outcomes of `enumerate(rows)` from an index on.
  unfoldable pub listing_outcomes_from :
      ℕ → List (Row F) → Result Raised (List (RowOutcome (ListingObservation F)))
  unfolding parse_listing_row
  listing_outcomes_from row_index [] = ok []
  listing_outcomes_from row_index (row ∷ rows) = do
    outcome ← parse_listing_row row_index row
    rest ← listing_outcomes_from (suc row_index) rows
    ok (outcome ∷ rest)

  unfoldable pub parse_listing_rows :
      List (Row F) → Result Raised (ParseResult (ListingObservation F))
  unfolding listing_outcomes_from build_parse_result
  parse_listing_rows rows = do
    outcomes ← listing_outcomes_from 0 rows
    ok (build_parse_result outcomes)
