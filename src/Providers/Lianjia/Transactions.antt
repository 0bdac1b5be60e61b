-- ===== src/Providers/Lianjia/Transactions.antt =====
-- providers/lianjia/transaction_parser.py: an extracted row as a provider record or a rejection.
pub mod Laws
use cn_property_agent.Prelude.{
  ℕ, suc, String, string_eq, Bool, true, Option, none, some, List, [], ◌∷◌, Result, ok, err, ◌>>=◌,
  ◌==◌, ◌&&◌, if◌then◌else◌,
}
use cn_property_agent.Prelude.Int.{ℤ}
use cn_property_agent.Floats.{Floats}
use cn_property_agent.Domain.Common.{Date, Instant, FloorBucket, nonempty}
use cn_property_agent.Providers.Dto.{RawTransactionRecord}
use cn_property_agent.Providers.Parsing.{
  FieldParseError, ParseRejectionReason, missing_source_identity, malformed_row, schema_invalid,
  SourceRowRef, ParseRejection, RowOutcome, parsed, refused, ParseResult, build_parse_result,
}
use cn_property_agent.Providers.Lianjia.Runtime.{Runtime}
use cn_property_agent.Providers.Lianjia.Numbers.{
  lianjia_source, parse_area_sqm, parse_wan_to_cny, parse_unit_price_cny_sqm, parse_year,
  parse_days,
}
use cn_property_agent.Providers.Lianjia.Wording.{parse_deal_date, parse_floor_bucket}
use cn_property_agent.Providers.Lianjia.Cells.{
  Row, Cells, Aliases, or_else, normalize_row_keys, cell, raw_text, convert, layout,
}

abbrev pub parser_version : String
parser_version = "lianjia-transaction-v1"

abbrev pub source_id_field : String
source_id_field = "链家编号"

abbrev pub aliases : Aliases
aliases =
    (source_id_field, "链家编号" ∷ "房源编号" ∷ "成交编号" ∷ [])
    ∷ ("成交日期", "成交日期" ∷ "成交时间" ∷ "签约日期" ∷ [])
    ∷ ("建筑面积", "建筑面积" ∷ "面积" ∷ [])
    ∷ ("房屋户型", "房屋户型" ∷ "户型" ∷ [])
    ∷ ("标题", "标题" ∷ "房源标题" ∷ "title" ∷ "name" ∷ [])
    ∷ ("房屋朝向", "房屋朝向" ∷ "朝向" ∷ [])
    ∷ ("所在楼层", "所在楼层" ∷ "楼层" ∷ [])
    ∷ ("建成年代", "建成年代" ∷ "建筑年代" ∷ "建成年份" ∷ [])
    ∷ ("挂牌价格（万）", "挂牌价格（万）" ∷ "挂牌价格" ∷ "挂牌价" ∷ "挂牌总价" ∷ [])
    ∷ ("总价", "总价" ∷ "成交价格（万）" ∷ "成交总价" ∷ "成交价" ∷ [])
    ∷ ("单价", "单价" ∷ "成交单价" ∷ "单价（元/平米）" ∷ [])
    ∷ ("成交周期（天）", "成交周期（天）" ∷ "成交周期" ∷ "成交用时" ∷ [])
    ∷ ("source_url", "source_url" ∷ "房源链接" ∷ "链接" ∷ "url" ∷ [])
    ∷ ("raw_payload_ref", "raw_payload_ref" ∷ [])
    ∷ []

pub record LianjiaParseContext : Type 0 where
  pub collected_at : Instant
  pub source_url : Option String
  pub raw_payload_ref : Option String

-- What the dict `fields` holds.
pub record Fields (F : Type 0) : Type 0 where
  pub deal_date : Option Date
  pub area_sqm : Option F
  pub layout : Option String
  pub floor_bucket : Option String
  pub orientation : Option String
  pub built_year : Option ℤ
  pub initial_listing_price_cny : Option F
  pub deal_price_cny : Option F
  pub unit_price_cny_sqm : Option F
  pub days_on_market : Option ℤ

-- `FloorBucket(…).value`
abbrev pub bucket_value : FloorBucket → String
bucket_value FloorBucket.low = "low"
bucket_value FloorBucket.mid = "mid"
bucket_value FloorBucket.high = "high"
bucket_value FloorBucket.unknown = "unknown"

abbrev pub map_option : {A B : Type 0} → (A → B) → Option A → Option B
map_option f none = none
map_option f (some a) = some (f a)

-- `_reject`
abbrev pub reject :
    {P : Type 0} → SourceRowRef → ParseRejectionReason → Option String → RowOutcome P
reject row reason field = refused (record { row = row; reason = reason; field = field })

-- The pointer to a row that is no mapping.
abbrev pub bare_ref : ℕ → SourceRowRef
bare_ref row_index = record {
  source = lianjia_source;
  row_index = some row_index;
  source_row_id = none;
  source_url = none;
  raw_payload_ref = none;
}

-- The constraints of `RawTransactionRecord`; a source identity is none of them.
abbrev pub valid_record : {F : Type 0} → RawTransactionRecord F → Bool
valid_record r = nonempty r.source && nonempty r.parser_version

module _ {F : Type 0} ⦃fl : Floats F⦄ (rt : Runtime F) (context : LianjiaParseContext) where
  unfoldable pub url_of : Cells F → Option String
  url_of cells = or_else (raw_text rt aliases cells "source_url") context.source_url

  unfoldable pub payload_of : Cells F → Option String
  payload_of cells = or_else (raw_text rt aliases cells "raw_payload_ref") context.raw_payload_ref

  -- `row_ref`
  unfoldable pub ref_of : ℕ → Cells F → SourceRowRef
  unfolding raw_text url_of payload_of
  ref_of row_index cells = record {
    source = lianjia_source;
    row_index = some row_index;
    source_row_id = raw_text rt aliases cells source_id_field;
    source_url = url_of cells;
    raw_payload_ref = payload_of cells;
  }

  -- The conversions, in the order in which they may raise.
  unfoldable pub fields_of : Cells F → Result FieldParseError (Fields F)
  unfolding cell convert layout parse_deal_date parse_floor_bucket parse_area_sqm parse_year
      parse_days parse_wan_to_cny parse_unit_price_cny_sqm
  fields_of cells = do
    deal_date ← convert rt aliases cells "成交日期" (parse_deal_date rt)
    area_sqm ← convert rt aliases cells "建筑面积" (parse_area_sqm rt)
    layout' ← layout rt aliases cells
    floor ← cell rt aliases cells "所在楼层"
    orientation ← cell rt aliases cells "房屋朝向"
    built_year ← convert rt aliases cells "建成年代" (parse_year rt)
    initial_price ← convert rt aliases cells "挂牌价格（万）" (parse_wan_to_cny rt)
    deal_price ← convert rt aliases cells "总价" (parse_wan_to_cny rt)
    unit_price ← convert rt aliases cells "单价" (parse_unit_price_cny_sqm rt)
    days ← convert rt aliases cells "成交周期（天）" (parse_days rt)
    ok (record {
      deal_date = deal_date;
      area_sqm = area_sqm;
      layout = layout';
      floor_bucket = map_option (λ s. bucket_value (parse_floor_bucket s)) floor;
      orientation = orientation;
      built_year = built_year;
      initial_listing_price_cny = initial_price;
      deal_price_cny = deal_price;
      unit_price_cny_sqm = unit_price;
      days_on_market = days;
    })

  -- `RawTransactionRecord(…)`, whose texts are trimmed before their constraints are checked.
  unfoldable pub record_of : String → Cells F → Fields F → RawTransactionRecord F
  unfolding url_of payload_of
  record_of id cells f = record {
    source = rt.trim lianjia_source;
    source_transaction_id = some (rt.trim id);
    source_url = map_option rt.trim (url_of cells);
    deal_date = f.deal_date;
    area_sqm = f.area_sqm;
    layout = map_option rt.trim f.layout;
    floor_bucket = map_option rt.trim f.floor_bucket;
    orientation = map_option rt.trim f.orientation;
    built_year = f.built_year;
    initial_listing_price_cny = f.initial_listing_price_cny;
    deal_price_cny = f.deal_price_cny;
    unit_price_cny_sqm = f.unit_price_cny_sqm;
    days_on_market = f.days_on_market;
    raw_payload_ref = map_option rt.trim (payload_of cells);
    collected_at = context.collected_at;
    parser_version = rt.trim parser_version;
  }

  -- Past the identity.
  unfoldable pub with_identity :
      SourceRowRef → Cells F → String → RowOutcome (RawTransactionRecord F)
  unfolding fields_of record_of
  with_identity ref cells id = elim (fields_of cells) [
    | err e ↦ reject ref e.reason e.field
    | ok f ↦
        let r = record_of id cells f in
        if valid_record r then parsed r else reject ref schema_invalid none
  ]

  unfoldable pub from_cells : ℕ → Cells F → RowOutcome (RawTransactionRecord F)
  unfolding ref_of cell with_identity
  from_cells row_index cells = elim (cell rt aliases cells source_id_field) [
    | err e ↦ reject (ref_of row_index cells) e.reason (some source_id_field)
    | ok none ↦ reject (ref_of row_index cells) missing_source_identity (some source_id_field)
    | ok (some id) ↦ with_identity (ref_of row_index cells) cells id
  ]

  unfoldable pub parse_transaction_row : ℕ → Row F → RowOutcome (RawTransactionRecord F)
  unfolding from_cells normalize_row_keys
  parse_transaction_row row_index none = reject (bare_ref row_index) malformed_row none
  parse_transaction_row row_index (some row) = from_cells row_index (normalize_row_keys rt row)

  -- The outcomes of `enumerate(rows)` from an index on.
  unfoldable pub outcomes_from : ℕ → List (Row F) → List (RowOutcome (RawTransactionRecord F))
  unfolding parse_transaction_row
  outcomes_from row_index [] = []
  outcomes_from row_index (row ∷ rows) =
      parse_transaction_row row_index row ∷ outcomes_from (suc row_index) rows

  unfoldable pub parse_transaction_rows : List (Row F) → ParseResult (RawTransactionRecord F)
  unfolding outcomes_from build_parse_result
  parse_transaction_rows rows = build_parse_result (outcomes_from 0 rows)
