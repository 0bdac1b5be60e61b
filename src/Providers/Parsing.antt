-- ===== src/Providers/Parsing.antt =====
-- providers/parsing.py: rows that a parser refused, and the split of a batch. The `detail` text of
-- a rejection is for people to read and is not modelled.
use cn_property_agent.Prelude.{ℕ, String, Option, List, [], ◌∷◌}

pub data ParseRejectionReason : Type 0 where
  missing_source_identity malformed_field malformed_row schema_invalid : ParseRejectionReason

pub record SourceRowRef : Type 0 where
  pub source : String
  pub row_index : Option ℕ
  pub source_row_id : Option String
  pub source_url : Option String
  pub raw_payload_ref : Option String

pub record ParseRejection : Type 0 where
  pub row : SourceRowRef
  pub reason : ParseRejectionReason
  pub field : Option String

-- What became of one row: `P | ParseRejection`.
pub data RowOutcome (P : Type 0) : Type 0 where
  parsed : P → RowOutcome P
  refused : ParseRejection → RowOutcome P

-- `ParseResult` (of records) and `ListingParseResult` (of observations).
pub record ParseResult (P : Type 0) : Type 0 where
  pub records : List P
  pub rejections : List ParseRejection

-- `build_parse_result` and `build_listing_parse_result`.
unfoldable pub build_parse_result : {P : Type 0} → List (RowOutcome P) → ParseResult P
build_parse_result [] = record { records = []; rejections = [] }
build_parse_result (parsed p ∷ rest) =
    let r = build_parse_result rest in record { records = p ∷ r.records; rejections = r.rejections }
build_parse_result (refused q ∷ rest) =
    let r = build_parse_result rest in record { records = r.records; rejections = q ∷ r.rejections }

-- `FieldParseError`: one source value is unintelligible.
pub record FieldParseError : Type 0 where
  pub field : Option String
  pub reason : ParseRejectionReason
