-- ===== src/Providers/Fetch.antt =====
-- providers/fetch.py: the envelope of one fetch, with its row accounting. `_FetchResult` is the
-- record; its two subclasses differ in the type of what was parsed.
use cn_property_agent.Prelude.{
  ℕ, ◌+◌, Option, none, some, List, [], Result, ok, err, length, if◌then◌else◌,
}
use cn_property_agent.Prelude.Int.{ℤ, pos, leb_ℤ, pos_part}
use cn_property_agent.Domain.Common.{Raised, validation_error}
use cn_property_agent.Providers.Parsing.{ParseRejection, ParseResult}

pub record FetchResult (P : Type 0) : Type 0 where
  -- `records` or `observations`
  pub parsed : List P
  pub parse_rejections : List ParseRejection
  pub source_row_count : ℕ

module _ {P : Type 0} where
  abbrev pub parsed_count : FetchResult P → ℕ
  parsed_count f = length f.parsed

  abbrev pub parse_rejection_count : FetchResult P → ℕ
  parse_rejection_count f = length f.parse_rejections

  -- `_validate_source_row_count` and the field's `ge=0`
  accounted_for : List P → List ParseRejection → ℤ → Result Raised (FetchResult P)
  accounted_for parsed rejections count =
      if leb_ℤ (pos (length parsed + length rejections)) count
      then ok (record {
        parsed = parsed;
        parse_rejections = rejections;
        source_row_count = pos_part count;
      })
      else err validation_error

  -- The constructor, with `_default_source_row_count`.
  unfoldable pub make_fetch_result :
      List P → List ParseRejection → Option ℤ → Result Raised (FetchResult P)
  unfolding accounted_for
  make_fetch_result parsed rejections none =
      accounted_for parsed rejections (pos (length parsed + length rejections))
  make_fetch_result parsed rejections (some count) = accounted_for parsed rejections count

  -- `from_parse_result`
  unfoldable pub from_parse_result : ParseResult P → Option ℤ → Result Raised (FetchResult P)
  unfolding make_fetch_result
  from_parse_result result count = make_fetch_result result.records result.rejections count

  -- `from_records` and `from_observations`
  unfoldable pub from_records : List P → Option ℤ → Result Raised (FetchResult P)
  unfolding make_fetch_result
  from_records records count = make_fetch_result records [] count

-- `MarketObservationFetchResult` holds the observations alone.
pub record MarketObservationFetchResult (P : Type 0) : Type 0 where
  pub observations : List P
