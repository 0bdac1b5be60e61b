-- ===== src/Tests/Parsing.antt =====
-- A fetch of three rows, one of them refused, and the row accounting at that input.
use cn_property_agent.Prelude.{◌+◌, ◌≡◌, ◌≤◌, refl, String, none, some, List, [], ◌∷◌, ok, length}
use cn_property_agent.Prelude.Int.{pos}
use cn_property_agent.Providers.Parsing.{
  ParseRejection, missing_source_identity, RowOutcome, parsed, refused, build_parse_result,
}
use cn_property_agent.Providers.Fetch.{
  FetchResult, parsed_count, parse_rejection_count, from_parse_result,
}
use cn_property_agent.Providers.Accounting.{from_parse_result_accounting}

abbrev nameless : ParseRejection
nameless = record {
  row = record {
    source = "lianjia";
    row_index = some 1;
    source_row_id = none;
    source_url = none;
    raw_payload_ref = none;
  };
  reason = missing_source_identity;
  field = some "source_transaction_id";
}

abbrev outcomes : List (RowOutcome String)
outcomes = parsed "a" ∷ refused nameless ∷ parsed "b" ∷ []

abbrev fetch : FetchResult String
fetch = record { parsed = "a" ∷ "b" ∷ []; parse_rejections = nameless ∷ []; source_row_count = 5 }

fetches : from_parse_result (build_parse_result outcomes) (some (pos 5)) ≡ ok fetch
unfolding from_parse_result build_parse_result
fetches = refl

from_parse_result_accounting_example :
    (parsed_count fetch + parse_rejection_count fetch ≡ length outcomes)
    × (length outcomes ≤ fetch.source_row_count)
from_parse_result_accounting_example =
    from_parse_result_accounting outcomes (some (pos 5)) fetch fetches
