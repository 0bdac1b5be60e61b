-- ===== src/Providers/Accounting.antt =====
-- providers/parsing.py and fetch.py: every row is accounted for.
use cn_property_agent.Prelude.{
  ◌+◌, ◌≡◌, ◌≤◌, refl, Option, none, some, List, [], ◌∷◌, arith, ok, length,
}
use cn_property_agent.Prelude.Int.{ℤ}
use cn_property_agent.Providers.Parsing.{RowOutcome, parsed, refused, build_parse_result}
use cn_property_agent.Providers.Fetch.{
  FetchResult, parsed_count, parse_rejection_count, from_parse_result,
}

module _ {P : Type 0} where
  pub build_parse_result_count :
      (outcomes : List (RowOutcome P))
      → length (build_parse_result outcomes).records
          + length (build_parse_result outcomes).rejections
        ≡ length outcomes
  unfolding build_parse_result
  build_parse_result_count [] = refl
  build_parse_result_count (parsed p ∷ rest) = omega (arith, build_parse_result_count rest)
  build_parse_result_count (refused q ∷ rest) = omega (arith, build_parse_result_count rest)

  -- When a fetch is made from the parse result of a batch of row outcomes, the parsed rows and the
  -- refused rows are the outcomes together, and the source row count is at least that.
  pub from_parse_result_accounting :
      (outcomes : List (RowOutcome P)) (count : Option ℤ) (f : FetchResult P)
      → from_parse_result (build_parse_result outcomes) count ≡ ok f
      → (parsed_count f + parse_rejection_count f ≡ length outcomes)
        × (length outcomes ≤ f.source_row_count)
  unfolding from_parse_result
  from_parse_result_accounting outcomes none f h =
      ground (arith, h, build_parse_result_count outcomes)
  from_parse_result_accounting outcomes (some n) f h =
      ground (arith, h, build_parse_result_count outcomes)

  -- A fetch that is made from the parse result of a batch of row outcomes without a source row
  -- count is always accepted, and its source row count is the number of outcomes.
  pub from_parse_result_default :
      (outcomes : List (RowOutcome P))
      → (f : FetchResult P) × (from_parse_result (build_parse_result outcomes) none ≡ ok f)
        × (f.source_row_count ≡ length outcomes)
  unfolding from_parse_result
  from_parse_result_default outcomes =
      let r = build_parse_result outcomes in
      (
        record {
          parsed = r.records;
          parse_rejections = r.rejections;
          source_row_count = length r.records + length r.rejections;
        },
        ground arith,
        build_parse_result_count outcomes,
      )
