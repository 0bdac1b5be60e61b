-- ===== src/Analytics/Common.antt =====
-- analytics/common.py: the median rule and the validation that every metric shares, with
-- `statistics.median`, `max` and `sorted(set(…))` as the metrics use them.
pub mod Median
pub mod Invariance
use cn_property_agent.Prelude.{
  ℕ, zero, suc, ◌+◌, ◌-◌, ◌/◌, ◌%◌, String, string_eq, Bool, Option, none, some, List, [], ◌∷◌,
  Result, ok, err, ◌==◌, length, get_elem?, ltb, leb, nat_beq, if◌then◌else◌,
}
use cn_property_agent.Prelude.Int.{ℤ, pos, negsuc}
use cn_property_agent.Prelude.Sorting.{sorted}
use cn_property_agent.Prelude.Text.{str_ltb, is_blank}
use cn_property_agent.Floats.{Floats}
use cn_property_agent.Domain.Common.{Raised, value_error}

abbrev pub minimum_sample_count : ℕ
minimum_sample_count = 3

pub record MedianMetric (F : Type 0) : Type 0 where
  pub value : Option F
  pub usable_count : ℕ

-- `max(values, default=None)` over dates and instants
unfoldable pub maximum : List ℕ → Option ℕ
maximum [] = none
maximum (x ∷ xs) = elim (maximum xs) [ none ↦ some x | some y ↦ if ltb x y then some y else some x ]

-- Of equal neighbours, one.
unfoldable pub dedupe : List String → List String
dedupe [] = []
dedupe (x ∷ []) = x ∷ []
dedupe (x ∷ y ∷ ys) = let rest = dedupe (y ∷ ys) in if x == y then rest else x ∷ rest

-- `sorted(set(values))`
unfoldable pub sorted_set : List String → List String
sorted_set values = dedupe (sorted str_ltb values)

-- What a caller may pass for a count: `isinstance` tells these apart.
pub data CountArg : Type 0 where
  bool_arg : Bool → CountArg
  int_arg : ℤ → CountArg
  other_arg : CountArg

unfoldable pub validate_minimum_sample_count : CountArg → Result Raised ℕ
validate_minimum_sample_count (bool_arg b) = err value_error
validate_minimum_sample_count other_arg = err value_error
validate_minimum_sample_count (int_arg (negsuc n)) = err value_error
validate_minimum_sample_count (int_arg (pos n)) = if ltb n 1 then err value_error else ok n

unfoldable pub validate_community_id : String → Result Raised String
validate_community_id value = if is_blank value then err value_error else ok value

module _ {F : Type 0} ⦃fl : Floats F⦄ where
  -- `statistics.median`: `none` stands for its StatisticsError, on no data.
  midpoint : Option F → Option F → Option F
  midpoint (some a) (some b) = some (fl.div (fl.add a b) fl.two_f)
  midpoint _ _ = none

  unfoldable pub middle : List F → Option F
  unfolding midpoint
  middle [] = none
  middle (x ∷ xs) =
      let data' = x ∷ xs in
      let n = length data' in
      if nat_beq (n % 2) 1
      then get_elem? data' (n / 2)
      else midpoint (get_elem? data' (n / 2 - 1)) (get_elem? data' (n / 2))

  unfoldable pub median : List F → Option F
  unfolding middle
  median values = middle (sorted fl.lt values)

  -- StatisticsError is a ValueError.
  unfoldable pub median_metric : List F → ℕ → Result Raised (MedianMetric F)
  median_metric values minimum =
      if ltb (length values) minimum
      then ok (record { value = none; usable_count = length values })
      else elim (median values) [
        | none ↦ err value_error
        | some m ↦ ok (record { value = some m; usable_count = length values })
      ]
