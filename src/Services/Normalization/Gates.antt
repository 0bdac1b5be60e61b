-- ===== src/Services/Normalization/Gates.antt =====
-- services/transaction_normalization.py: the vocabulary, and each quality gate on one provider record. A
-- gate is a `Result` whose error is a rejection or an exception. `detail` texts are not modelled; a
-- warning is a value in place of its text.
use cn_property_agent.Prelude.{
  ◌+◌, nat_eq, String, string_eq, Bool, true, false, not, Option, none, some, List, [], ◌∷◌, Result,
  ok, err, ◌==◌, ◌&&◌, ltb, leb, if◌then◌else◌,
}
use cn_property_agent.Prelude.Int.{ℤ, pos, ltb_ℤ}
use cn_property_agent.Prelude.Text.{strip}
use cn_property_agent.Floats.{Floats}
use cn_property_agent.Utils.{TextTools, stable_id}
use cn_property_agent.Domain.Common.{
  Date, Instant, utc_date, max_date, FloorBucket, low, mid, high, unknown, Raised, value_error,
  overflow_error,
}
use cn_property_agent.Domain.Transaction.{Transaction}

pub data RejectionReason : Type 0 where
  missing_source_identity missing_deal_date deal_date_in_future : RejectionReason
  deal_date_out_of_range invalid_area invalid_deal_price invalid_unit_price : RejectionReason
  invalid_listing_price invalid_days_on_market inconsistent_unit_price : RejectionReason
  duplicate_in_batch schema_invalid : RejectionReason

pub record TransactionRejection : Type 0 where
  pub source : String
  pub source_transaction_id : Option String
  pub source_url : Option String
  pub reason : RejectionReason

pub data Warning : Type 0 where
  derived_unit_price : Warning
  unrecognized_floor_bucket : String → Warning

pub record NormalizedTransaction (F : Type 0) : Type 0 where
  pub transaction : Transaction F
  pub warnings : List Warning

-- `NormalizedTransaction | TransactionRejection`
pub data Outcome (F : Type 0) : Type 0 where
  normalized : NormalizedTransaction F → Outcome F
  rejected : TransactionRejection → Outcome F

-- An argument for the tolerance: what its checks tell apart.
pub data ToleranceArg (F : Type 0) : Type 0 where
  bool_arg : Bool → ToleranceArg F
  int_arg : ℤ → ToleranceArg F
  float_arg : F → ToleranceArg F
  other_arg : ToleranceArg F

-- How the chain of gates stops.
pub data Stop : Type 0 where
  reject : RejectionReason → Stop
  raised : Raised → Stop

-- `if b: return _reject(record, reason, …)`
abbrev pub reject_if : Bool → RejectionReason → Result Stop (Unit {0})
reject_if true reason = err (reject reason)
reject_if false reason = ok tt

abbrev pub or_reject : {A : Type 0} → Option A → RejectionReason → Result Stop A
or_reject none reason = err (reject reason)
or_reject (some a) reason = ok a

unfoldable pub build_transaction_id : TextTools → String → String → Result Raised String
unfolding stable_id
build_transaction_id tools source source_transaction_id =
    stable_id tools "tx" (source ∷ source_transaction_id ∷ [])

-- The warnings and the bucket of `_coerce_floor_bucket`.
bucket_of : String → Option FloorBucket
bucket_of text =
    if text == "low"
    then some low
    else if text == "mid"
    then some mid
    else if text == "high"
    then some high
    else if text == "unknown"
    then some unknown
    else none

unfoldable pub coerce_floor_bucket : TextTools → Option String → FloorBucket × List Warning
unfolding bucket_of strip
coerce_floor_bucket tools none = (unknown, [])
coerce_floor_bucket tools (some value) = elim (bucket_of (tools.casefold (strip value))) [
  | some bucket ↦ (bucket, [])
  | none ↦ (unknown, unrecognized_floor_bucket value ∷ [])
]

-- `record.deal_date > observed_on + FUTURE_DEAL_DATE_GRACE`, where the shift to UTC
-- overflows below day 1, and the sum after the last day.
unfoldable pub in_future : Date → Instant → Result Stop Bool
unfolding utc_date
in_future deal_date collected_at =
    let observed_on = utc_date collected_at in
    if observed_on == 0
    then err (raised overflow_error)
    else if leb max_date observed_on
    then err (raised overflow_error)
    else ok (ltb (observed_on + 1) deal_date)

-- `start is not None and d < start`, `end is not None and d > end`
unfoldable pub before : Date → Option Date → Bool
before d none = false
before d (some start) = ltb d start

unfoldable pub after : Date → Option Date → Bool
after d none = false
after d (some end) = ltb end d

unfoldable pub negative : Option ℤ → Bool
negative none = false
negative (some n) = ltb_ℤ n (pos 0)

module _ {F : Type 0} ⦃fl : Floats F⦄ where
  finite_in_range : F → Result Raised F
  finite_in_range tolerance =
      if not (fl.is_finite tolerance)
      then err value_error
      else if not (fl.le fl.zero_f tolerance && fl.le tolerance fl.one_f)
      then err value_error
      else ok tolerance

  unfoldable pub validate_unit_price_tolerance : ToleranceArg F → Result Raised F
  unfolding finite_in_range
  validate_unit_price_tolerance (bool_arg b) = err value_error
  validate_unit_price_tolerance other_arg = err value_error
  validate_unit_price_tolerance (int_arg n) = elim (fl.of_int n) [
    | none ↦ err overflow_error
    | some x ↦ finite_in_range x
  ]
  validate_unit_price_tolerance (float_arg x) = finite_in_range x

  -- `x <= 0`
  abbrev pub nonpositive : F → Bool
  nonpositive x = fl.le x fl.zero_f

  -- `x is None or x <= 0` rejects.
  unfoldable pub required_positive : Option F → RejectionReason → Result Stop F
  required_positive none reason = err (reject reason)
  required_positive (some x) reason = if nonpositive x then err (reject reason) else ok x

  unfoldable pub nonpositive_when_present : Option F → Bool
  nonpositive_when_present none = false
  nonpositive_when_present (some x) = nonpositive x

  -- `abs(unit_price * area - deal_price) / deal_price`
  unfoldable pub deviation : F → F → F → F
  deviation unit_price area price =
      fl.div (fl.absolute (fl.sub (fl.mul unit_price area) price)) price

  -- The unit price that is stored, and its warning.
  unfoldable pub checked_unit_price : Option F → F → F → F → Result Stop (F × List Warning)
  unfolding deviation
  checked_unit_price none area price tolerance = ok (fl.div price area, derived_unit_price ∷ [])
  checked_unit_price (some unit_price) area price tolerance =
      if nonpositive unit_price
      then err (reject invalid_unit_price)
      else if fl.lt tolerance (deviation unit_price area price)
      then err (reject inconsistent_unit_price)
      else ok (unit_price, [])
