-- ===== src/Services/Normalization/Order.antt =====
-- `normalize_transaction` against a table: the gates in the order of the docstring's vocabulary,
-- each with the test that trips it, and the first that trips decides.
use cn_property_agent.Prelude.{
  ◌+◌, ◌≡◌, ◌<◌, String, string_eq, Bool, true, false, not, Option, none, some, List, [], ◌∷◌, ◌++◌,
  arith, ok, ◌==◌, ltb, if◌then◌else◌,
}
use cn_property_agent.Floats.{Floats}
use cn_property_agent.Utils.{TextTools}
use cn_property_agent.Domain.Common.{Date, utc_date, max_date}
use cn_property_agent.Domain.Community.{Community}
use cn_property_agent.Domain.Transaction.{Transaction, valid_transaction}
use cn_property_agent.Providers.Dto.{RawTransactionRecord}
use cn_property_agent.Services.Normalization.Gates.{
  RejectionReason, missing_source_identity, missing_deal_date, deal_date_in_future,
  deal_date_out_of_range, invalid_area, invalid_deal_price, invalid_listing_price,
  invalid_days_on_market, invalid_unit_price, inconsistent_unit_price, schema_invalid, Warning,
  derived_unit_price, Outcome, normalized, rejected, ToleranceArg, coerce_floor_bucket, in_future,
  before, after, negative, validate_unit_price_tolerance, required_positive, nonpositive,
  nonpositive_when_present, deviation, checked_unit_price, build_transaction_id,
}
use cn_property_agent.Services.Normalization.Chain.{
  source_identity, rejection_of, date_gates, measure_gates, candidate, normalize_transaction,
}

abbrev pub Table : Type 0
Table = List (Bool × RejectionReason)

-- The reason of the first entry whose test holds.
abbrev pub first_tripped : Table → Option RejectionReason
first_tripped [] = none
first_tripped ((test, reason) ∷ rest) =
    let later = first_tripped rest in if test then some reason else later

-- A test on an optional value, with its result where the value is missing.
abbrev pub test_or : {A B : Type 0} → B → (A → B) → Option A → B
test_or missing test none = missing
test_or missing test (some a) = test a

abbrev pub value_or : {A : Type 0} → A → Option A → A
value_or default none = default
value_or default (some a) = a

module _ {F : Type 0} ⦃fl : Floats F⦄ (tools : TextTools) (community : Community F)
    (start_date end_date : Option Date) (tolerance : F) (r : RawTransactionRecord F)
    (transaction_id : String) where
  area : F
  area = value_or fl.zero_f r.area_sqm

  price : F
  price = value_or fl.zero_f r.deal_price_cny

  date_of_deal : Date
  date_of_deal = value_or 0 r.deal_date

  unit_price : F
  unit_price = value_or (fl.div price area) r.unit_price_cny_sqm

  -- The transaction that the record stands for.
  pub canonical : Transaction F
  unfolding area price date_of_deal unit_price
  canonical = candidate tools community r transaction_id date_of_deal area price unit_price

  pub notes : List Warning
  notes =
      test_or (derived_unit_price ∷ []) (λ _. []) r.unit_price_cny_sqm
      ++ (coerce_floor_bucket tools r.floor_bucket).1

  pub table : Table
  unfolding area price canonical
  table =
      (test_or true (λ id. id == "") r.source_transaction_id, missing_source_identity)
      ∷ (test_or true (λ _. false) r.deal_date, missing_deal_date)
      ∷ (test_or false (ltb (utc_date r.collected_at + 1)) r.deal_date, deal_date_in_future)
      ∷ (
        test_or false (λ start. test_or false (λ d. ltb d start) r.deal_date) start_date,
        deal_date_out_of_range,
      )
      ∷ (
        test_or false (λ end. test_or false (ltb end) r.deal_date) end_date,
        deal_date_out_of_range,
      )
      ∷ (test_or true nonpositive r.area_sqm, invalid_area)
      ∷ (test_or true nonpositive r.deal_price_cny, invalid_deal_price)
      ∷ (test_or false nonpositive r.initial_listing_price_cny, invalid_listing_price)
      ∷ (negative r.days_on_market, invalid_days_on_market)
      ∷ (test_or false nonpositive r.unit_price_cny_sqm, invalid_unit_price)
      ∷ (
        test_or false (λ u. fl.lt tolerance (deviation u area price)) r.unit_price_cny_sqm,
        inconsistent_unit_price,
      )
      ∷ (not (valid_transaction canonical), schema_invalid)
      ∷ []

  pub decide : Option RejectionReason → Outcome F
  decide none = normalized (record { transaction = canonical; warnings = notes })
  decide (some reason) = rejected (rejection_of r reason)

  -- Within the days that a date can hold, the reference day does not overflow.
  in_future_lem :
      (d : Date)
      → 0 < utc_date r.collected_at
      → utc_date r.collected_at < max_date
      → in_future d r.collected_at ≡ ok (ltb (utc_date r.collected_at + 1) d)
  unfolding in_future
  in_future_lem d late early = ground arith

  -- When the tolerance argument validates, the UTC day on which the record was collected lies
  -- between the first day that a date can hold and the one before the last, and the transaction id
  -- is the one that `build_transaction_id` derives from the record's source and identity (the
  -- empty text where it has none): `normalize_transaction` returns what the gate table decides;
  -- the first entry whose test holds rejects the record with its reason, and where none holds the
  -- record becomes its canonical transaction under that id, with its warnings.
  pub normalize_transaction-eq-decide :
      (arg : ToleranceArg F)
      → validate_unit_price_tolerance arg ≡ ok tolerance
      → 0 < utc_date r.collected_at
      → utc_date r.collected_at < max_date
      → build_transaction_id tools r.source (value_or "" r.source_transaction_id)
        ≡ ok transaction_id
      → normalize_transaction tools community start_date end_date arg r
        ≡ ok (decide (first_tripped table))
  unfolding normalize_transaction source_identity date_gates measure_gates before after
      required_positive nonpositive_when_present checked_unit_price table decide canonical notes
      area price date_of_deal unit_price
  normalize_transaction-eq-decide arg valid late early digest =
      ground (arith, in_future_lem date_of_deal late early)
