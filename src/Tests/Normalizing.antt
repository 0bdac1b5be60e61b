-- ===== src/Tests/Normalizing.antt =====
-- Runs of `normalize_transaction`, and the theorems about it at those inputs.
use cn_property_agent.Prelude.{◌≡◌, String, refl, none, some, [], ◌∷◌, arith, ok}
use cn_property_agent.Prelude.Int.{ℤ, pos, ◌+ℤ◌, ◌-ℤ◌, ◌*ℤ◌}
use cn_property_agent.Prelude.Text.{strip}
use cn_property_agent.Domain.Common.{mid, utc_date}
use cn_property_agent.Domain.Transaction.{Transaction, valid_transaction}
use cn_property_agent.Services.Normalization.Gates.{
  NormalizedTransaction, normalized, rejected, float_arg, deal_date_in_future, derived_unit_price,
  validate_unit_price_tolerance, in_future, before, after, negative, required_positive,
  nonpositive_when_present, checked_unit_price, build_transaction_id, coerce_floor_bucket,
}
use cn_property_agent.Services.Normalization.Chain.{
  rejection_of, source_identity, date_gates, measure_gates, candidate, normalize_transaction,
}
use cn_property_agent.Services.Normalization.Order.{
  first_tripped, table, decide, normalize_transaction-eq-decide,
}
use cn_property_agent.Services.Normalization.Soundness.{Sound, normalize_transaction-Sound}
use cn_property_agent.Tests.Samples.{whole, tools, garden, deal}

-- The deal of a garden flat.
abbrev pub flat : Transaction ℤ
flat = record {
  transaction_id = "tx-lianjia\u{1f}t1";
  community_id = "c-1";
  source = "lianjia";
  source_transaction_id = some "t1";
  source_url = none;
  deal_date = 738999;
  area_sqm = pos 100;
  layout = none;
  floor_bucket = mid;
  orientation = none;
  built_year = some (pos 2005);
  initial_listing_price_cny = some (pos 501000);
  deal_price_cny = pos 500000;
  unit_price_cny_sqm = pos 5000;
  days_on_market = some (pos 40);
  raw_payload_ref = none;
  collected_at = 63849600000000000;
  parser_version = "v1";
}

abbrev accepted_flat : NormalizedTransaction ℤ
accepted_flat = record { transaction = flat; warnings = derived_unit_price ∷ [] }

accepts :
    normalize_transaction tools garden none none (float_arg (pos 1)) (deal "t1" 738999 100 500000)
    ≡ ok (normalized accepted_flat)
unfolding normalize_transaction source_identity date_gates measure_gates candidate in_future before
    after negative required_positive nonpositive_when_present checked_unit_price
    validate_unit_price_tolerance build_transaction_id coerce_floor_bucket valid_transaction strip
    ◌+ℤ◌ ◌-ℤ◌ ◌*ℤ◌
accepts = refl

-- A deal dated two days after it was collected.
rejects_future :
    normalize_transaction tools garden none none (float_arg (pos 1)) (deal "t1" 739002 100 500000)
    ≡ ok (rejected (rejection_of (deal "t1" 739002 100 500000) deal_date_in_future))
unfolding normalize_transaction source_identity date_gates in_future validate_unit_price_tolerance
rejects_future = refl

-- A tolerance of 100% is the largest one.
pub tolerance_one : validate_unit_price_tolerance (float_arg (pos 1)) ≡ ok (pos 1)
unfolding validate_unit_price_tolerance
tolerance_one = refl

abbrev accepted_id : String
accepted_id = flat.transaction_id

normalize_transaction-eq-decide_example :
    normalize_transaction tools garden none
      (some 738999)
      (float_arg (pos 1))
      (deal "t1" 739000 100 500000)
    ≡ ok (
        decide tools garden none (some 738999) (pos 1) (deal "t1" 739000 100 500000) accepted_id (
          first_tripped (
            table tools garden none
              (some 738999)
              (pos 1)
              (deal "t1" 739000 100 500000)
              accepted_id)))
unfolding utc_date build_transaction_id
normalize_transaction-eq-decide_example =
    normalize_transaction-eq-decide tools garden none (some 738999) (pos 1)
      (deal "t1" 739000 100 500000) accepted_id (float_arg (pos 1)) tolerance_one (omega arith)
      (omega arith) refl

normalize_transaction-Sound_example :
    Sound garden none none (pos 1) (deal "t1" 738999 100 500000) flat
normalize_transaction-Sound_example =
    normalize_transaction-Sound tools garden none none (float_arg (pos 1)) (pos 1)
      (deal "t1" 738999 100 500000) accepted_flat tolerance_one accepts
