-- ===== src/Services/Normalization/Chain.antt =====
-- services/transaction_normalization.py: `normalize_transaction`, whose early returns are a chain
-- of `Result`s.
use cn_property_agent.Prelude.{
  String, string_eq, not, Option, none, some, List, ◌++◌, Result, ok, err, ◌>>=◌, ◌>>◌, ◌==◌,
  if◌then◌else◌,
}
use cn_property_agent.Floats.{Floats}
use cn_property_agent.Utils.{TextTools}
use cn_property_agent.Domain.Common.{Date, Raised}
use cn_property_agent.Domain.Community.{Community}
use cn_property_agent.Domain.Transaction.{Transaction, valid_transaction}
use cn_property_agent.Providers.Dto.{RawTransactionRecord}
use cn_property_agent.Services.Normalization.Gates.{
  RejectionReason, missing_source_identity, missing_deal_date, deal_date_in_future,
  deal_date_out_of_range, invalid_area, invalid_deal_price, invalid_listing_price,
  invalid_days_on_market, schema_invalid, TransactionRejection, Warning, NormalizedTransaction,
  Outcome, normalized, rejected, ToleranceArg, Stop, reject, raised, reject_if, or_reject,
  build_transaction_id, coerce_floor_bucket, in_future, before, after, negative,
  validate_unit_price_tolerance, required_positive, nonpositive_when_present, checked_unit_price,
}

-- `not record.source_transaction_id`
unfoldable pub source_identity : Option String → Result Stop String
source_identity none = err (reject missing_source_identity)
source_identity (some id) = if id == "" then err (reject missing_source_identity) else ok id

lift : {A : Type 0} → Result Raised A → Result Stop A
lift (ok a) = ok a
lift (err e) = err (raised e)

-- `_reject`
unfoldable pub rejection_of :
    {F : Type 0} → RawTransactionRecord F → RejectionReason → TransactionRejection
rejection_of r reason = record {
  source = r.source;
  source_transaction_id = r.source_transaction_id;
  source_url = r.source_url;
  reason = reason;
}

module _ {F : Type 0} where
  -- The date gates.
  unfoldable pub date_gates : RawTransactionRecord F → Option Date → Option Date → Result Stop Date
  date_gates r start_date end_date = do
    deal_date ← or_reject r.deal_date missing_deal_date
    future ← in_future deal_date r.collected_at
    reject_if future deal_date_in_future
    reject_if (before deal_date start_date) deal_date_out_of_range
    reject_if (after deal_date end_date) deal_date_out_of_range
    ok deal_date

module _ {F : Type 0} ⦃fl : Floats F⦄ where
  -- The gates on what is measured: area, price, listing price, days on market, unit price.
  unfoldable pub measure_gates : RawTransactionRecord F → F → Result Stop (F × F × F × List Warning)
  measure_gates r tolerance = do
    area ← required_positive r.area_sqm invalid_area
    price ← required_positive r.deal_price_cny invalid_deal_price
    reject_if (nonpositive_when_present r.initial_listing_price_cny) invalid_listing_price
    reject_if (negative r.days_on_market) invalid_days_on_market
    (unit_price, warnings) ← checked_unit_price r.unit_price_cny_sqm area price tolerance
    ok (area, price, unit_price, warnings)

module _ {F : Type 0} ⦃fl : Floats F⦄ (tools : TextTools) where
  -- The keyword arguments of `Transaction(…)`.
  unfoldable pub candidate :
      Community F → RawTransactionRecord F → String → Date → F → F → F → Transaction F
  candidate community r transaction_id deal_date area price unit_price = record {
    transaction_id = transaction_id;
    community_id = community.community_id;
    source = r.source;
    source_transaction_id = r.source_transaction_id;
    source_url = r.source_url;
    deal_date = deal_date;
    area_sqm = area;
    layout = r.layout;
    floor_bucket = (coerce_floor_bucket tools r.floor_bucket).0;
    orientation = r.orientation;
    built_year = r.built_year;
    initial_listing_price_cny = r.initial_listing_price_cny;
    deal_price_cny = price;
    unit_price_cny_sqm = unit_price;
    days_on_market = r.days_on_market;
    raw_payload_ref = r.raw_payload_ref;
    collected_at = r.collected_at;
    parser_version = r.parser_version;
  }

  module _ (community : Community F) (start_date end_date : Option Date) where
    -- The body of `normalize_transaction`, up to the form in which it returns.
    unfoldable pub run_gates :
        ToleranceArg F → RawTransactionRecord F → Result Stop (NormalizedTransaction F)
    unfolding lift build_transaction_id
    run_gates tolerance_arg r = do
      tolerance ← lift (validate_unit_price_tolerance tolerance_arg)
      id ← source_identity r.source_transaction_id
      deal_date ← date_gates r start_date end_date
      (area, price, unit_price, warnings) ← measure_gates r tolerance
      transaction_id ← lift (build_transaction_id tools r.source id)
      let t = candidate community r transaction_id deal_date area price unit_price
      reject_if (not (valid_transaction t)) schema_invalid
      ok (record {
        transaction = t;
        warnings = warnings ++ (coerce_floor_bucket tools r.floor_bucket).1;
      })

    returned :
        RawTransactionRecord F → Result Stop (NormalizedTransaction F) → Result Raised (Outcome F)
    returned r (ok n) = ok (normalized n)
    returned r (err (reject reason)) = ok (rejected (rejection_of r reason))
    returned r (err (raised e)) = err e

    unfoldable pub normalize_transaction :
        ToleranceArg F → RawTransactionRecord F → Result Raised (Outcome F)
    unfolding run_gates returned
    normalize_transaction tolerance_arg r = returned r (run_gates tolerance_arg r)
