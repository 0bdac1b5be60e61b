-- ===== src/Analytics/Transactions.antt =====
-- analytics/transaction_metrics.py
pub mod Invariance
use cn_property_agent.Prelude.{
  ℕ, String, string_eq, Bool, true, false, not, Option, none, some, List, [], ◌∷◌, map, Result, ok,
  err, ◌>>=◌, ◌>>◌, ◌==◌, length, anyb, filter_map, raise_if, leb, ltb, ◌&&◌, if◌then◌else◌,
}
use cn_property_agent.Prelude.Int.{ℤ}
use cn_property_agent.Prelude.Sorting.{sorted}
use cn_property_agent.Prelude.Text.{str_ltb}
use cn_property_agent.Floats.{Floats}
use cn_property_agent.Domain.Common.{Date, Raised, value_error, overflow_error, zero_division_error}
use cn_property_agent.Domain.Transaction.{Transaction}
use cn_property_agent.Analytics.Common.{
  MedianMetric, maximum, sorted_set, CountArg, validate_minimum_sample_count, validate_community_id,
  median_metric,
}

pub record CommunityTransactionMetrics (F : Type 0) : Type 0 where
  pub community_id : String
  pub sample_count : ℕ
  pub minimum_sample_count : ℕ
  pub latest_deal_date : Option Date
  pub median_unit_price_cny_sqm : MedianMetric F
  pub median_deal_price_cny : MedianMetric F
  pub median_days_on_market_days : MedianMetric F
  pub median_negotiation_discount : MedianMetric F
  pub transaction_ids : List String
  pub sources : List String

-- The two properties of the model.
unfoldable pub has_transactions : {F : Type 0} → CommunityTransactionMetrics F → Bool
has_transactions m = ltb 0 m.sample_count

unfoldable pub has_sufficient_evidence : {F : Type 0} → CommunityTransactionMetrics F → Bool
has_sufficient_evidence m = leb m.minimum_sample_count m.sample_count

module _ {F : Type 0} ⦃fl : Floats F⦄ where
  -- `x == 0`
  abbrev pub is_zero : F → Bool
  is_zero x = fl.le x fl.zero_f && fl.le fl.zero_f x

  -- A division by zero raises.
  unfoldable pub negotiation_discount : F → F → Result Raised F
  negotiation_discount initial deal =
      if is_zero initial then err zero_division_error else ok (fl.div (fl.sub initial deal) initial)

  abbrev pub with_discount : Option F → F → Result Raised (List F) → Result Raised (List F)
  with_discount none deal rest = rest
  with_discount (some initial) deal rest = do
    x ← negotiation_discount initial deal
    xs ← rest
    ok (x ∷ xs)

  -- The discounts of the records that have an initial listing price.
  unfoldable pub discounts_of : List (Transaction F) → Result Raised (List F)
  unfolding negotiation_discount
  discounts_of [] = ok []
  discounts_of (t ∷ ts) =
      with_discount t.initial_listing_price_cny t.deal_price_cny (discounts_of ts)

  -- The result of `float(d)` in front of the rest.
  abbrev pub cons_float : Option F → Result Raised (List F) → Result Raised (List F)
  cons_float none rest = err overflow_error
  cons_float (some x) rest = (rest >>= λ xs. ok (x ∷ xs))

  -- `[float(d) for d in days]`
  unfoldable pub floats_of : List ℤ → Result Raised (List F)
  floats_of [] = ok []
  floats_of (d ∷ ds) = cons_float (fl.of_int d) (floats_of ds)

  abbrev pub is_foreign : String → Transaction F → Bool
  is_foreign community_id t = not (t.community_id == community_id)

  unfoldable pub compute_community_transaction_metrics :
      List (Transaction F) → String → CountArg → Result Raised (CommunityTransactionMetrics F)
  unfolding floats_of discounts_of
  compute_community_transaction_metrics sample community_id count = do
    minimum ← validate_minimum_sample_count count
    validate_community_id community_id
    raise_if (anyb (is_foreign community_id) sample) value_error
    unit_prices ← median_metric (map (λ t. t.unit_price_cny_sqm) sample) minimum
    deal_prices ← median_metric (map (λ t. t.deal_price_cny) sample) minimum
    days_on_market ←
        floats_of (filter_map (λ t. t.days_on_market) sample) >>= λ d. median_metric d minimum
    discounts ← discounts_of sample >>= λ d. median_metric d minimum
    ok (record {
      community_id = community_id;
      sample_count = length sample;
      minimum_sample_count = minimum;
      latest_deal_date = maximum (map (λ t. t.deal_date) sample);
      median_unit_price_cny_sqm = unit_prices;
      median_deal_price_cny = deal_prices;
      median_days_on_market_days = days_on_market;
      median_negotiation_discount = discounts;
      transaction_ids = sorted str_ltb (map (λ t. t.transaction_id) sample);
      sources = sorted_set (map (λ t. t.source) sample);
    })
