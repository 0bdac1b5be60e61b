-- ===== src/Tests/Metrics.antt =====
-- Runs of the analytics, and the theorems about them at those inputs.
use mathlib.Core.List.{Permᴰ}
use cn_property_agent.Prelude.{◌≡◌, refl, none, some, List, [], ◌∷◌, ok, err}
use cn_property_agent.Prelude.Int.{ℤ, pos, ◌-ℤ◌}
use cn_property_agent.Prelude.Sorting.{sorted}
use cn_property_agent.Prelude.Text.{is_blank}
use cn_property_agent.Domain.Common.{value_error}
use cn_property_agent.Domain.Transaction.{Transaction, valid_transaction}
use cn_property_agent.Analytics.Common.{
  int_arg, median, median_metric, validate_minimum_sample_count, validate_community_id,
}
use cn_property_agent.Analytics.Transactions.{
  negotiation_discount, compute_community_transaction_metrics,
}
use cn_property_agent.Analytics.Transactions.Invariance.{compute_community_transaction_metrics-perm}
use cn_property_agent.Tests.Samples.{whole, whole_order}
use cn_property_agent.Tests.Normalizing.{flat}

abbrev prices : List ℤ
prices = pos 9 ∷ pos 3 ∷ pos 7 ∷ []

median_of_three : median prices ≡ some (pos 7)
unfolding median sorted
median_of_three = refl

too_few : median_metric prices 4 ≡ ok (record { value = none; usable_count = 3 })
unfolding median_metric
too_few = refl

abbrev dear_flat : Transaction ℤ
dear_flat = record flat { transaction_id = "tx-2"; deal_price_cny = pos 600000 }

blank_is_refused :
    compute_community_transaction_metrics (flat ∷ []) " " (int_arg (pos 3)) ≡ err value_error
unfolding compute_community_transaction_metrics validate_community_id validate_minimum_sample_count
    is_blank
blank_is_refused = refl

compute_community_transaction_metrics-perm_example :
    compute_community_transaction_metrics (flat ∷ dear_flat ∷ []) "c-1" (int_arg (pos 3))
    ≡ compute_community_transaction_metrics (dear_flat ∷ flat ∷ []) "c-1" (int_arg (pos 3))
unfolding valid_transaction negotiation_discount ◌-ℤ◌
compute_community_transaction_metrics-perm_example =
    compute_community_transaction_metrics-perm whole_order "c-1" (int_arg (pos 3))
      (Permᴰ.swap refl refl) (refl, (refl, tt)) (refl, (refl, tt))
