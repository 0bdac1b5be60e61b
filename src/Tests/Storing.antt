-- ===== src/Tests/Storing.antt =====
-- Reads of the tables, and the theorems about them at those inputs.
use mathlib.Core.List.Permᴰ
use cn_property_agent.Prelude.{◌≡◌, refl, String, string_eq, none, some, [], ◌∷◌, err}
use cn_property_agent.Domain.Common.{constraint_error}
use cn_property_agent.Prelude.Int.{ℤ, pos}
use cn_property_agent.Prelude.Sorting.{sorted}
use cn_property_agent.Domain.Transaction.{Transaction}
use cn_property_agent.Storage.Transactions.{list_for_community, upsert_many, storable}
use cn_property_agent.Storage.Transactions.Refinement.{
  records_of, last_written, fitting, all_fit, upsert_many-refines,
}
use cn_property_agent.Storage.Transactions.Query.{list_for_community-perm}
use cn_property_agent.Tests.Normalizing.{flat}

abbrev late_flat : Transaction ℤ
late_flat = record flat { transaction_id = "tx-3"; deal_date = 739100 }

-- The newest deal comes first.
reads_newest_first :
    list_for_community "c-1" none none (flat ∷ late_flat ∷ []) ≡ late_flat ∷ flat ∷ []
unfolding list_for_community sorted
reads_newest_first = refl

list_for_community-perm_example :
    list_for_community "c-1" none none (flat ∷ late_flat ∷ [])
    ≡ list_for_community "c-1" none none (late_flat ∷ flat ∷ [])
list_for_community-perm_example =
    list_for_community-perm "c-1" none none (Permᴰ.swap refl refl) (refl, (refl, tt))

-- A year that no column of 32 bits holds.
abbrev oversized : Transaction ℤ
oversized = record flat { transaction_id = "tx-4"; built_year = some (pos 2147483648) }

upsert_many-refines_example :
    ((upsert_many (flat ∷ oversized ∷ late_flat ∷ []) []).0 ≡ err constraint_error)
    × ((k : String)
        → records_of (upsert_many (flat ∷ oversized ∷ late_flat ∷ []) []).1 k
          ≡ last_written (fitting (flat ∷ oversized ∷ late_flat ∷ [])) (records_of []) k)
unfolding all_fit storable
upsert_many-refines_example = upsert_many-refines (flat ∷ oversized ∷ late_flat ∷ []) []
