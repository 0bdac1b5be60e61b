-- ===== src/Storage/Transactions/Refinement.antt =====
-- `upsert_many` as what it promises: a map from identities to their last written record.
use cn_property_agent.Prelude.{
  ℕ, ◌≡◌, refl, String, string_eq, Bool, true, Option, some, List, [], ◌∷◌, arith, Result, ok, err,
  length, ◌==◌, ◌&&◌, if◌then◌else◌, Bool-cases, inl, inr,
}
use cn_property_agent.Domain.Common.{Raised, constraint_error}
use cn_property_agent.Domain.Transaction.{Transaction}
use cn_property_agent.Storage.Table.{find, upsert, overwrite}
use cn_property_agent.Storage.Table.Laws.{find-upsert}
use cn_property_agent.Storage.Transactions.{
  transaction_key, storable, upsert_transaction, upsert_many,
}

-- The table as its users see it.
abbrev pub Records : Type 0 → Type 0
Records F = String → Option (Transaction F)

module _ {F : Type 0} where
  abbrev pub records_of : List (Transaction F) → Records F
  records_of rows k = find transaction_key k rows

  -- The rows in front of the first one that does not fit its columns.
  unfoldable pub fitting : List (Transaction F) → List (Transaction F)
  fitting [] = []
  fitting (t ∷ ts) = let rest = fitting ts in if storable t then t ∷ rest else []

  unfoldable pub all_fit : List (Transaction F) → Bool
  all_fit [] = true
  all_fit (t ∷ ts) = storable t && all_fit ts

  -- The last of the rows under an identity, or what was there.
  unfoldable pub last_written : List (Transaction F) → Records F → Records F
  last_written [] was k = was k
  last_written (t ∷ ts) was k =
      last_written ts (λ j. if t.transaction_id == j then some t else was j) k

  abbrev written_count : List (Transaction F) → Result Raised ℕ
  written_count items = if all_fit items then ok (length items) else err constraint_error

  upsert_many_count :
      (items rows : List (Transaction F)) → (upsert_many items rows).0 ≡ written_count items
  unfolding upsert_many upsert_transaction all_fit
  upsert_many_count [] rows = refl
  upsert_many_count (t ∷ ts) rows =
      ground (arith, upsert_many_count ts (upsert transaction_key overwrite t rows))

  upsert_many_rows :
      (items rows : List (Transaction F)) (was : Records F)
      → ((k : String) → records_of rows k ≡ was k)
      → (k : String) → records_of (upsert_many items rows).1 k ≡ last_written (fitting items) was k
  unfolding upsert_many upsert_transaction fitting last_written
  upsert_many_rows [] rows was h k = h k
  upsert_many_rows (t ∷ ts) rows was h k = elim (Bool-cases (storable t)) [
    | inl e ↦
        let rest =
          upsert_many_rows ts (upsert transaction_key overwrite t rows)
            (λ j. if t.transaction_id == j then some t else was j)
            (λ j. ground (arith, h j, find-upsert transaction_key overwrite (λ a b. refl) j t rows))
            k in
        ground (arith, e, rest)
    | inr e ↦ ground (arith, e, h k)
  ]

  -- For any items and any table: `upsert_many` counts all of them, or raises a constraint of the
  -- schema when one does not fit its columns; and afterwards the table gives, under each identity,
  -- the last of the items in front of the first that does not fit, or what it gave before.
  pub upsert_many-refines :
      (items rows : List (Transaction F))
      → ((upsert_many items rows).0
          ≡ (if all_fit items then ok (length items) else err constraint_error))
        × ((k : String)
            → records_of (upsert_many items rows).1 k
              ≡ last_written (fitting items) (records_of rows) k)
  upsert_many-refines items rows =
      (upsert_many_count items rows, upsert_many_rows items rows (records_of rows) (λ k. refl))
