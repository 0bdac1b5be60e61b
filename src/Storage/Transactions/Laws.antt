-- ===== src/Storage/Transactions/Laws.antt =====
-- What `upsert_many` writes.
use cn_property_agent.Prelude.{
  ◌≡◌, refl, String, string_eq, true, some, Distinct, List, [], ◌∷◌, arith, ok, length, All,
}
use cn_property_agent.Domain.Transaction.{Transaction}
use cn_property_agent.Storage.Table.{find, keys, overwrite, upsert, upsert_all}
use cn_property_agent.Storage.Table.Replay.{IsBand, combined-eq-find, find-upsert_all}
use cn_property_agent.Storage.Transactions.{
  transaction_key, storable, upsert_transaction, upsert_many,
}

module _ {F : Type 0} where
  abbrev pub Storable : Transaction F → Type 0
  Storable t = storable t ≡ true

  pub transaction-IsBand : IsBand (transaction_key {F = F}) overwrite
  transaction-IsBand = record { keeps = λ old new. refl; assoc = λ a b c. refl; idem = λ a. refl }

  -- Rows that fit their columns are all written, and all counted.
  pub upsert_many_lem :
      (items rows : List (Transaction F))
      → All Storable items
      → upsert_many items rows
        ≡ (ok (length items), upsert_all transaction_key overwrite items rows)
  unfolding upsert_many upsert_transaction upsert_all
  upsert_many_lem [] rows h = refl
  upsert_many_lem (item ∷ items) rows h =
      ground (arith, upsert_many_lem items (upsert transaction_key overwrite item rows) h.1, h.0)

  -- A row of a batch that names each identity once is what stands in the table afterwards.
  pub find-upsert_all_row :
      (k : String) (items rows : List (Transaction F)) (t : Transaction F)
      → Distinct (keys transaction_key items)
      → find transaction_key k items ≡ some t
      → find transaction_key k (upsert_all transaction_key overwrite items rows) ≡ some t
  find-upsert_all_row k items rows t d h =
      let whole = find-upsert_all transaction_key overwrite transaction-IsBand k items rows in
      let part = combined-eq-find transaction_key overwrite transaction-IsBand k items d in
      ground (arith, whole, part, h)
