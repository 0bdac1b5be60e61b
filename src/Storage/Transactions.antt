-- ===== src/Storage/Transactions.antt =====
-- storage/repositories.py: `TransactionRepository`, over the table `property_transaction` of
-- storage/schema.py. Its INTEGER columns hold 32 bits: a statement with a larger value raises.
pub mod Laws
pub mod Query
pub mod Refinement
use cn_property_agent.Prelude.{
  ℕ, suc, String, string_eq, Bool, true, Option, none, some, List, [], ◌∷◌, Result, ok, err, ◌>>=◌,
  ◌==◌, ◌&&◌, ◌||◌, ltb, leb, nat_beq, filterb, if◌then◌else◌,
}
use cn_property_agent.Prelude.Int.{ℤ, pos, negsuc, leb_ℤ}
use cn_property_agent.Prelude.Sorting.{sorted}
use cn_property_agent.Prelude.Text.{str_ltb}
use cn_property_agent.Domain.Common.{Date, Raised, constraint_error, optional}
use cn_property_agent.Domain.Transaction.{Transaction}
use cn_property_agent.Storage.Table.{upsert, overwrite}

-- INTEGER: -2 ^ 31 to 2 ^ 31 - 1
unfoldable pub fits_integer : ℤ → Bool
fits_integer n = leb_ℤ (negsuc 2147483647) n && leb_ℤ n (pos 2147483647)

abbrev pub optional_date : (Date → Bool) → Option Date → Bool
optional_date = optional

module _ {F : Type 0} where
  abbrev pub transaction_key : Transaction F → String
  transaction_key t = t.transaction_id

  unfoldable pub storable : Transaction F → Bool
  unfolding fits_integer
  storable t = optional fits_integer t.built_year && optional fits_integer t.days_on_market

  -- `upsert`
  unfoldable pub upsert_transaction :
      Transaction F → List (Transaction F) → Result Raised (List (Transaction F))
  upsert_transaction item rows =
      if storable item
      then ok (upsert transaction_key overwrite item rows)
      else err constraint_error

  abbrev count_one : Result Raised ℕ × List (Transaction F) → Result Raised ℕ × List (Transaction F)
  count_one (written, rows) = (written >>= (λ n. ok (suc n)), rows)

  -- `upsert_many`: every statement commits by itself, so what was written before a raise stays.
  unfoldable pub upsert_many :
      List (Transaction F) → List (Transaction F) → Result Raised ℕ × List (Transaction F)
  upsert_many [] rows = (ok 0, rows)
  upsert_many (item ∷ items) rows = elim (upsert_transaction item rows) [
    | ok rows' ↦ count_one (upsert_many items rows')
    | err e ↦ (err e, rows)
  ]

  -- The WHERE clauses of `list_for_community`.
  unfoldable pub selects : String → Option Date → Option Date → Transaction F → Bool
  selects community_id start_date end_date t =
      t.community_id == community_id
      && (optional_date (λ start. leb start t.deal_date) start_date
          && optional_date (λ end. leb t.deal_date end) end_date)

  -- ORDER BY deal_date DESC, transaction_id
  unfoldable pub newest_first : Transaction F → Transaction F → Bool
  newest_first a b =
      ltb b.deal_date a.deal_date
      || (nat_beq a.deal_date b.deal_date && str_ltb a.transaction_id b.transaction_id)

  unfoldable pub list_for_community :
      String → Option Date → Option Date → List (Transaction F) → List (Transaction F)
  unfolding selects newest_first
  list_for_community community_id start_date end_date rows =
      sorted newest_first (filterb (selects community_id start_date end_date) rows)
