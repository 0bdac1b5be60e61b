-- ===== src/Storage/Transactions/Query.antt =====
-- `list_for_community` over the same rows in another order.
use mathlib.Core.List.{Permᴰ}
use cn_property_agent.Prelude.{◌≡◌, String, string_eq, true, false, Option, List, arith, Distinct}
use cn_property_agent.Prelude.Text.{str_order}
use cn_property_agent.Domain.Common.{Date}
use cn_property_agent.Domain.Transaction.{Transaction}
use cn_property_agent.Storage.Table.{keys}
use cn_property_agent.Storage.Table.Reading.{reads_alike}
use cn_property_agent.Storage.Transactions.{
  transaction_key, selects, newest_first, list_for_community,
}

module _ {F : Type 0} where
  newest_first_asym : (a b : Transaction F) → newest_first a b ≡ true → newest_first b a ≡ false
  unfolding newest_first
  newest_first_asym a b h = ground (arith, str_order.asym a.transaction_id b.transaction_id)

  newest_first_trans :
      (a b c : Transaction F)
      → newest_first a b ≡ true
      → newest_first b c ≡ true
      → newest_first a c ≡ true
  unfolding newest_first
  newest_first_trans a b c h k =
      ground (arith, str_order.trans a.transaction_id b.transaction_id c.transaction_id)

  newest_first_key :
      (a b : Transaction F)
      → newest_first a b ≡ false
      → newest_first b a ≡ false
      → a.transaction_id ≡ b.transaction_id
  unfolding newest_first
  newest_first_key a b h k =
      ground (arith, str_order.connected a.transaction_id b.transaction_id tt tt)

  -- For a table whose primary key is unique, the rows that `list_for_community` returns, and their
  -- order, do not depend on the order in which the table holds its rows.
  pub list_for_community-perm :
      (community_id : String) (start_date end_date : Option Date)
      {rows rows' : List (Transaction F)}
      → Permᴰ rows rows'
      → Distinct (keys transaction_key rows)
      → list_for_community community_id start_date end_date rows
        ≡ list_for_community community_id start_date end_date rows'
  unfolding list_for_community
  list_for_community-perm community_id start_date end_date p d =
      reads_alike transaction_key newest_first (selects community_id start_date end_date)
        newest_first_asym newest_first_trans newest_first_key p d
