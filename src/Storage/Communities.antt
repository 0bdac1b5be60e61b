-- ===== src/Storage/Communities.antt =====
-- storage/repositories.py: `CommunityRepository`, over the tables `community` and `entity_alias` of
-- storage/schema.py. The JSON columns hold what was dumped into them; the years of a `Community`
-- lie between 1800 and 2200, so that the INTEGER columns hold them. The two timestamps of a row that
-- the database sets itself are left out: no query reads them.
pub mod Laws
use cn_property_agent.Prelude.{
  String, string_eq, pair_eq, Bool, Option, none, some, List, map, ◌==◌, ◌&&◌, ◌||◌, filterb,
}
use cn_property_agent.Prelude.Sorting.{sorted}
use cn_property_agent.Prelude.Text.{str_ltb}
use cn_property_agent.Utils.{TextTools, normalize}
use cn_property_agent.Domain.Community.{Community, EntityAlias}
use cn_property_agent.Storage.Table.{find, upsert, overwrite}

-- A row: the community, and the column that is derived from its name.
pub record CommunityRow (F : Type 0) : Type 0 where
  pub community : Community F
  pub normalized_name : String

pub record CommunityStore (F : Type 0) : Type 0 where
  pub communities : List (CommunityRow F)
  pub aliases : List EntityAlias

-- PRIMARY KEY(entity_type, provider, provider_entity_id)
abbrev pub AliasKey : Type 0
AliasKey = String × (String × String)

abbrev pub alias_key : EntityAlias → AliasKey
alias_key a = (a.entity_type, (a.provider, a.provider_entity_id))

-- `upsert_alias`
unfoldable pub upsert_alias : EntityAlias → List EntityAlias → List EntityAlias
upsert_alias item rows = upsert alias_key overwrite item rows

module _ {F : Type 0} where
  abbrev pub row_key : CommunityRow F → String
  row_key row = row.community.community_id

  unfoldable pub row_of : TextTools → Community F → CommunityRow F
  unfolding normalize
  row_of tools c = record { community = c; normalized_name = normalize tools c.canonical_name }

  -- `upsert`
  unfoldable pub upsert_community :
      TextTools → Community F → List (CommunityRow F) → List (CommunityRow F)
  unfolding row_of
  upsert_community tools c rows = upsert row_key overwrite (row_of tools c) rows

  abbrev pub community_of : Option (CommunityRow F) → Option (Community F)
  community_of none = none
  community_of (some row) = some row.community

  unfoldable pub get : String → List (CommunityRow F) → Option (Community F)
  get community_id rows = community_of (find row_key community_id rows)

  -- ORDER BY canonical_name, community_id
  unfoldable pub by_name : CommunityRow F → CommunityRow F → Bool
  by_name a b =
      str_ltb a.community.canonical_name b.community.canonical_name
      || (a.community.canonical_name == b.community.canonical_name
          && str_ltb a.community.community_id b.community.community_id)

  -- WHERE city_code = ? AND normalized_name = ?
  unfoldable pub is_named : String → String → CommunityRow F → Bool
  is_named city_code name row = row.community.city_code == city_code && row.normalized_name == name

  unfoldable pub find_by_normalized_name :
      String → String → List (CommunityRow F) → List (Community F)
  unfolding by_name is_named
  find_by_normalized_name city_code name rows =
      map (λ row. row.community) (sorted by_name (filterb (is_named city_code name) rows))

  -- `JOIN community c ON c.community_id = a.entity_id`
  unfoldable pub find_by_alias : AliasKey → CommunityStore F → Option (Community F)
  unfolding get
  find_by_alias key store = elim (find alias_key key store.aliases) [
    | none ↦ none
    | some a ↦ get a.entity_id store.communities
  ]
