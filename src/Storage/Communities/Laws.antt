-- ===== src/Storage/Communities/Laws.antt =====
-- What the community tables give back: what was written, and lookups that do not see the order of the
-- rows.
use mathlib.Core.List.{Permᴰ}
use mathlib.Core.List.Permᴰ
use cn_property_agent.Prelude.{
  ◌≡◌, refl, ap, String, string_eq, pair_eq, true, false, some, List, [], ◌∷◌, map, arith, All,
  Distinct, filterb, ==_refl, Bool-cases, inl, inr,
}
use cn_property_agent.Prelude.Sorting.{sorted, All-perm, sorted-perm}
use cn_property_agent.Prelude.Text.{str_order}
use cn_property_agent.Utils.{TextTools, normalize}
use cn_property_agent.Domain.Community.{Community, EntityAlias}
use cn_property_agent.Storage.Table.{keys, overwrite}
use cn_property_agent.Storage.Table.Laws.{find-upsert}
use cn_property_agent.Storage.Table.Reading.{reads_alike, Stored, rows_Stored, All-filterb}
use cn_property_agent.Storage.Communities.{
  CommunityRow, CommunityStore, alias_key, upsert_alias, row_key, row_of, upsert_community, get,
  by_name, is_named, find_by_normalized_name, find_by_alias,
}

module _ {F : Type 0} (tools : TextTools) where
  pub get-upsert_community :
      (c : Community F) (rows : List (CommunityRow F))
      → get c.community_id (upsert_community tools c rows) ≡ some c
  unfolding get upsert_community row_of
  get-upsert_community c rows = ground (
    arith,
    find-upsert row_key overwrite (λ a b. refl) c.community_id (row_of tools c) rows,
    ==_refl c.community_id,
  )

  -- After `upsert` of a community and `upsert_alias` of an alias that names its id, in tables of any
  -- contents, `find_by_alias` with the alias's type, provider and provider id returns that community.
  pub find_by_alias-upserted :
      (c : Community F) (a : EntityAlias) (store : CommunityStore F)
      → a.entity_id ≡ c.community_id
      → find_by_alias (alias_key a) (record {
        communities = upsert_community tools c store.communities;
        aliases = upsert_alias a store.aliases;
      })
        ≡ some c
  unfolding find_by_alias upsert_alias
  find_by_alias-upserted c a store h = ground (
    arith,
    find-upsert alias_key overwrite (λ x y. refl) (alias_key a) a store.aliases,
    ==_refl (alias_key a),
    h,
    get-upsert_community c store.communities,
  )

module _ {F : Type 0} where
  by_name_asym : (a b : CommunityRow F) → by_name a b ≡ true → by_name b a ≡ false
  unfolding by_name
  by_name_asym a b h = ground (
    arith,
    h,
    str_order.asym a.community.canonical_name b.community.canonical_name,
    str_order.asym a.community.community_id b.community.community_id,
    string_eq.decides a.community.canonical_name b.community.canonical_name,
    string_eq.decides b.community.canonical_name a.community.canonical_name,
  )

  by_name_trans :
      (a b c : CommunityRow F) → by_name a b ≡ true → by_name b c ≡ true → by_name a c ≡ true
  unfolding by_name
  by_name_trans a b c h k = ground (
    arith,
    h,
    k,
    str_order.trans a.community.canonical_name b.community.canonical_name
        c.community.canonical_name,
    str_order.trans a.community.community_id b.community.community_id c.community.community_id,
    string_eq.decides a.community.canonical_name b.community.canonical_name,
    string_eq.decides b.community.canonical_name c.community.canonical_name,
    string_eq.decides a.community.canonical_name c.community.canonical_name,
  )

  by_name_key :
      (a b : CommunityRow F)
      → by_name a b ≡ false
      → by_name b a ≡ false
      → a.community.community_id ≡ b.community.community_id
  unfolding by_name
  by_name_key a b h k = ground (
    arith,
    h,
    k,
    str_order.connected a.community.canonical_name b.community.canonical_name tt tt,
    str_order.connected a.community.community_id b.community.community_id tt tt,
    string_eq.decides a.community.canonical_name b.community.canonical_name,
    string_eq.decides b.community.canonical_name a.community.canonical_name,
  )

  pub find_by_normalized_name-perm :
      (city_code name : String) {rows rows' : List (CommunityRow F)}
      → Permᴰ rows rows'
      → Distinct (keys row_key rows)
      → find_by_normalized_name city_code name rows ≡ find_by_normalized_name city_code name rows'
  unfolding find_by_normalized_name
  find_by_normalized_name-perm city_code name p d = ap (map (λ row. row.community)) (
      reads_alike row_key by_name (is_named city_code name) by_name_asym by_name_trans by_name_key p
        d)

  filterb-All :
      (city_code name : String) (rows : List (CommunityRow F))
      → All (λ row. is_named city_code name row ≡ true) (filterb (is_named city_code name) rows)
  filterb-All city_code name [] = tt
  filterb-All city_code name (row ∷ rows) = elim (Bool-cases (is_named city_code name row)) [
    | inl e ↦ rw e (e, filterb-All city_code name rows)
    | inr e ↦ rw e (filterb-All city_code name rows)
  ]

  -- The rows' column `normalized_name` is the one that `upsert` writes.
  abbrev pub Normalized : TextTools → List (CommunityRow F) → Type 0
  Normalized tools rows =
      All (λ row. row.normalized_name ≡ normalize tools row.community.canonical_name) rows

  module _ (tools : TextTools) (city_code name : String) (rows : List (CommunityRow F)) where
    -- What a lookup by name promises of each of its results.
    pub record IsMatch (c : Community F) : Type 0 where
      pub stored : get c.community_id rows ≡ some c
      pub city : c.city_code ≡ city_code
      pub named : normalize tools c.canonical_name ≡ name

    RowMatch : CommunityRow F → Type 0
    RowMatch row = IsMatch row.community

    matches :
        (found : List (CommunityRow F))
        → All (λ row. is_named city_code name row ≡ true) found
        → All (Stored row_key rows) found
        → Normalized tools found
        → All IsMatch (map (λ row. row.community) found)
    unfolding is_named get
    matches [] h s n = tt
    matches (row ∷ found) h s n = (
      record {
        stored = ground (arith, s.0);
        city = ground (arith, h.0, string_eq.decides row.community.city_code city_code);
        named = ground (arith, h.0, n.0, string_eq.decides row.normalized_name name);
      },
      matches found h.1 s.1 n.1,
    )

    -- In a table whose primary key is unique and whose normalized names are those of its names, every
    -- community that the lookup returns is stored under its id, in the city, with the name.
    pub find_by_normalized_name-AllMatch :
        Distinct (keys row_key rows)
        → Normalized tools rows
        → All IsMatch (find_by_normalized_name city_code name rows)
    unfolding find_by_normalized_name
    find_by_normalized_name-AllMatch d n =
        let kept = filterb (is_named city_code name) rows in
        let p = Permᴰ.symm (sorted-perm by_name kept) in
        matches (sorted by_name kept)
          (All-perm (λ row. is_named city_code name row ≡ true) p (filterb-All city_code name rows))
          (All-perm (Stored row_key rows) p (
            All-filterb (is_named city_code name) (Stored row_key rows) rows
              (rows_Stored row_key rows d)))
          (All-perm (λ row. row.normalized_name ≡ normalize tools row.community.canonical_name) p
            (All-filterb (is_named city_code name)
              (λ row. row.normalized_name ≡ normalize tools row.community.canonical_name) rows n))
