-- ===== src/Services/Resolution/Outcomes.antt =====
-- The resolution as a whole: what it answers, when it raises, and that the tables' order does not show.
use mathlib.Core.List.{Permᴰ}
use cn_property_agent.Prelude.{
  ◌≡◌, inl, inr, refl, ap, subst, String, string_eq, pair_eq, true, Bool-cases, some, List, [], ◌∷◌,
  arith, Distinct, ◌>>=◌, ok, Option-cases, ◌==◌, ◌&&◌,
}
use cn_property_agent.Prelude.Sorting.{sorted}
use cn_property_agent.Floats.{Floats}
use cn_property_agent.Utils.{normalize}
use cn_property_agent.Domain.Common.{nonempty}
use cn_property_agent.Domain.Community.{Community, EntityAlias}
use cn_property_agent.Storage.Table.{keys}
use cn_property_agent.Storage.Communities.{
  CommunityRow, CommunityStore, alias_key, row_key, get, find_by_alias, upsert_community,
  upsert_alias,
}
use cn_property_agent.Storage.Communities.Laws.{
  find_by_alias-upserted, find_by_normalized_name-perm, Normalized,
}
use cn_property_agent.Services.Resolution.Scoring.{
  CommunityResolutionRequest, Resolver, confident, score_all,
}
use cn_property_agent.Services.Resolution.{
  CommunityResolution, named_alias, ranks_before, decide_among, by_alias, checked, accepted,
  certain, nothing_found, resolve_by_name, resolve,
}
use cn_property_agent.Services.Resolution.Laws.{IsSound, IsJustified, by_name-IsSound}
use cn_property_agent.Storage.Table.{find}
use cn_property_agent.Storage.Table.Reading.{find-perm}
use cn_property_agent.Storage.Table.Laws.{key-find}

module _ {F : Type 0} where
  -- What an alias finds is stored under its own id.
  find_by_alias-get :
      (key : String × (String × String)) (store : CommunityStore F) (c : Community F)
      → find_by_alias key store ≡ some c
      → get c.community_id store.communities ≡ some c
  unfolding find_by_alias get
  find_by_alias-get key store c h = elim (Option-cases (find alias_key key store.aliases)) [
    | inl e ↦ absurd (ground (arith, e, h))
    | inr (a, e) ↦ elim (Option-cases (find row_key a.entity_id store.communities)) [
      | inl e' ↦ absurd (ground (arith, e, e', h))
      | inr (row, e') ↦ ground (arith, e, e', h, key-find row_key a.entity_id store.communities e')
    ]
  ]

module _ {F : Type 0} ⦃fl : Floats F⦄ (rs : Resolver F) (r : CommunityResolutionRequest F)
    (store : CommunityStore F) where
  found-IsSound :
      (c : Community F)
      → IsJustified rs r store c
      → confident fl.one_f ≡ true
      → IsSound rs r store (accepted (certain c) (certain c ∷ []))
  found-IsSound c j sure = record {
    sure = sure;
    answer = (refl, refl);
    candidates = ((j, sure), tt);
  }

  by_alias-IsSound :
      (key : String × (String × String)) (c : Community F) (x : CommunityResolution F)
      → named_alias r.provider r.provider_entity_id ≡ some key
      → find_by_alias key store ≡ some c
      → checked (by_alias c r.city_code) ≡ ok x
      → IsSound rs r store x
  unfolding by_alias
  by_alias-IsSound key c x asked e h = elim (Bool-cases (c.city_code == r.city_code)) [
    | inr other ↦
        subst (IsSound rs r store)
          {x = nothing_found "provider alias exists but belongs to another city"}
          (ground (arith, other, h))
          (record { sure = ground (arith, other, h); answer = (refl, refl); candidates = tt })
    | inl same ↦
        subst (IsSound rs r store) {x = accepted (certain c) (certain c ∷ [])}
          (ground (arith, same, h))
          (found-IsSound c
            (record {
              stored = find_by_alias-get key store c e;
              city = (string_eq.decides c.city_code r.city_code).0 same;
              asked = inr (key, asked, e);
            })
            (ground (arith, same, h)))
  ]

  -- When `resolve` returns, on tables whose community ids are unique and whose normalized names
  -- are those of the names: its confidence and those of its candidates lie between 0 and 1; every
  -- candidate is stored under its id, in the requested city, and has the requested normalized name
  -- or is what the requested alias names; a resolved answer is the first candidate, an ambiguous
  -- one is none of at least two, and one that is not found has no candidate.
  pub resolve-IsSound :
      Distinct (keys row_key store.communities)
      → Normalized rs.text store.communities
      → (x : CommunityResolution F) → resolve rs r store ≡ ok x
      → IsSound rs r store x
  unfolding resolve
  resolve-IsSound d n x h = elim (Option-cases (named_alias r.provider r.provider_entity_id)) [
    | inl e ↦ by_name-IsSound rs r store d n x (ground (arith, e, h))
    | inr (key, e) ↦ elim (Option-cases (find_by_alias key store)) [
      | inl e' ↦ by_name-IsSound rs r store d n x (ground (arith, e, e', h))
      | inr (c, e') ↦ by_alias-IsSound key c x e e' (ground (arith, e, e', h))
    ]
  ]

  -- When a community and an alias of it were just written, to tables of any contents, a request
  -- that names the alias's provider and provider id, both not empty, in the community's city is
  -- resolved to that community with confidence 1, provided 1 is a valid confidence.
  pub resolve_registered :
      (c : Community F) (a : EntityAlias)
      → confident fl.one_f ≡ true
      → a.entity_type ≡ "community"
      → a.entity_id ≡ c.community_id
      → r.provider ≡ some a.provider
      → r.provider_entity_id ≡ some a.provider_entity_id
      → (nonempty a.provider && nonempty a.provider_entity_id) ≡ true
      → c.city_code ≡ r.city_code
      → resolve rs r (record {
        communities = upsert_community rs.text c store.communities;
        aliases = upsert_alias a store.aliases;
      })
        ≡ ok (accepted (certain c) (certain c ∷ []))
  unfolding resolve named_alias by_alias
  resolve_registered c a sure kind of_c p pid given city = ground (
    arith,
    sure,
    kind,
    p,
    pid,
    given,
    city,
    find_by_alias-upserted rs.text c a store of_c,
    string_eq.decides c.city_code r.city_code,
  )

module _ {F : Type 0} (aliases : List EntityAlias) {rows rows' : List (CommunityRow F)}
    (p : Permᴰ rows rows') (d : Distinct (keys row_key rows)) where
  find_by_alias-perm :
      (key : String × (String × String))
      → find_by_alias key (record { communities = rows; aliases = aliases })
        ≡ find_by_alias key (record { communities = rows'; aliases = aliases })
  unfolding find_by_alias get
  find_by_alias-perm key = elim (Option-cases (find alias_key key aliases)) [
    | inl e ↦ ground (arith, e)
    | inr (a, e) ↦ ground (arith, e, find-perm row_key a.entity_id p d)
  ]

  resolve_by_name-perm :
      ⦃fl : Floats F⦄ (rs : Resolver F) (r : CommunityResolutionRequest F)
      → resolve_by_name rs r (record { communities = rows; aliases = aliases })
        ≡ resolve_by_name rs r (record { communities = rows'; aliases = aliases })
  unfolding resolve_by_name
  resolve_by_name-perm rs r =
      ap
        (λ found.
          score_all rs r found >>= λ scored. checked (decide_among (sorted ranks_before scored)))
        (find_by_normalized_name-perm r.city_code (normalize rs.text r.query) p d)

  -- For tables whose community ids are unique, what `resolve` answers or raises does not depend on
  -- the order in which the table `community` holds its rows.
  pub resolve-perm :
      ⦃fl : Floats F⦄ (rs : Resolver F) (r : CommunityResolutionRequest F)
      → resolve rs r (record { communities = rows; aliases = aliases })
        ≡ resolve rs r (record { communities = rows'; aliases = aliases })
  unfolding resolve
  resolve-perm rs r = elim (Option-cases (named_alias r.provider r.provider_entity_id)) [
    | inl e ↦ ground (arith, e, resolve_by_name-perm rs r)
    | inr (key, e) ↦
        elim (Option-cases (find_by_alias key (record { communities = rows; aliases = aliases }))) [
          | inl missing ↦
              ground (arith, e, missing, find_by_alias-perm key, resolve_by_name-perm rs r)
          | inr (c, found) ↦ ground (arith, e, found, find_by_alias-perm key)
        ]
  ]
