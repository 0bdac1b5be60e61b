-- ===== src/Services/Resolution/Raising.antt =====
-- When a resolution raises.

use mathlib.Core.List.Permᴰ
use cn_property_agent.Prelude.{
  ◌≡◌, inl, inr, refl, subst, string_eq, pair_eq, true, Bool-cases, Option, none, some, List, [],
  ◌∷◌, arith, All, err, Result-cases, Option-cases, ◌==◌,
}
use cn_property_agent.Prelude.Sorting.{sorted, All-perm, sorted-perm}
use cn_property_agent.Floats.{Floats, FloatOrder}
use cn_property_agent.Utils.{normalize, haversine, haversine_distance_m}
use cn_property_agent.Domain.Common.{Raised, value_error}
use cn_property_agent.Domain.Community.{Community}
use cn_property_agent.Storage.Communities.{CommunityStore, find_by_normalized_name, find_by_alias}
use cn_property_agent.Services.Resolution.Scoring.{
  CommunityResolutionRequest, CommunityResolutionCandidate, Resolver, confident, score_candidate,
  score_all, score_of, score_coordinates, Score,
}
use cn_property_agent.Services.Resolution.{
  named_alias, ranks_before, stands_out, decide_among, by_alias, checked, resolve_by_name, resolve,
}
use cn_property_agent.Services.Resolution.Laws.{Rated, score_all-Rated, score_candidate_raises}

module _ {F : Type 0} ⦃fl : Floats F⦄ (rs : Resolver F) (r : CommunityResolutionRequest F)
    (store : CommunityStore F) where
  distance_raises :
      (lat lon lat' lon' : F) (e : Raised)
      → haversine_distance_m rs.trig lat lon lat' lon' ≡ err e
      → e ≡ value_error
  unfolding haversine_distance_m
  distance_raises lat lon lat' lon' e h =
      let hav = haversine rs.trig lat lon lat' lon' in
      elim (Option-cases (rs.trig.sqrt hav)) [
        | inl no_root ↦ ground (arith, no_root, h)
        | inr (far, root_far) ↦ elim (Option-cases (rs.trig.sqrt (fl.sub fl.one_f hav))) [
          | inl no_root ↦ ground (arith, root_far, no_root, h)
          | inr (near, root_near) ↦ absurd (ground (arith, root_far, root_near, h))
        ]
      ]

  coordinates_raise :
      (lat lon lat' lon' : Option F) (s : Score F) (e : Raised)
      → score_coordinates rs lat lon lat' lon' s ≡ err e
      → (e ≡ value_error) × ((latitude : F) × (lat ≡ some latitude))
  unfolding score_coordinates
  coordinates_raise none lon lat' lon' s e h = absurd (ground (arith, h))
  coordinates_raise (some lat) none lat' lon' s e h = absurd (ground (arith, h))
  coordinates_raise (some lat) (some lon) none lon' s e h = absurd (ground (arith, h))
  coordinates_raise (some lat) (some lon) (some lat') none s e h = absurd (ground (arith, h))
  coordinates_raise (some lat) (some lon) (some lat') (some lon') s e h =
      elim (Result-cases (haversine_distance_m rs.trig lat lon lat' lon')) [
        | inl (d, eq) ↦ absurd (ground (arith, eq, h))
        | inr (x, eq) ↦ (ground (arith, eq, h, distance_raises lat lon lat' lon' x eq), (lat, refl))
      ]

  -- What a request without coordinates does not do.
  abbrev Located : Raised → Type 0
  Located e = (e ≡ value_error) × ((latitude : F) × (r.latitude ≡ some latitude))

  module _ (order : FloatOrder fl) (unit : fl.le fl.zero_f fl.one_f ≡ true) where
    score_all_raises :
        (cs : List (Community F)) (e : Raised) → score_all rs r cs ≡ err e → Located e
    unfolding score_all score_of
    score_all_raises [] e h = absurd (ground (arith, h))
    score_all_raises (c ∷ cs) e h = elim (Result-cases (score_candidate rs c r)) [
      | inr (x, eq) ↦ subst Located {x = x} (ground (arith, eq, h)) (
          coordinates_raise r.latitude r.longitude c.latitude c.longitude _ x
            (score_candidate_raises rs r order unit c x eq))
      | inl (x, eq) ↦ elim (Result-cases (score_all rs r cs)) [
        | inr (x', eq') ↦
            subst Located {x = x'} (ground (arith, eq, eq', h)) (score_all_raises cs x' eq')
        | inl (rest, eq') ↦ absurd (ground (arith, eq, eq', h))
      ]
    ]

    nothing_asked : (cs : List (Community F)) → All (λ c. Unit {0}) cs
    nothing_asked [] = tt
    nothing_asked (c ∷ cs) = (tt, nothing_asked cs)

    sure_of :
        (xs : List (CommunityResolutionCandidate F))
        → All (Rated rs r (λ c. Unit {0})) xs
        → All (λ x. confident x.confidence ≡ true) xs
    sure_of [] h = tt
    sure_of (x ∷ xs) (here, more) = (here.1, sure_of xs more)

    sure_decided :
        (xs : List (CommunityResolutionCandidate F))
        → All (λ x. confident x.confidence ≡ true) xs
        → confident (decide_among xs).confidence ≡ true
    unfolding decide_among
    sure_decided [] h = ground (arith, unit, order.le_numbers fl.zero_f fl.one_f unit)
    sure_decided (only ∷ []) h = h.0
    sure_decided (best ∷ second ∷ rest) h =
        elim (Bool-cases (stands_out best.confidence second.confidence)) [
          | inl e ↦ ground (arith, e, h.0)
          | inr e ↦ ground (arith, e, h.0)
        ]

    by_name_raises : (e : Raised) → resolve_by_name rs r store ≡ err e → Located e
    unfolding resolve_by_name
    by_name_raises e h =
        let found =
          find_by_normalized_name r.city_code (normalize rs.text r.query) store.communities in
        elim (Result-cases (score_all rs r found)) [
          | inr (x, eq) ↦
              subst Located {x = x} (ground (arith, eq, h)) (score_all_raises found x eq)
          | inl (scored, eq) ↦ absurd (
              ground (
                arith,
                eq,
                h,
                sure_decided (sorted ranks_before scored) (
                    All-perm (λ x. confident x.confidence ≡ true)
                      (Permᴰ.symm (sorted-perm ranks_before scored))
                      (sure_of scored (
                        score_all-Rated rs r (λ c. Unit {0}) found scored (nothing_asked found)
                          eq))),
              ))
        ]

    by_alias_returns : (c : Community F) (e : Raised) → checked (by_alias c r.city_code) ≡ err e → ⊥
    unfolding by_alias
    by_alias_returns c e h = elim (Bool-cases (c.city_code == r.city_code)) [
      | inl same ↦ ground (arith, same, h, unit, order.le_numbers fl.zero_f fl.one_f unit)
      | inr other ↦ ground (arith, other, h, unit, order.le_numbers fl.zero_f fl.one_f unit)
    ]

    -- Where the comparisons are those of IEEE 754 and 0 is below 1, the one exception of `resolve`
    -- is the ValueError of a square root, for a request that gives a latitude: every confidence
    -- that it computes passes the constraints of the models.
    pub resolve_raises :
        (e : Raised)
        → resolve rs r store ≡ err e
        → (e ≡ value_error) × ((latitude : F) × (r.latitude ≡ some latitude))
    unfolding resolve
    resolve_raises e h = elim (Option-cases (named_alias r.provider r.provider_entity_id)) [
      | inl none_named ↦ by_name_raises e (ground (arith, none_named, h))
      | inr (key, named) ↦ elim (Option-cases (find_by_alias key store)) [
        | inl missing ↦ by_name_raises e (ground (arith, named, missing, h))
        | inr (c, found) ↦ absurd (by_alias_returns c e (ground (arith, named, found, h)))
      ]
    ]
