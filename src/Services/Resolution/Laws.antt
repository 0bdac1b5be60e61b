-- ===== src/Services/Resolution/Laws.antt =====
-- What a resolution may answer: only a stored community of the requested city, named as asked or by
-- the alias that was asked for.

use mathlib.Core.List.Permᴰ
use cn_property_agent.Prelude.{
  ◌≡◌, ◌≤◌, ◌⊎◌, inl, inr, refl, sym, subst, String, string_eq, pair_eq, true, Bool-cases, Option,
  none, some, List, [], ◌∷◌, arith, All, Distinct, ok, err, ok-injective, Result-cases, length,
}
use cn_property_agent.Prelude.Sorting.{sorted, All-perm, sorted-perm}
use cn_property_agent.Floats.{Floats, FloatOrder}
use cn_property_agent.Utils.{normalize}
use cn_property_agent.Domain.Common.{Raised}
use cn_property_agent.Domain.Community.{Community}
use cn_property_agent.Storage.Table.{keys}
use cn_property_agent.Storage.Communities.{
  CommunityStore, row_key, get, find_by_normalized_name, find_by_alias,
}
use cn_property_agent.Storage.Communities.Laws.{
  find_by_normalized_name-AllMatch, Normalized, IsMatch,
}
use cn_property_agent.Services.Resolution.Scoring.{
  CommunityResolutionRequest, CommunityResolutionCandidate, Resolver, confident, clamped,
  score_candidate, score_all, score_of,
}
use cn_property_agent.Services.Resolution.{
  ResolutionStatus, resolved, ambiguous, not_found, CommunityResolution, named_alias, ranks_before,
  stands_out, decide_among, checked, resolve_by_name,
}

module _ {F : Type 0} ⦃fl : Floats F⦄ where
  -- A clamped score lies between 0 and 1, whatever the score, where the comparisons are those of
  -- IEEE 754 and 0 is below 1.
  pub clamped-Confident :
      FloatOrder fl
      → fl.le fl.zero_f fl.one_f ≡ true
      → (score : F) → confident (clamped score) ≡ true
  unfolding clamped
  clamped-Confident order unit score = ground (
    arith,
    unit,
    order.le_numbers fl.zero_f fl.one_f unit,
    order.lt-eq score fl.one_f,
    order.lt-eq fl.zero_f score,
    order.lt-eq fl.zero_f fl.one_f,
  )

-- How the answer stands to the candidates: it is the first one, none of several, or none at all.
abbrev pub Answers :
    {F : Type 0}
    → ResolutionStatus
    → Option (Community F)
    → F
    → List (CommunityResolutionCandidate F)
    → Type 0
Answers resolved answer confidence [] = ⊥
Answers resolved answer confidence (best ∷ rest) =
    (answer ≡ some best.community) × (confidence ≡ best.confidence)
Answers ambiguous answer confidence candidates = (answer ≡ none) × (2 ≤ length candidates)
Answers not_found answer confidence candidates = (answer ≡ none) × (candidates ≡ [])

module _ {F : Type 0} ⦃fl : Floats F⦄ where
  abbrev pub Answering : CommunityResolution F → Type 0
  Answering r = Answers r.status r.community r.confidence r.candidates

  decide_among-Answering :
      (xs : List (CommunityResolutionCandidate F)) → Answering (decide_among xs)
  unfolding decide_among
  decide_among-Answering [] = (refl, refl)
  decide_among-Answering (only ∷ []) = (refl, refl)
  decide_among-Answering (best ∷ second ∷ rest) =
      elim (Bool-cases (stands_out best.confidence second.confidence)) [
        | inl e ↦ rw e (refl, refl)
        | inr e ↦ rw e (refl, omega arith)
      ]

  decide_among-candidates :
      (xs : List (CommunityResolutionCandidate F)) → (decide_among xs).candidates ≡ xs
  unfolding decide_among
  decide_among-candidates [] = refl
  decide_among-candidates (only ∷ []) = refl
  decide_among-candidates (best ∷ second ∷ rest) =
      elim (Bool-cases (stands_out best.confidence second.confidence)) [
        | inl e ↦ rw e refl
        | inr e ↦ rw e refl
      ]

module _ {F : Type 0} ⦃fl : Floats F⦄ (rs : Resolver F) (r : CommunityResolutionRequest F) where
  score_candidate_ok :
      (c : Community F) (x : CommunityResolutionCandidate F)
      → score_candidate rs c r ≡ ok x
      → (x.community ≡ c) × (confident x.confidence ≡ true)
  unfolding score_candidate
  score_candidate_ok c x h = elim (Result-cases (score_of rs c r)) [
    | inr (e, eq) ↦ absurd (ground (arith, eq, h))
    | inl (s, eq) ↦ elim (Bool-cases (confident (clamped s.score))) [
      | inl v ↦ (ground (arith, eq, v, h), ground (arith, eq, v, h))
      | inr v ↦ absurd (ground (arith, eq, v, h))
    ]
  ]

  module _ (P : Community F → Type 0) where
    -- A candidate of the right kind, whose confidence is a share.
    abbrev pub Rated : CommunityResolutionCandidate F → Type 0
    Rated x = P x.community × (confident x.confidence ≡ true)

    pub score_all-Rated :
        (cs : List (Community F)) (xs : List (CommunityResolutionCandidate F))
        → All P cs
        → score_all rs r cs ≡ ok xs
        → All Rated xs
    unfolding score_all
    score_all-Rated [] xs ps h = subst (All Rated) (ok-injective h) tt
    score_all-Rated (c ∷ cs) xs ps h = elim (Result-cases (score_candidate rs c r)) [
      | inr (e, eq) ↦ absurd (ground (arith, eq, h))
      | inl (x, eq) ↦ elim (Result-cases (score_all rs r cs)) [
        | inr (e, eq') ↦ absurd (ground (arith, eq, eq', h))
        | inl (rest, eq') ↦
            let (same, sure) = score_candidate_ok c x eq in
            subst (All Rated) {x = x ∷ rest} (ground (arith, eq, eq', h))
              ((subst P (sym same) ps.0, sure), score_all-Rated cs rest ps.1 eq')
      ]
    ]

  -- The exception that a score may raise is that of a square root.
  pub score_candidate_raises :
      FloatOrder fl
      → fl.le fl.zero_f fl.one_f ≡ true
      → (c : Community F) (e : Raised) → score_candidate rs c r ≡ err e
      → score_of rs c r ≡ err e
  unfolding score_candidate
  score_candidate_raises order unit c e h = elim (Result-cases (score_of rs c r)) [
    | inr (x, eq) ↦ ground (arith, eq, h)
    | inl (s, eq) ↦ absurd (ground (arith, eq, h, clamped-Confident order unit s.score))
  ]

  module _ (store : CommunityStore F) where
    -- Stored in the requested city, and named as asked or by the alias that was asked for.
    pub record IsJustified (c : Community F) : Type 0 where
      pub stored : get c.community_id store.communities ≡ some c
      pub city : c.city_code ≡ r.city_code
      pub asked :
          (normalize rs.text c.canonical_name ≡ normalize rs.text r.query)
          ⊎ ((key : String × (String × String)) × (named_alias r.provider r.provider_entity_id
                ≡ some key)
              × (find_by_alias key store ≡ some c))

    pub record IsSound (x : CommunityResolution F) : Type 0 where
      pub sure : confident x.confidence ≡ true
      pub answer : Answering x
      pub candidates : All (Rated IsJustified) x.candidates

    match-IsJustified :
        (c : Community F)
        → IsMatch rs.text r.city_code (normalize rs.text r.query) store.communities c
        → IsJustified c
    match-IsJustified c m = record { stored = m.stored; city = m.city; asked = inl m.named }

    matches-IsJustified :
        (cs : List (Community F))
        → All (IsMatch rs.text r.city_code (normalize rs.text r.query) store.communities) cs
        → All IsJustified cs
    matches-IsJustified [] h = tt
    matches-IsJustified (c ∷ cs) (here, more) =
        (match-IsJustified c here, matches-IsJustified cs more)

    decided-IsSound :
        (scored : List (CommunityResolutionCandidate F)) (x : CommunityResolution F)
        → All (Rated IsJustified) scored
        → checked (decide_among (sorted ranks_before scored)) ≡ ok x
        → IsSound x
    decided-IsSound scored x h e =
        elim (Bool-cases (confident (decide_among (sorted ranks_before scored)).confidence)) [
          | inr v ↦ absurd (ground (arith, v, e))
          | inl v ↦
              let among = sorted ranks_before scored in
              subst IsSound {x = decide_among among} (ground (arith, v, e)) (record {
                sure = v;
                answer = decide_among-Answering among;
                candidates =
                    subst (All (Rated IsJustified)) (sym (decide_among-candidates among)) (
                      All-perm (Rated IsJustified) (Permᴰ.symm (sorted-perm ranks_before scored))
                        h);
              })
        ]

    module _ (d : Distinct (keys row_key store.communities))
        (n : Normalized rs.text store.communities) where
      pub by_name-IsSound :
          (x : CommunityResolution F) → resolve_by_name rs r store ≡ ok x → IsSound x
      unfolding resolve_by_name
      by_name-IsSound x h =
          let name = normalize rs.text r.query in
          let found = find_by_normalized_name r.city_code name store.communities in
          elim (Result-cases (score_all rs r found)) [
            | inr (e, eq) ↦ absurd (ground (arith, eq, h))
            | inl (scored, eq) ↦
                decided-IsSound scored x
                  (score_all-Rated IsJustified found scored
                    (matches-IsJustified found (
                      find_by_normalized_name-AllMatch rs.text r.city_code name store.communities d
                        n))
                    eq)
                  (ground (arith, eq, h))
          ]
