-- ===== src/Services/Resolution.antt =====
-- services/community_resolver.py: a query for a community as one stored community, or as the
-- candidates that remain.
pub mod Scoring
pub mod Laws
pub mod Outcomes
pub mod Raising
use cn_property_agent.Prelude.{
  String, string_eq, Bool, true, false, not, Option, none, some, List, [], ◌∷◌, ◌++◌, Result, ok,
  err, ◌>>=◌, ◌==◌, ◌&&◌, ◌||◌, if◌then◌else◌,
}
use cn_property_agent.Prelude.Sorting.{sorted}
use cn_property_agent.Prelude.Text.{str_ltb}
use Prim.Native.String.{◌++◌ as ◌+++◌}
use cn_property_agent.Floats.{Floats}
use cn_property_agent.Utils.{TextTools, Trig, normalize, haversine_distance_m}
use cn_property_agent.Domain.Common.{Raised, validation_error, nonempty, optional, validated}
use cn_property_agent.Domain.Community.{Community, both_or_neither, within}
use cn_property_agent.Storage.Communities.{CommunityStore, find_by_normalized_name, find_by_alias}
use cn_property_agent.Services.Resolution.Scoring.{
  CommunityResolutionRequest, CommunityResolutionCandidate, Resolver, confident, score_all,
}

pub data ResolutionStatus : Type 0 where
  resolved ambiguous not_found : ResolutionStatus

pub record CommunityResolution (F : Type 0) : Type 0 where
  pub status : ResolutionStatus
  pub community : Option (Community F)
  pub confidence : F
  pub candidates : List (CommunityResolutionCandidate F)
  pub warnings : List String

-- `request.provider and request.provider_entity_id`, as the key of the alias
unfoldable pub named_alias : Option String → Option String → Option (String × (String × String))
named_alias (some provider) (some entity) =
    if nonempty provider && nonempty entity then some ("community", (provider, entity)) else none
named_alias _ _ = none

module _ {F : Type 0} ⦃fl : Floats F⦄ where
  -- The key `(-item.confidence, item.community.community_id)`
  unfoldable pub ranks_before :
      CommunityResolutionCandidate F → CommunityResolutionCandidate F → Bool
  ranks_before a b =
      fl.lt b.confidence a.confidence
      || (fl.le a.confidence b.confidence
          && (fl.le b.confidence a.confidence
              && str_ltb a.community.community_id b.community.community_id))

  abbrev pub accepted :
      CommunityResolutionCandidate F → List (CommunityResolutionCandidate F) → CommunityResolution F
  accepted best candidates = record {
    status = resolved;
    community = some best.community;
    confidence = best.confidence;
    candidates = candidates;
    warnings = [];
  }

  abbrev pub nothing_found : String → CommunityResolution F
  nothing_found warning = record {
    status = not_found;
    community = none;
    confidence = fl.zero_f;
    candidates = [];
    warnings = warning ∷ [];
  }

  -- `best.confidence + epsilon >= 0.9 and best.confidence - second.confidence + epsilon >= 0.15`
  unfoldable pub stands_out : F → F → Bool
  stands_out best second =
      let epsilon = fl.ratio 1 1000000000 in
      fl.le (fl.ratio 9 10) (fl.add best epsilon)
      && fl.le (fl.ratio 15 100) (fl.add (fl.sub best second) epsilon)

  -- What becomes of the sorted candidates.
  unfoldable pub decide_among : List (CommunityResolutionCandidate F) → CommunityResolution F
  unfolding stands_out
  decide_among [] = nothing_found "no exact normalized-name candidate"
  decide_among (only ∷ []) = accepted only (only ∷ [])
  decide_among (best ∷ second ∷ rest) =
      let candidates = best ∷ second ∷ rest in
      if stands_out best.confidence second.confidence then accepted best candidates else record {
        status = ambiguous;
        community = none;
        confidence = best.confidence;
        candidates = candidates;
        warnings = "multiple same-name candidates remain; geographic confirmation required" ∷ [];
      }

  -- The candidate of an alias.
  abbrev pub certain : Community F → CommunityResolutionCandidate F
  certain c = record {
    community = c;
    confidence = fl.one_f;
    reasons = "exact provider-native id" ∷ [];
  }

  unfoldable pub by_alias : Community F → String → CommunityResolution F
  by_alias aliased city_code =
      if aliased.city_code == city_code
      then accepted (certain aliased) (certain aliased ∷ [])
      else nothing_found "provider alias exists but belongs to another city"

  -- The constraint of `CommunityResolution`.
  abbrev pub checked : CommunityResolution F → Result Raised (CommunityResolution F)
  checked r = validated (λ x. confident x.confidence) r

module _ {F : Type 0} ⦃fl : Floats F⦄ (rs : Resolver F) where
  -- Past the alias.
  unfoldable pub resolve_by_name :
      CommunityResolutionRequest F → CommunityStore F → Result Raised (CommunityResolution F)
  unfolding find_by_normalized_name score_all ranks_before decide_among
  resolve_by_name r store = do
    scored ←
        score_all rs r
          (find_by_normalized_name r.city_code (normalize rs.text r.query) store.communities)
    checked (decide_among (sorted ranks_before scored))

  unfoldable pub resolve :
      CommunityResolutionRequest F → CommunityStore F → Result Raised (CommunityResolution F)
  unfolding named_alias find_by_alias by_alias resolve_by_name
  resolve r store = elim (named_alias r.provider r.provider_entity_id) [
    | none ↦ resolve_by_name r store
    | some key ↦ elim (find_by_alias key store) [
      | some aliased ↦ checked (by_alias aliased r.city_code)
      | none ↦ resolve_by_name r store
    ]
  ]
