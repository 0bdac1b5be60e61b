-- ===== src/Services/Resolution/Scoring.antt =====
-- services/community_resolver.py: the request, and how sure a candidate is. The decimal literals are
-- quotients of integers, which Python rounds alike.
use cn_property_agent.Prelude.{
  String, string_eq, Bool, Option, some, List, [], ◌∷◌, ◌++◌, Result, ok, ◌>>=◌, ◌==◌, ◌&&◌,
  if◌then◌else◌,
}
use Prim.Native.String.{◌++◌ as ◌+++◌}
use cn_property_agent.Floats.{Floats}
use cn_property_agent.Utils.{TextTools, Trig, normalize, haversine_distance_m}
use cn_property_agent.Domain.Common.{Raised, nonempty, optional, validated}
use cn_property_agent.Domain.Community.{Community, both_or_neither, within}

pub record CommunityResolutionRequest (F : Type 0) : Type 0 where
  pub query : String
  pub city_code : String
  pub district : Option String
  pub subdistrict : Option String
  pub address : Option String
  pub latitude : Option F
  pub longitude : Option F
  pub provider : Option String
  pub provider_entity_id : Option String

pub record CommunityResolutionCandidate (F : Type 0) : Type 0 where
  pub community : Community F
  pub confidence : F
  pub reasons : List String

-- The constructor's argument, and what the code takes from the runtime.
pub record Resolver (F : Type 0) : Type 0 where
  pub text : TextTools
  pub trig : Trig F
  pub geo_confirmation_radius_m : F
  -- `f"{distance:.0f}"`
  pub rounded_text : F → String

-- The score so far, and its reasons.
pub record Score (F : Type 0) : Type 0 where
  pub score : F
  pub reasons : List String

module _ {F : Type 0} ⦃fl : Floats F⦄ where
  -- The field constraints and `validate_coordinates_and_alias`.
  unfoldable pub valid_request : CommunityResolutionRequest F → Bool
  valid_request r =
      nonempty r.query
      && (nonempty r.city_code
          && (optional (within (fl.ratio 90 1)) r.latitude
              && (optional (within (fl.ratio 180 1)) r.longitude
                  && (both_or_neither r.latitude r.longitude
                      && both_or_neither r.provider r.provider_entity_id))))

  -- `Field(ge=0, le=1)`
  abbrev pub confident : F → Bool
  confident x = fl.le fl.zero_f x && fl.le x fl.one_f

  -- `max(0.0, min(1.0, score))`
  unfoldable pub clamped : F → F
  clamped score =
      let most = if fl.lt score fl.one_f then score else fl.one_f in
      if fl.lt fl.zero_f most then most else fl.zero_f

  abbrev pub raised_by : F → String → Score F → Score F
  raised_by x reason s = record { score = fl.add s.score x; reasons = s.reasons ++ (reason ∷ []) }

  abbrev pub lowered_by : F → String → Score F → Score F
  lowered_by x reason s = record { score = fl.sub s.score x; reasons = s.reasons ++ (reason ∷ []) }

  abbrev pub first_score : Score F
  first_score = record { score = fl.ratio 70 100; reasons = "exact normalized name" ∷ [] }

module _ {F : Type 0} ⦃fl : Floats F⦄ (rs : Resolver F) where
  unfoldable pub same_text : String → String → Bool
  unfolding normalize
  same_text a b = normalize rs.text a == normalize rs.text b

  unfoldable pub score_district : Option String → Option String → Score F → Score F
  score_district (some asked) (some known) s =
      if same_text asked known
      then raised_by (fl.ratio 20 100) "district match" s
      else lowered_by (fl.ratio 20 100) "district mismatch" s
  score_district _ _ s = s

  unfoldable pub score_subdistrict : Option String → Option String → Score F → Score F
  score_subdistrict (some asked) (some known) s =
      if same_text asked known
      then raised_by (fl.ratio 8 100) "subdistrict match" s
      else lowered_by (fl.ratio 10 100) "subdistrict mismatch" s
  score_subdistrict _ _ s = s

  unfoldable pub score_address : Option String → Option String → Score F → Score F
  score_address (some asked) (some known) s =
      if same_text asked known then raised_by (fl.ratio 15 100) "address match" s else s
  score_address _ _ s = s

  unfoldable pub score_distance : F → Score F → Score F
  score_distance distance s =
      if fl.le distance rs.geo_confirmation_radius_m
      then raised_by (fl.ratio 15 100)
          ("coordinate match within " +++ (rs.rounded_text distance +++ "m")) s
      else lowered_by (fl.ratio 25 100)
          ("coordinate mismatch (" +++ (rs.rounded_text distance +++ "m)")) s

  unfoldable pub score_coordinates :
      Option F → Option F → Option F → Option F → Score F → Result Raised (Score F)
  unfolding haversine_distance_m score_distance
  score_coordinates (some lat) (some lon) (some lat') (some lon') s =
      haversine_distance_m rs.trig lat lon lat' lon' >>= λ distance. ok (score_distance distance s)
  score_coordinates _ _ _ _ s = ok s

  -- The local variables `score` and `reasons` of `_score`, past its conditions.
  unfoldable pub score_of : Community F → CommunityResolutionRequest F → Result Raised (Score F)
  unfolding score_district score_subdistrict score_address score_coordinates
  score_of c r =
      let placed =
        score_subdistrict r.subdistrict c.subdistrict
          (score_district r.district c.district first_score) in
      score_coordinates r.latitude r.longitude c.latitude c.longitude
        (score_address r.address c.address placed)

  -- `_score`
  unfoldable pub score_candidate :
      Community F → CommunityResolutionRequest F → Result Raised (CommunityResolutionCandidate F)
  unfolding score_of clamped
  score_candidate c r = do
    s ← score_of c r
    validated (λ x. confident x.confidence)
        (record { community = c; confidence = clamped s.score; reasons = s.reasons })

  -- The list comprehension over the candidates.
  unfoldable pub score_all :
      CommunityResolutionRequest F
      → List (Community F)
      → Result Raised (List (CommunityResolutionCandidate F))
  unfolding score_candidate
  score_all r [] = ok []
  score_all r (c ∷ cs) = do x ← score_candidate c r; xs ← score_all r cs; ok (x ∷ xs)
