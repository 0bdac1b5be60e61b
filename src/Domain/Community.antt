-- ===== src/Domain/Community.antt =====
-- domain/community.py: `SourceRef` (of domain/common.py), `Community` and `EntityAlias`.
use cn_property_agent.Prelude.{String, Bool, true, false, Option, none, some, List, ◌&&◌}
use cn_property_agent.Prelude.Int.{ℤ, leb_ℤ}
use cn_property_agent.Floats.{Floats}
use cn_property_agent.Domain.Common.{nonempty, optional, plausible_year}

pub record SourceRef : Type 0 where
  pub provider : String
  pub provider_entity_id : Option String
  pub provider_url : Option String

pub record Community (F : Type 0) : Type 0 where
  pub community_id : String
  pub city_code : String
  pub canonical_name : String
  pub district : Option String
  pub subdistrict : Option String
  pub address : Option String
  pub latitude : Option F
  pub longitude : Option F
  pub built_year_min : Option ℤ
  pub built_year_max : Option ℤ
  pub building_types : List String
  pub source_refs : List SourceRef

pub record EntityAlias : Type 0 where
  pub entity_type : String
  pub entity_id : String
  pub provider : String
  pub provider_entity_id : String
  pub provider_url : Option String

-- `Field(ge=-bound, le=bound)` on a float
pub within : {F : Type 0} ⦃fl : Floats F⦄ → F → F → Bool
within ⦃fl⦄ bound x = fl.le (fl.sub fl.zero_f bound) x && fl.le x bound

ordered_years : Option ℤ → Option ℤ → Bool
ordered_years (some low) (some high) = leb_ℤ low high
ordered_years _ _ = true

-- `(a is None) != (b is None)` fails
pub both_or_neither : {A B : Type 0} → Option A → Option B → Bool
both_or_neither none none = true
both_or_neither (some _) (some _) = true
both_or_neither _ _ = false

-- The field constraints and `validate_years_and_coordinates`; the degree bounds are arguments.
unfoldable pub valid_community : {F : Type 0} ⦃fl : Floats F⦄ → F → F → Community F → Bool
unfolding within ordered_years both_or_neither
valid_community latitude_bound longitude_bound c =
    nonempty c.community_id
    && (nonempty c.city_code
        && (nonempty c.canonical_name
            && (optional (within latitude_bound) c.latitude
                && (optional (within longitude_bound) c.longitude
                    && (optional plausible_year c.built_year_min
                        && (optional plausible_year c.built_year_max
                            && (ordered_years c.built_year_min c.built_year_max
                                && both_or_neither c.latitude c.longitude)))))))
