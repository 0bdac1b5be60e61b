-- ===== src/Tests/Resolving.antt =====
-- Runs of `resolve`, and the theorems about it at those inputs. The floats are whole billionths.
use mathlib.Core.List.{Permᴰ}
use cn_property_agent.Prelude.{
  ◌*◌, ◌/◌, ◌≡◌, refl, string_eq, Option, none, some, [], ◌∷◌, ok, err, Result,
}
use cn_property_agent.Prelude.Int.{ℤ, pos, ◌+ℤ◌, ◌-ℤ◌}
use cn_property_agent.Prelude.Text.{str_ltb}
use cn_property_agent.Prelude.Sorting.{sorted}
use cn_property_agent.Storage.Communities.Laws.{Normalized}
use cn_property_agent.Floats.{Floats, FloatOrder}
use cn_property_agent.Utils.{Trig}
use cn_property_agent.Domain.Common.{Raised, value_error}
use cn_property_agent.Domain.Community.{Community, EntityAlias}
use cn_property_agent.Storage.Communities.{
  CommunityRow, CommunityStore, row_of, upsert_community, upsert_alias,
}
use cn_property_agent.Services.Resolution.Scoring.{CommunityResolutionRequest, Resolver, same_text}
use cn_property_agent.Services.Resolution.{
  ResolutionStatus, resolved, CommunityResolution, accepted, certain, resolve,
}
use cn_property_agent.Services.Resolution.Laws.{IsSound}
use cn_property_agent.Services.Resolution.Outcomes.{
  resolve-IsSound, resolve_registered, resolve-perm,
}
use cn_property_agent.Services.Resolution.Raising.{resolve_raises}
use cn_property_agent.Tests.Samples.{whole, whole_order, tools, garden}

abbrev nano : Floats ℤ
nano = record whole {
  one_f = pos 1000000000;
  two_f = pos 2000000000;
  ratio = λ m n. pos (m * 1000000000 / n);
}

nano_order : FloatOrder nano
nano_order = record {
  lt-eq = whole_order.lt-eq;
  le_trans = whole_order.le_trans;
  le_total = whole_order.le_total;
  le_antisymm = whole_order.le_antisymm;
  le_numbers = whole_order.le_numbers;
  of_int_number = whole_order.of_int_number;
}

-- Angles that are all zero, and roots that always fail.
abbrev flat_trig : Trig ℤ
flat_trig = record {
  radians = λ x. pos 0;
  sin = λ x. x;
  cos = λ x. x;
  atan2 = λ x y. x;
  square = λ x. x;
  sqrt = λ x. none;
}

abbrev resolver : Resolver ℤ
resolver = record {
  text = tools;
  trig = flat_trig;
  geo_confirmation_radius_m = pos 750000000000;
  rounded_text = λ x. "0";
}

abbrev north : Community ℤ
north = record garden { community_id = "c-2"; district = some "North" }

abbrev south : Community ℤ
south = record garden { community_id = "c-3"; district = some "South" }

abbrev asked : CommunityResolutionRequest ℤ
asked = record {
  query = "Gar den";
  city_code = "310000";
  district = some "South";
  subdistrict = none;
  address = none;
  latitude = none;
  longitude = none;
  provider = none;
  provider_entity_id = none;
}

abbrev located : CommunityResolutionRequest ℤ
located = record asked { latitude = some (pos 1); longitude = some (pos 1) }

abbrev row : Community ℤ → CommunityRow ℤ
unfolding row_of
row c = row_of tools c

abbrev one_place : Community ℤ
one_place = record south { latitude = some (pos 2); longitude = some (pos 2) }

abbrev tables : CommunityStore ℤ
tables = record { communities = row north ∷ row south ∷ []; aliases = [] }

abbrev status_of :
    Result Raised (CommunityResolution ℤ) → Option (ResolutionStatus × Option (Community ℤ) × ℤ)
status_of (ok r) = some (r.status, r.community, r.confidence)
status_of (err e) = none

resolves_south :
    status_of (resolve ⦃fl = nano⦄ resolver asked tables)
    ≡ some (resolved, some south, pos 900000000)
unfolding resolve sorted row str_ltb same_text ◌-ℤ◌ ◌+ℤ◌
resolves_south = refl

abbrev answer : CommunityResolution ℤ
answer = record {
  status = resolved;
  community = some south;
  confidence = pos 900000000;
  candidates =
      record {
        community = south;
        confidence = pos 900000000;
        reasons = "exact normalized name" ∷ "district match" ∷ [];
      }
      ∷ record {
        community = north;
        confidence = pos 500000000;
        reasons = "exact normalized name" ∷ "district mismatch" ∷ [];
      }
      ∷ [];
  warnings = [];
}

answers : resolve ⦃fl = nano⦄ resolver asked tables ≡ ok answer
unfolding resolve sorted row str_ltb same_text ◌-ℤ◌ ◌+ℤ◌
answers = refl

tables-Normalized : Normalized tools tables.communities
unfolding row
tables-Normalized = (refl, (refl, tt))

resolve-IsSound_example : IsSound ⦃fl = nano⦄ resolver asked tables answer
unfolding row
resolve-IsSound_example =
    resolve-IsSound ⦃fl = nano⦄ resolver asked tables (refl, (refl, tt)) tables-Normalized answer
      answers

resolve-perm_example :
    resolve ⦃fl = nano⦄ resolver asked
      (record { communities = row north ∷ row south ∷ []; aliases = [] })
    ≡ resolve ⦃fl = nano⦄ resolver asked
        (record { communities = row south ∷ row north ∷ []; aliases = [] })
unfolding row
resolve-perm_example =
    resolve-perm [] (Permᴰ.swap refl refl) (refl, (refl, tt)) ⦃fl = nano⦄ resolver asked

abbrev south_alias : EntityAlias
south_alias = record {
  entity_type = "community";
  entity_id = "c-3";
  provider = "lianjia";
  provider_entity_id = "77";
  provider_url = none;
}

abbrev by_id : CommunityResolutionRequest ℤ
by_id = record asked { provider = some "lianjia"; provider_entity_id = some "77" }

resolve_registered_example :
    resolve ⦃fl = nano⦄ resolver by_id (record {
      communities = upsert_community tools south [];
      aliases = upsert_alias south_alias [];
    })
    ≡ ok (accepted ⦃fl = nano⦄ (certain ⦃fl = nano⦄ south) (certain ⦃fl = nano⦄ south ∷ []))
resolve_registered_example =
    resolve_registered ⦃fl = nano⦄ resolver by_id (record { communities = []; aliases = [] }) south
      south_alias refl refl refl refl refl refl refl

no_root :
    resolve ⦃fl = nano⦄ resolver located (record { communities = row one_place ∷ []; aliases = [] })
    ≡ err value_error
unfolding resolve sorted row str_ltb same_text ◌-ℤ◌ ◌+ℤ◌
no_root = refl

resolve_raises_example :
    (value_error ≡ value_error) × ((latitude : ℤ) × (located.latitude ≡ some latitude))
resolve_raises_example =
    resolve_raises ⦃fl = nano⦄ resolver located
      (record { communities = row one_place ∷ []; aliases = [] }) nano_order refl value_error
      no_root
