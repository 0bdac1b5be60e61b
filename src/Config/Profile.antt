-- ===== src/Config/Profile.antt =====
-- config/city_profile.py: a city's profile from its file. Reading a file is an argument: `none` where
-- it cannot be read or is no UTF-8. Pydantic's validation of the mapping is written out: a value of a
-- profile is a text, the providers are a section, and other keys are ignored.
use Prim.Native.String.{◌++◌}
use cn_property_agent.Prelude.{
  String, string_eq, Bool, not, Option, none, some, List, [], ◌∷◌, Result, ok, err, ◌>>=◌, ◌>>◌,
  ◌==◌, raise_if, if◌then◌else◌,
}
use cn_property_agent.Domain.Common.{nonempty}
use cn_property_agent.Config.Yaml.{scalar, section, YamlMapping, parse_yaml_mapping}

-- config/errors.py
pub data ConfigurationError : Type 0 where
  city_profile_error provider_configuration_error : ConfigurationError

pub record CityProviderNames : Type 0 where
  pub transactions : Option String
  pub listings : Option String
  pub geospatial : Option String
  pub market : Option String
  pub planning : Option String
  pub research : Option String

pub record CityProfile : Type 0 where
  pub city_code : String
  pub country_code : Option String
  pub display_name : Option String
  pub timezone : Option String
  pub currency : Option String
  pub providers : CityProviderNames

-- `Field(default=None, min_length=1)`
abbrev checked_text : String → Result ConfigurationError (Option String)
checked_text s = if nonempty s then ok (some s) else err city_profile_error

-- The value of a text field.
unfoldable pub text_field : String → YamlMapping → Result ConfigurationError (Option String)
text_field name [] = ok none
text_field name ((k, scalar s) ∷ rest) =
    let more = text_field name rest in if k == name then checked_text s else more
text_field name ((k, section entries) ∷ rest) =
    let more = text_field name rest in if k == name then err city_profile_error else more

unfoldable pub name_field :
    String → List (String × String) → Result ConfigurationError (Option String)
name_field name [] = ok none
name_field name ((k, s) ∷ rest) =
    let more = name_field name rest in if k == name then checked_text s else more

-- The section of the providers; a text in its place is no mapping.
unfoldable pub providers_section : YamlMapping → Result ConfigurationError (List (String × String))
providers_section [] = ok []
providers_section ((k, scalar s) ∷ rest) =
    let more = providers_section rest in if k == "providers" then err city_profile_error else more
providers_section ((k, section entries) ∷ rest) =
    let more = providers_section rest in if k == "providers" then ok entries else more

unfoldable pub provider_names : List (String × String) → Result ConfigurationError CityProviderNames
unfolding name_field
provider_names entries = do
  transactions ← name_field "transactions" entries
  listings ← name_field "listings" entries
  geospatial ← name_field "geospatial" entries
  market ← name_field "market" entries
  planning ← name_field "planning" entries
  research ← name_field "research" entries
  ok (record {
    transactions = transactions;
    listings = listings;
    geospatial = geospatial;
    market = market;
    planning = planning;
    research = research;
  })

-- A field without a default.
abbrev required : Option String → Result ConfigurationError String
required none = err city_profile_error
required (some s) = ok s

-- `CityProfile.model_validate(payload)`
unfoldable pub profile_of : YamlMapping → Result ConfigurationError CityProfile
unfolding text_field providers_section provider_names
profile_of payload = do
  code ← text_field "city_code" payload
  city_code ← required code
  country_code ← text_field "country_code" payload
  display_name ← text_field "display_name" payload
  timezone ← text_field "timezone" payload
  currency ← text_field "currency" payload
  entries ← providers_section payload
  providers ← provider_names entries
  ok (record {
    city_code = city_code;
    country_code = country_code;
    display_name = display_name;
    timezone = timezone;
    currency = currency;
    providers = providers;
  })

unfoldable pub mapping_of : String → Result ConfigurationError YamlMapping
unfolding parse_yaml_mapping
mapping_of text = elim (parse_yaml_mapping text) [
  | ok root ↦ ok root
  | err e ↦ err city_profile_error
]

abbrev pub other_city : Option String → String → Bool
other_city none code = Bool.false
other_city (some expected) code = not (code == expected)

module _ (read_text : String → Option String) where
  unfoldable pub load_city_profile_file :
      String → Option String → Result ConfigurationError CityProfile
  unfolding mapping_of profile_of
  load_city_profile_file path expected_city_code = elim (read_text path) [
    | none ↦ err city_profile_error
    | some text ↦ do
      payload ← mapping_of text
      profile ← profile_of payload
      raise_if (other_city expected_city_code profile.city_code) city_profile_error
      ok profile
  ]

  -- `Path(directory) / f"{city_code}.yaml"`, for a relative file name
  unfoldable pub load_city_profile : String → String → Result ConfigurationError CityProfile
  unfolding load_city_profile_file
  load_city_profile city_code directory =
      load_city_profile_file (directory ++ ("/" ++ (city_code ++ ".yaml"))) (some city_code)
