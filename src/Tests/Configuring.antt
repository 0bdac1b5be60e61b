-- ===== src/Tests/Configuring.antt =====
-- Runs over a profile file, and the theorems about configuration at those inputs.
use cn_property_agent.Prelude.{
  filter_map, filterb, length, false, ◌≡◌, refl, String, string_eq, Bool, true, Option, none, some,
  [], ◌∷◌, ok, err, ◌==◌, if◌then◌else◌,
}
use cn_property_agent.Prelude.Int.{ℤ}
use cn_property_agent.Providers.Lianjia.Recorded.{LianjiaTransactionSnapshot}
use cn_property_agent.Services.TransactionIngestion.{TransactionProvider}
use cn_property_agent.Config.Yaml.{
  YamlMapping, scalar, section, parse_yaml_mapping, duplicate_entry, names, lines_past,
}
use cn_property_agent.Config.Yaml.Entries.{entry_count, is_inner}
use cn_property_agent.Config.Yaml.Keys.{KeysOnce}
use cn_property_agent.Config.Yaml.Lines.{margin_key, parse_yaml_mapping_keys}
use cn_property_agent.Config.Profile.{CityProfile, load_city_profile}
use cn_property_agent.Config.Composition.{
  ProviderSettings, recorded_provider, build_transaction_provider,
  build_transaction_provider_configured,
}
use cn_property_agent.Tests.Samples.{whole}
use cn_property_agent.Tests.Lianjia.{rt, transaction_snapshot}

abbrev file_text : String
file_text = "# Shanghai\ncity_code: shanghai\nunits:\nproviders:\n  transactions: 'lianjia'\n"

abbrev mapping : YamlMapping
mapping =
    ("city_code", scalar "shanghai")
    ∷ ("units", section [])
    ∷ ("providers", section (("transactions", "lianjia") ∷ []))
    ∷ []

reads_mapping : parse_yaml_mapping file_text ≡ ok mapping
unfolding parse_yaml_mapping
reads_mapping = refl

-- The second entry of the section repeats the first.
refuses_repeat : parse_yaml_mapping "units:\n  area: sqm\n  area: sqft\n" ≡ err (3, duplicate_entry)
unfolding parse_yaml_mapping
refuses_repeat = refl

parse_yaml_mapping_keys_example :
    (names mapping ≡ filter_map margin_key (lines_past false file_text))
    × (entry_count mapping ≡ length (filterb is_inner (lines_past false file_text)))
    × KeysOnce mapping
parse_yaml_mapping_keys_example = parse_yaml_mapping_keys file_text mapping reads_mapping

abbrev files : String → Option String
files path = if path == "cities/shanghai.yaml" then some file_text else none

abbrev snapshots : String → Option (LianjiaTransactionSnapshot ℤ)
snapshots path = some transaction_snapshot

abbrev is_file : String → Bool
is_file path = path == "deals.json"

abbrev settings : ProviderSettings
settings = record { lianjia_transaction_snapshot_path = some "deals.json" }

abbrev profile : CityProfile
profile = record {
  city_code = "shanghai";
  country_code = none;
  display_name = none;
  timezone = none;
  currency = none;
  providers = record {
    transactions = some "lianjia";
    listings = none;
    geospatial = none;
    market = none;
    planning = none;
    research = none;
  };
}

loads_profile : load_city_profile files "shanghai" "cities" ≡ ok profile
unfolding load_city_profile
loads_profile = refl

abbrev provider : TransactionProvider ℤ
provider = recorded_provider rt is_file snapshots "deals.json"

builds_provider : build_transaction_provider rt is_file snapshots profile settings ≡ ok provider
unfolding build_transaction_provider
builds_provider = refl

build_transaction_provider_configured_example :
    (profile.city_code ≡ "shanghai")
    × (profile.providers.transactions ≡ some "lianjia")
    × ((path : String) × (settings.lianjia_transaction_snapshot_path ≡ some path)
        × (is_file path ≡ true)
        × (provider ≡ recorded_provider rt is_file snapshots path))
build_transaction_provider_configured_example =
    build_transaction_provider_configured rt is_file snapshots files "shanghai" "cities" profile
      settings provider loads_profile builds_provider
