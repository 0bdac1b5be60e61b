-- ===== src/Config/Composition.antt =====
-- config/composition.py and provider_settings.py: the transaction provider that a profile names. What
-- the file system says of a path, and what a snapshot file holds, are arguments.
use cn_property_agent.Prelude.{
  ◌≡◌, ap, sym, subst, ◌∙◌, ==_sound, ok-injective, String, string_eq, Bool, true, not, Option,
  none, some, Result, ok, err, ◌==◌, arith, Bool-cases, Option-cases, Result-cases, inl, inr,
  if◌then◌else◌,
}
use Prim.Native.String.{◌++◌}
use cn_property_agent.Floats.{Floats}
use cn_property_agent.Providers.Lianjia.Runtime.{Runtime}
use cn_property_agent.Providers.Lianjia.Numbers.{lianjia_source}
use cn_property_agent.Providers.Lianjia.Recorded.{LianjiaTransactionSnapshot, fetch_transactions}
use cn_property_agent.Services.TransactionIngestion.{TransactionProvider}
use cn_property_agent.Config.Profile.{
  ConfigurationError, provider_configuration_error, CityProfile, load_city_profile,
  load_city_profile_file, mapping_of, profile_of,
}

pub record ProviderSettings : Type 0 where
  pub lianjia_transaction_snapshot_path : Option String

-- A profile that was loaded for a city declares it.
loaded_city :
    (read_text : String → Option String) (city_code directory : String) (profile : CityProfile)
    → load_city_profile read_text city_code directory ≡ ok profile
    → profile.city_code ≡ city_code
unfolding load_city_profile load_city_profile_file
loaded_city read_text city_code directory profile h =
    let path = directory ++ ("/" ++ (city_code ++ ".yaml")) in
    elim (Option-cases (read_text path)) [
      | inl e ↦ absurd (ground (arith, e, h))
      | inr (text, e) ↦ elim (Result-cases (mapping_of text)) [
        | inr (x, e') ↦ absurd (ground (arith, e, e', h))
        | inl (payload, e') ↦ elim (Result-cases (profile_of payload)) [
          | inr (x, e'') ↦ absurd (ground (arith, e, e', e'', h))
          | inl (found, e'') ↦ elim (Bool-cases (found.city_code == city_code)) [
            | inr other ↦ absurd (ground (arith, e, e', e'', other, h))
            | inl same ↦
                subst (λ p. p.city_code ≡ city_code) {x = found} {y = profile}
                  (ok-injective {E = ConfigurationError} (ground (arith, e, e', e'', same, h)))
                  (==_sound found.city_code city_code same)
          ]
        ]
      ]
    ]

module _ {F : Type 0} ⦃fl : Floats F⦄ (rt : Runtime F) (is_file : String → Bool)
    (load : String → Option (LianjiaTransactionSnapshot F)) where
  -- `RecordedLianjiaTransactionProvider(snapshot_path)`: the file is read on every call.
  abbrev pub recorded_provider : String → TransactionProvider F
  recorded_provider path community start_date end_date =
      fetch_transactions rt (load path) community start_date end_date

  unfoldable pub build_recorded_lianjia_transactions :
      CityProfile → ProviderSettings → Result ConfigurationError (TransactionProvider F)
  build_recorded_lianjia_transactions profile settings =
      elim (settings.lianjia_transaction_snapshot_path) [
        | none ↦ err provider_configuration_error
        | some path ↦
            if not (is_file path)
            then err provider_configuration_error
            else ok (recorded_provider path)
      ]

  -- `_TRANSACTION_PROVIDER_BUILDERS`
  abbrev pub builder_of :
      String
      → Option (CityProfile → ProviderSettings → Result ConfigurationError (TransactionProvider F))
  builder_of name =
      if name == lianjia_source then some build_recorded_lianjia_transactions else none

  unfoldable pub build_transaction_provider :
      CityProfile → ProviderSettings → Result ConfigurationError (TransactionProvider F)
  unfolding build_recorded_lianjia_transactions
  build_transaction_provider profile settings = elim (profile.providers.transactions) [
    | none ↦ err provider_configuration_error
    | some name ↦ elim (builder_of name) [
      | none ↦ err provider_configuration_error
      | some builder ↦ builder profile settings
    ]
  ]

  built_from :
      (profile : CityProfile) (settings : ProviderSettings) (provider : TransactionProvider F)
      → build_transaction_provider profile settings ≡ ok provider
      → (profile.providers.transactions ≡ some lianjia_source)
        × ((path : String) × (settings.lianjia_transaction_snapshot_path ≡ some path)
            × (is_file path ≡ true)
            × (provider ≡ recorded_provider path))
  unfolding build_transaction_provider build_recorded_lianjia_transactions
  built_from profile settings provider h = elim (Option-cases profile.providers.transactions) [
    | inl e ↦ absurd (ground (arith, e, h))
    | inr (name, e) ↦ elim (Bool-cases (name == lianjia_source)) [
      | inr other ↦ absurd (ground (arith, e, other, h))
      | inl same ↦ elim (Option-cases settings.lianjia_transaction_snapshot_path) [
        | inl e' ↦ absurd (ground (arith, e, same, e', h))
        | inr (path, e') ↦ elim (Bool-cases (is_file path)) [
          | inr missing ↦ absurd (ground (arith, e, same, e', missing, h))
          | inl there ↦ (
            e ∙ ap some (==_sound name lianjia_source same),
            (
              path,
              e',
              there,
              sym (ok-injective {E = ConfigurationError} (ground (arith, e, same, e', there, h))),
            ),
          )
        ]
      ]
    ]
  ]

  -- When the profile of a city is loaded and a transaction provider is built from it, the profile
  -- declares that very city and names the recorded source, the settings give a path to an existing
  -- file, and the provider replays what that file holds.
  pub build_transaction_provider_configured :
      (read_text : String → Option String) (city_code directory : String) (profile : CityProfile)
      (settings : ProviderSettings) (provider : TransactionProvider F)
      → load_city_profile read_text city_code directory ≡ ok profile
      → build_transaction_provider profile settings ≡ ok provider
      → (profile.city_code ≡ city_code)
        × (profile.providers.transactions ≡ some lianjia_source)
        × ((path : String) × (settings.lianjia_transaction_snapshot_path ≡ some path)
            × (is_file path ≡ true)
            × (provider ≡ recorded_provider path))
  unfolding build_transaction_provider
  build_transaction_provider_configured read_text city_code directory profile settings provider
        loaded built =
      let (named, path) = built_from profile settings provider built in
      (loaded_city read_text city_code directory profile loaded, named, path)
