-- ===== src/Analytics/Listings.antt =====
-- analytics/listing_metrics.py. The dict of dicts in which the code collects the histories is the
-- list of its observations, each (listing_id, snapshot_at) once.
pub mod Counts
use cn_property_agent.Prelude.{
  ℕ, suc, ◌+◌, ◌-◌, String, string_eq, nat_eq, pair_eq, Bool, true, false, not, Option, none, some,
  List, [], ◌∷◌, ◌++◌, map, Result, ok, err, ◌>>=◌, ◌>>◌, ◌==◌, ◌&&◌, ◌||◌, length, anyb, filterb,
  filter_map, raise_if, contains, ltb, nat_beq, if◌then◌else◌,
}
use cn_property_agent.Prelude.Sorting.{sorted}
use cn_property_agent.Prelude.Text.{str_ltb}
use cn_property_agent.Floats.{Floats}
use cn_property_agent.Domain.Common.{
  Instant, ListingStatus, active, sold, withdrawn, off_market, unknown, Raised, value_error,
  validation_error,
}
use cn_property_agent.Domain.Listing.{Listing, ListingSnapshot}
use cn_property_agent.Storage.Table.{find}
use cn_property_agent.Storage.Listings.{listing_key, snapshot_key}
use cn_property_agent.Analytics.Common.{
  MedianMetric, maximum, sorted_set, CountArg, validate_minimum_sample_count, validate_community_id,
  median_metric,
}
use cn_property_agent.Analytics.Common.Median.{countb}

pub record ListingStatusCount : Type 0 where
  pub status : ListingStatus
  pub count : ℕ

pub record CommunityListingMetrics (F : Type 0) : Type 0 where
  pub community_id : String
  pub minimum_sample_count : ℕ
  pub listing_count : ℕ
  pub snapshot_count : ℕ
  pub observed_listing_count : ℕ
  pub identity_only_listing_count : ℕ
  pub latest_snapshot_at : Option Instant
  pub current_status_counts : List ListingStatusCount
  pub active_listing_count : ℕ
  pub median_active_list_price_cny : MedianMetric F
  pub median_active_unit_price_cny_sqm : MedianMetric F
  pub repricing_observable_count : ℕ
  pub price_cut_count : ℕ
  pub price_increase_count : ℕ
  pub unchanged_price_count : ℕ
  pub price_cut_share : Option F
  pub median_price_change_ratio : MedianMetric F
  pub listing_ids : List String
  pub latest_snapshot_sources : List String

-- Two statuses are the same member of the enum.
unfoldable pub same_status : ListingStatus → ListingStatus → Bool
same_status active active = true
same_status sold sold = true
same_status withdrawn withdrawn = true
same_status off_market off_market = true
same_status unknown unknown = true
same_status _ _ = false

-- A difference of counts goes into a field with `ge=0`.
unfoldable pub count_difference : ℕ → ℕ → Result Raised ℕ
count_difference a b = if ltb a b then err validation_error else ok (a - b)

abbrev pub total : List ℕ → ℕ
total [] = 0
total (n ∷ ns) = n + total ns

-- Some key stands twice.
abbrev pub has_repeat : List String → Bool
has_repeat [] = false
has_repeat (k ∷ ks) = contains k ks || has_repeat ks

abbrev pub last_of : {A : Type 0} → List A → Option A
last_of [] = none
last_of (x ∷ []) = some x
last_of (x ∷ y ∷ ys) = last_of (y ∷ ys)

-- `==` on optional values
same_option : {A : Type 0} → (A → A → Bool) → Option A → Option A → Bool
same_option same none none = true
same_option same (some a) (some b) = same a b
same_option same _ _ = false

-- The local variables of `_group_snapshots`.
pub record Grouping (F : Type 0) : Type 0 where
  pub observations : List (ListingSnapshot F)
  pub has_unknown : Bool
  pub has_conflict : Bool

module _ {F : Type 0} where
  abbrev pub empty_grouping : Grouping F
  empty_grouping = record { observations = []; has_unknown = false; has_conflict = false }

  -- `_index_listings`, of whose dict only the keys are read.
  unfoldable pub index_listings : List (Listing F) → String → Result Raised (List String)
  index_listings listings community_id = do
    raise_if (anyb (λ l. not (l.community_id == community_id)) listings) value_error
    raise_if (has_repeat (map listing_key listings)) value_error
    ok (map listing_key listings)

  abbrev pub earlier : ListingSnapshot F → ListingSnapshot F → Bool
  earlier a b = ltb a.snapshot_at b.snapshot_at

  abbrev pub of_listing : String → ListingSnapshot F → Bool
  of_listing id s = s.listing_id == id

  -- The histories, by identity and by instant.
  unfoldable pub histories : List (ListingSnapshot F) → List (List (ListingSnapshot F))
  histories observations =
      map (λ id. sorted earlier (filterb (of_listing id) observations))
        (sorted_set (map (λ s. s.listing_id) observations))

  abbrev pub in_status : ListingStatus → ListingSnapshot F → Bool
  in_status status s = same_status s.status status

  abbrev pub tally : ListingStatus → List (ListingSnapshot F) → ListingStatusCount
  tally status latest = record { status = status; count = countb (in_status status) latest }

  -- `_status_counts`, in the order of the enum
  unfoldable pub status_counts : List (ListingSnapshot F) → List ListingStatusCount
  status_counts latest =
      filterb (λ c. ltb 0 c.count)
        (tally active latest
          ∷ tally sold latest
          ∷ tally withdrawn latest
          ∷ tally off_market latest
          ∷ tally unknown latest
          ∷ [])

module _ {F : Type 0} ⦃fl : Floats F⦄ where
  same_float : F → F → Bool
  same_float a b = fl.le a b && fl.le b a

  -- `==` on snapshots: field by field
  unfoldable pub same_snapshot : ListingSnapshot F → ListingSnapshot F → Bool
  unfolding same_float same_option
  same_snapshot a b =
      a.listing_id == b.listing_id
      && (a.snapshot_at == b.snapshot_at
          && (same_float a.list_price_cny b.list_price_cny
              && (same_option same_float a.unit_price_cny_sqm b.unit_price_cny_sqm
                  && (same_status a.status b.status
                      && (a.source == b.source
                          && (same_option string_eq.equal a.source_url b.source_url
                              && (same_option string_eq.equal a.raw_payload_ref b.raw_payload_ref
                                  && a.parser_version == b.parser_version)))))))

  -- The loop of `_group_snapshots`.
  unfoldable pub take_snapshot : List String → ListingSnapshot F → Grouping F → Grouping F
  unfolding same_snapshot
  take_snapshot identities s g =
      if contains s.listing_id identities
      then elim (find snapshot_key (snapshot_key s) g.observations) [
        | none ↦ record g { observations = g.observations ++ (s ∷ []) }
        | some first ↦ record g { has_conflict = g.has_conflict || not (same_snapshot first s) }
      ]
      else record g { has_unknown = true }

  unfoldable pub take_snapshots : List String → List (ListingSnapshot F) → Grouping F → Grouping F
  unfolding take_snapshot
  take_snapshots identities [] g = g
  take_snapshots identities (s ∷ ss) g = take_snapshots identities ss (take_snapshot identities s g)

  unfoldable pub group_snapshots :
      List (ListingSnapshot F) → List String → Result Raised (List (List (ListingSnapshot F)))
  unfolding take_snapshots histories
  group_snapshots snapshots identities =
      let g = take_snapshots identities snapshots empty_grouping in
      do
        raise_if g.has_unknown value_error
        raise_if g.has_conflict value_error
        ok (histories g.observations)

  -- `_price_change_ratio` of a history that was observed twice or more
  unfoldable pub price_change_ratio : List (ListingSnapshot F) → Option F
  price_change_ratio [] = none
  price_change_ratio (s ∷ []) = none
  price_change_ratio (s ∷ t ∷ ts) = elim (last_of (t ∷ ts)) [
    | none ↦ none
    | some u ↦ some (fl.div (fl.sub u.list_price_cny s.list_price_cny) s.list_price_cny)
  ]

  abbrev pub cut_share : ℕ → ℕ → Option F
  cut_share cuts changes = if ltb 0 changes then some (fl.ratio cuts changes) else none

  -- The metrics of the histories of the identities.
  unfoldable pub summarize :
      String
      → ℕ
      → List String
      → List (List (ListingSnapshot F))
      → Result Raised (CommunityListingMetrics F)
  unfolding price_change_ratio status_counts count_difference
  summarize community_id minimum identities history =
      let latest = filter_map last_of history in
      let current = filterb (in_status active) latest in
      let changes = filter_map price_change_ratio history in
      let cuts = countb (λ r. fl.lt r fl.zero_f) changes in
      let increases = countb (λ r. fl.lt fl.zero_f r) changes in
      do
        identity_only ← count_difference (length identities) (length history)
        prices ← median_metric (map (λ s. s.list_price_cny) current) minimum
        unit_prices ← median_metric (filter_map (λ s. s.unit_price_cny_sqm) current) minimum
        unchanged ← count_difference (length changes) (cuts + increases)
        ratios ← median_metric changes minimum
        ok (record {
          community_id = community_id;
          minimum_sample_count = minimum;
          listing_count = length identities;
          snapshot_count = total (map length history);
          observed_listing_count = length history;
          identity_only_listing_count = identity_only;
          latest_snapshot_at = maximum (map (λ s. s.snapshot_at) latest);
          current_status_counts = status_counts latest;
          active_listing_count = length current;
          median_active_list_price_cny = prices;
          median_active_unit_price_cny_sqm = unit_prices;
          repricing_observable_count = length changes;
          price_cut_count = cuts;
          price_increase_count = increases;
          unchanged_price_count = unchanged;
          price_cut_share = cut_share cuts (length changes);
          median_price_change_ratio = ratios;
          listing_ids = sorted str_ltb identities;
          latest_snapshot_sources = sorted_set (map (λ s. s.source) latest);
        })

  unfoldable pub compute_community_listing_metrics :
      List (Listing F)
      → List (ListingSnapshot F)
      → String
      → CountArg
      → Result Raised (CommunityListingMetrics F)
  unfolding index_listings group_snapshots summarize
  compute_community_listing_metrics listings snapshots community_id count = do
    minimum ← validate_minimum_sample_count count
    validate_community_id community_id
    identities ← index_listings listings community_id
    history ← group_snapshots snapshots identities
    summarize community_id minimum identities history
