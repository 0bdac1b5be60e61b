-- ===== src/Analytics/Listings/Counts.antt =====
-- The counts of the listing metrics add up.
use cn_property_agent.Prelude.{
  ℕ, suc, subst, ◌+◌, ◌≡◌, ◌<◌, refl, ap, ◌∙◌, String, string_eq, nat_eq, pair_eq, Bool, true, some,
  List, [], ◌∷◌, map, arith, ok, ◌==◌, length, filterb, filter_map, contains, ltb, All,
  if◌then◌else◌, inl, inr, Result-cases, Bool-cases, ==_refl,
}
use mathlib.Core.List.Permᴰ
use cn_property_agent.Prelude.Sorting.{sorted, sorted-perm, length-sorted, All-perm}
use cn_property_agent.Prelude.Text.{str_ltb}
use cn_property_agent.Floats.{Floats}
use cn_property_agent.Domain.Common.{ListingStatus, active, sold, withdrawn, off_market, unknown}
use cn_property_agent.Domain.Listing.{Listing, ListingSnapshot}
use cn_property_agent.Analytics.Common.{CountArg, dedupe, sorted_set, validate_minimum_sample_count}
use cn_property_agent.Analytics.Common.Median.{countb}
use cn_property_agent.Analytics.Listings.{
  ListingStatusCount, CommunityListingMetrics, same_status, count_difference, total, last_of,
  index_listings, take_snapshots, empty_grouping, group_snapshots, earlier, of_listing, histories,
  in_status, tally, status_counts, summarize, compute_community_listing_metrics,
}

one_if : Bool → ℕ
one_if b = if b then 1 else 0

-- A status is one of the five.
status_once :
    (s : ListingStatus)
    → one_if (same_status s active)
        + one_if (same_status s sold)
        + one_if (same_status s withdrawn)
        + one_if (same_status s off_market)
        + one_if (same_status s unknown)
      ≡ 1
unfolding same_status one_if
status_once active = refl
status_once sold = refl
status_once withdrawn = refl
status_once off_market = refl
status_once unknown = refl

total_positive :
    (cs : List ListingStatusCount)
    → total (map (λ c. c.count) (filterb (λ c. ltb 0 c.count) cs)) ≡ total (map (λ c. c.count) cs)
total_positive [] = refl
total_positive (c ∷ cs) = ground (arith, total_positive cs)

count_difference_sum : (a b c : ℕ) → count_difference a b ≡ ok c → a ≡ b + c
unfolding count_difference
count_difference_sum a b c h = ground (arith, h)

module _ {A : Type 0} where
  last_of-some : (xs : List A) → 0 < length xs → (x : A) × (last_of xs ≡ some x)
  last_of-some [] h = absurd (omega (arith, h))
  last_of-some (x ∷ []) h = (x, refl)
  last_of-some (x ∷ y ∷ ys) h = last_of-some (y ∷ ys) (omega arith)

  length-last_of :
      (xss : List (List A))
      → All (λ xs. 0 < length xs) xss
      → length (filter_map last_of xss) ≡ length xss
  length-last_of [] h = refl
  length-last_of (xs ∷ xss) h =
      let (x, e) = last_of-some xs h.0 in rw e (ap suc (length-last_of xss h.1))

All-dedupe : (P : String → Type 0) (xs : List String) → All P xs → All P (dedupe xs)
unfolding dedupe
All-dedupe P [] h = tt
All-dedupe P (x ∷ []) h = h
All-dedupe P (x ∷ y ∷ ys) h = elim (Bool-cases (x == y)) [
  | inl same ↦ rw same (All-dedupe P (y ∷ ys) h.1)
  | inr other ↦ rw other (h.0, All-dedupe P (y ∷ ys) h.1)
]

All-sorted_set : (P : String → Type 0) (xs : List String) → All P xs → All P (sorted_set xs)
unfolding sorted_set
All-sorted_set P xs h =
    All-dedupe P (sorted str_ltb xs) (All-perm P (Permᴰ.symm (sorted-perm str_ltb xs)) h)

contains_more :
    (x : String) (xs ys : List String)
    → All (λ k. contains k xs ≡ true) ys
    → All (λ k. contains k (x ∷ xs) ≡ true) ys
contains_more x xs [] h = tt
contains_more x xs (y ∷ ys) h = (ground (arith, h.0), contains_more x xs ys h.1)

contains_self : (xs : List String) → All (λ k. contains k xs ≡ true) xs
contains_self [] = tt
contains_self (x ∷ xs) = (ground (arith, ==_refl x), contains_more x xs xs (contains_self xs))

module _ {F : Type 0} where
  -- Every listing is in one status by its latest observation.
  tallies :
      (latest : List (ListingSnapshot F))
      → countb (in_status active) latest
          + countb (in_status sold) latest
          + countb (in_status withdrawn) latest
          + countb (in_status off_market) latest
          + countb (in_status unknown) latest
        ≡ length latest
  unfolding countb one_if
  tallies [] = refl
  tallies (s ∷ latest) = omega (arith, tallies latest, status_once s.status)

  total-status_counts :
      (latest : List (ListingSnapshot F))
      → total (map (λ c. c.count) (status_counts latest)) ≡ length latest
  unfolding status_counts
  total-status_counts latest =
      total_positive (
        tally active latest
        ∷ tally sold latest
        ∷ tally withdrawn latest
        ∷ tally off_market latest
        ∷ tally unknown latest
        ∷ [])
      ∙ omega (arith, tallies latest)

  observed_once :
      (id : String) (observations : List (ListingSnapshot F))
      → contains id (map (λ s. s.listing_id) observations) ≡ true
      → 0 < length (filterb (of_listing id) observations)
  observed_once id [] h = cc
  observed_once id (s ∷ observations) h = ground (arith, observed_once id observations, h)

  histories-Nonempty :
      (observations : List (ListingSnapshot F)) (ids : List String)
      → All (λ k. contains k (map (λ s. s.listing_id) observations) ≡ true) ids
      → All
          (λ xs. 0 < length xs)
          (map (λ id. sorted earlier (filterb (of_listing id) observations)) ids)
  histories-Nonempty observations [] h = tt
  histories-Nonempty observations (id ∷ ids) h = (
    omega (
      arith,
      observed_once id observations h.0,
      length-sorted earlier (filterb (of_listing id) observations),
    ),
    histories-Nonempty observations ids h.1,
  )

module _ {F : Type 0} ⦃fl : Floats F⦄ where
  -- Each history that is grouped has an observation.
  grouped-Nonempty :
      (snapshots : List (ListingSnapshot F)) (identities : List String)
      (history : List (List (ListingSnapshot F)))
      → group_snapshots snapshots identities ≡ ok history
      → All (λ xs. 0 < length xs) history
  unfolding group_snapshots histories
  grouped-Nonempty snapshots identities history h =
      let observations = (take_snapshots identities snapshots empty_grouping).observations in
      let ids = map (λ (s : ListingSnapshot F). s.listing_id) observations in
      subst (All (λ xs. 0 < length xs)) (ground (arith, h)) (
        histories-Nonempty observations (sorted_set ids)
          (All-sorted_set (λ k. contains k ids ≡ true) ids (contains_self ids)))

  -- The parts of the metrics are the wholes.
  abbrev pub AddsUp : CommunityListingMetrics F → Type 0
  AddsUp m =
      (m.listing_count ≡ m.observed_listing_count + m.identity_only_listing_count)
      × (m.repricing_observable_count
          ≡ m.price_cut_count + m.price_increase_count + m.unchanged_price_count)
      × (total (map (λ c. c.count) m.current_status_counts) ≡ m.observed_listing_count)

  summarize-AddsUp :
      (community_id : String) (minimum : ℕ) (identities : List String)
      (history : List (List (ListingSnapshot F))) (m : CommunityListingMetrics F)
      → All (λ xs. 0 < length xs) history
      → summarize community_id minimum identities history ≡ ok m
      → AddsUp m
  unfolding summarize count_difference
  summarize-AddsUp community_id minimum identities history m h e =
      ground (arith, e, length-last_of history h, total-status_counts (filter_map last_of history))

  -- When the listing metrics are computed, the listings are the observed and the identity-only
  -- ones together, the repricing-observable ones are the cuts, the increases and the unchanged
  -- ones together, and the counts by status sum to the observed listings.
  pub compute_community_listing_metrics-AddsUp :
      (listings : List (Listing F)) (snapshots : List (ListingSnapshot F)) (community_id : String)
      (count : CountArg) (m : CommunityListingMetrics F)
      → compute_community_listing_metrics listings snapshots community_id count ≡ ok m
      → AddsUp m
  unfolding compute_community_listing_metrics
  compute_community_listing_metrics-AddsUp listings snapshots community_id count m h =
      elim (Result-cases (index_listings listings community_id)) [
        | inl (identities, e) ↦ elim (Result-cases (group_snapshots snapshots identities)) [
          | inl (history, f) ↦ elim (Result-cases (validate_minimum_sample_count count)) [
            | inl (minimum, g) ↦
                summarize-AddsUp community_id minimum identities history m
                  (grouped-Nonempty snapshots identities history f) (ground (arith, h, e, f, g))
            | inr (x, g) ↦ absurd (ground (arith, h, g))
          ]
          | inr (x, f) ↦ absurd (ground (arith, h, e, f))
        ]
        | inr (x, e) ↦ absurd (ground (arith, h, e))
      ]
