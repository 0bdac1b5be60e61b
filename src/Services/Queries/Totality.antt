-- ===== src/Services/Queries/Totality.antt =====
-- The reads do not raise on what the repositories hold.
use mathlib.Core.List.Permᴰ
use cn_property_agent.Prelude.{
  ℕ, ◌-◌, ◌/◌, ◌%◌, ◌≡◌, ◌≤◌, ◌<◌, refl, ap, String, string_eq, Bool, true, false, none, some, List,
  [], ◌∷◌, map, arith, ok, All, anyb, filterb, filter_map, length, ltb, nat_beq, Bool-cases,
  Option-cases, Result-cases, inl, inr, ==_refl,
}
use cn_property_agent.Prelude.Int.{ℤ, pos}
use cn_property_agent.Prelude.Sorting.{sorted, sorted-perm, length-sorted, All-perm}
use cn_property_agent.Floats.{Floats, FloatOrder}
use cn_property_agent.Domain.Listing.{Listing, ListingSnapshot}
use cn_property_agent.Domain.Transaction.{Transaction}
use cn_property_agent.Storage.Table.{find}
use cn_property_agent.Storage.Table.Laws.{key-find}
use cn_property_agent.Storage.Table.Reading.{All-filterb}
use cn_property_agent.Storage.Transactions.{
  fits_integer, storable, selects, newest_first, list_for_community,
}
use cn_property_agent.Storage.Transactions.Laws.{Storable}
use cn_property_agent.Storage.Listings.{
  ListingStore, latest_snapshots_for_community, list_for_community as listings_of,
}
use cn_property_agent.Analytics.Common.{
  minimum_sample_count, int_arg, MedianMetric, middle, median, median_metric, validate_community_id,
  validate_minimum_sample_count,
}
use cn_property_agent.Analytics.Common.Median.{get_elem?_total}
use cn_property_agent.Analytics.Transactions.{
  CommunityTransactionMetrics, is_foreign, floats_of, compute_community_transaction_metrics,
}
use cn_property_agent.Analytics.Transactions.Invariance.{IsValid, discount_of, discounts_of_valid}
use cn_property_agent.Services.Queries.{
  TransactionQuery, valid_transaction_query, CurrentListing, valid_current_listing,
  get_transactions, by_identity, current_listings, get_current_listings, get_transaction_metrics,
}

module _ {A : Type 0} (test : A → Bool) where
  anyb_none : (xs : List A) → All (λ x. test x ≡ false) xs → anyb test xs ≡ false
  anyb_none [] h = refl
  anyb_none (x ∷ xs) h = ground (arith, h.0, anyb_none xs h.1)

  All_of_filterb : (xs : List A) → All (λ x. test x ≡ true) (filterb test xs)
  All_of_filterb [] = tt
  All_of_filterb (x ∷ xs) = elim (Bool-cases (test x)) [
    | inl here ↦ rw here (here, All_of_filterb xs)
    | inr gone ↦ rw gone (All_of_filterb xs)
  ]

-- `float` of a number of 32 bits does not overflow.
abbrev pub ConvertsIntegers : {F : Type 0} → Floats F → Type 0
ConvertsIntegers {F} fl = (n : ℤ) → fits_integer n ≡ true → (x : F) × (fl.of_int n ≡ some x)

module _ {F : Type 0} ⦃fl : Floats F⦄ where
  middle_total : (xs : List F) → 0 < length xs → (m : F) × (middle xs ≡ some m)
  unfolding middle
  middle_total [] h = absurd (omega (arith, h))
  middle_total (x ∷ xs) h =
      let xs' = x ∷ xs in
      let (a, ea) = get_elem?_total xs' (length xs' / 2) (omega (arith)) in
      let (b, eb) = get_elem?_total xs' (length xs' / 2 - 1) (omega (arith)) in
      elim (Bool-cases (nat_beq (length xs' % 2) 1)) [
        | inl odd ↦ (a, ground (arith, odd, ea))
        | inr even ↦ (fl.div (fl.add b a) fl.two_f, ground (arith, even, ea, eb))
      ]

  -- A median over a minimum of one value or more is defined.
  median_metric_total :
      (values : List F) (minimum : ℕ)
      → 1 ≤ minimum
      → (m : MedianMetric F) × (median_metric values minimum ≡ ok m)
  unfolding median_metric median
  median_metric_total values minimum h = elim (Bool-cases (ltb (length values) minimum)) [
    | inl few ↦ (record { value = none; usable_count = length values }, rw few)
    | inr enough ↦
        let (m, e) =
          middle_total (sorted fl.lt values)
            (ground (arith, length-sorted fl.lt values, h, enough)) in
        (record { value = some m; usable_count = length values }, rw (enough, e))
  ]

  floats_of_total :
      ConvertsIntegers fl
      → (ds : List ℤ) → All (λ d. fits_integer d ≡ true) ds
      → (xs : List F) × (floats_of ds ≡ ok xs)
  unfolding floats_of
  floats_of_total c [] h = ([], refl)
  floats_of_total c (d ∷ ds) h =
      let (x, e) = c d h.0 in let (xs, f) = floats_of_total c ds h.1 in (x ∷ xs, rw (e, f))

  days_fit :
      (rows : List (Transaction F))
      → All Storable rows
      → All (λ d. fits_integer d ≡ true) (filter_map (λ t. t.days_on_market) rows)
  unfolding storable
  days_fit [] h = tt
  days_fit (t ∷ rows) h = elim (Option-cases t.days_on_market) [
    | inl absent ↦ rw absent (days_fit rows h.1)
    | inr (d, e) ↦ rw e (ground (arith, h.0, e), days_fit rows h.1)
  ]

  -- Over records of the community, and days that fit, the metrics are defined.
  metrics_total :
      FloatOrder fl
      → ConvertsIntegers fl
      → (sample : List (Transaction F)) (community_id : String) (minimum : ℕ) → 1 ≤ minimum
      → validate_community_id community_id ≡ ok community_id
      → All Storable sample
      → All IsValid sample
      → All (λ t. is_foreign community_id t ≡ false) sample
      → (m : CommunityTransactionMetrics F) × (compute_community_transaction_metrics sample
            community_id
            (int_arg (pos minimum))
          ≡ ok m)
  unfolding compute_community_transaction_metrics validate_minimum_sample_count
  metrics_total order c sample community_id minimum h valid stored good own =
      let (a, ea) =
        median_metric_total (map (λ (t : Transaction F). t.unit_price_cny_sqm) sample) minimum h in
      let (b, eb) =
        median_metric_total (map (λ (t : Transaction F). t.deal_price_cny) sample) minimum h in
      let (ds, ed) =
        floats_of_total c (filter_map (λ (t : Transaction F). t.days_on_market) sample)
          (days_fit sample stored) in
      let (d, em) = median_metric_total ds minimum h in
      let (n, en) = median_metric_total (filter_map discount_of sample) minimum h in
      let discounted = discounts_of_valid order sample good in
      let none_foreign = anyb_none (is_foreign community_id) sample own in
      let positive : ltb minimum 1 ≡ false = ground (arith, h) in
      elim (Result-cases
        (compute_community_transaction_metrics sample community_id (int_arg (pos minimum)))) [
          | inl found ↦ found
          | inr (x, e) ↦
              absurd
                (ground (arith, e, positive, valid, none_foreign, ea, eb, ed, em, discounted, en))
        ]

  -- What a read selects belongs to the community.
  selected_own :
      (q : TransactionQuery) (rows : List (Transaction F))
      → All (λ t. is_foreign q.community_id t ≡ false) (get_transactions q rows)
  unfolding get_transactions list_for_community selects
  selected_own q rows =
      All-perm (λ t. is_foreign q.community_id t ≡ false)
        (Permᴰ.symm (sorted-perm newest_first (filterb test rows)))
        (own (filterb test rows) (All_of_filterb test rows))
    where
      test : Transaction F → Bool
      test = selects q.community_id q.start_date q.end_date

      own :
          (ts : List (Transaction F))
          → All (λ t. test t ≡ true) ts
          → All (λ t. is_foreign q.community_id t ≡ false) ts
      own [] h = tt
      own (t ∷ ts) h = (ground (arith, h.0), own ts h.1)

  selected-All :
      (P : Transaction F → Type 0) (q : TransactionQuery) (rows : List (Transaction F))
      → All P rows
      → All P (get_transactions q rows)
  unfolding get_transactions list_for_community
  selected-All P q rows h =
      let test = selects q.community_id q.start_date q.end_date in
      All-perm P (Permᴰ.symm (sorted-perm newest_first (filterb test rows)))
        (All-filterb test P rows h)

  -- For floats with the order of IEEE numbers: when the query is valid, the rows of the table are
  -- valid and fit their columns, and `float` converts every integer of 32 bits,
  -- `get_transaction_metrics` returns metrics: it does not raise, nor divide by zero.
  pub get_transaction_metrics_total :
      (q : TransactionQuery) (rows : List (Transaction F))
      → FloatOrder fl
      → ConvertsIntegers fl
      → valid_transaction_query q ≡ true
      → All Storable rows
      → All IsValid rows
      → (m : CommunityTransactionMetrics F) × (get_transaction_metrics q rows ≡ ok m)
  unfolding get_transaction_metrics valid_transaction_query validate_community_id
  get_transaction_metrics_total q rows order c valid stored good =
      let (m, e) =
        metrics_total order c (get_transactions q rows) q.community_id minimum_sample_count
          (omega arith) (ground (arith, valid)) (selected-All Storable q rows stored)
          (selected-All IsValid q rows good) (selected_own q rows) in
      (m, ground (arith, valid, e))

module _ {F : Type 0} where
  current_listings_total :
      (latest : List (ListingSnapshot F)) (ls : List (Listing F))
      → (cs : List (CurrentListing F)) × (current_listings latest ls ≡ ok cs)
        × (map (λ c. c.listing) cs ≡ ls)
  unfolding current_listings valid_current_listing
  current_listings_total latest [] = ([], refl, refl)
  current_listings_total latest (l ∷ ls) =
      let (cs, e, same) = current_listings_total latest ls in
      let newest = find (λ (s : ListingSnapshot F). s.listing_id) l.listing_id latest in
      elim (Option-cases newest) [
        | inl absent ↦ (
          record { listing = l; latest_snapshot = newest } ∷ cs,
          ground (arith, e, absent),
          ap (λ rest. l ∷ rest) same,
        )
        | inr (s, found) ↦ (
          record { listing = l; latest_snapshot = newest } ∷ cs,
          ground (
            arith,
            e,
            found,
            key-find (λ (s : ListingSnapshot F). s.listing_id) l.listing_id latest found,
            ==_refl l.listing_id,
          ),
          ap (λ rest. l ∷ rest) same,
        )
      ]

  -- `get_current_listings` returns for any tables, and names the listings of the community in the
  -- order of `list_for_community`.
  pub get_current_listings_total :
      (community_id : String) (store : ListingStore F)
      → (cs : List (CurrentListing F)) × (get_current_listings community_id store ≡ ok cs)
        × (map (λ c. c.listing) cs ≡ listings_of community_id store.listings)
  unfolding get_current_listings
  get_current_listings_total community_id store =
      current_listings_total (by_identity (latest_snapshots_for_community community_id store))
        (listings_of community_id store.listings)
