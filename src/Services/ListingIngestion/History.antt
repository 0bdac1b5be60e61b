-- ===== src/Services/ListingIngestion/History.antt =====
-- What one ingestion of listings reports, and that it takes nothing from the history.
use cn_property_agent.Prelude.{
  ◌+◌, ◌≡◌, ◌≤◌, ◌⊎◌, refl, sym, String, string_eq, nat_eq, pair_eq, true, false, some, List, [],
  ◌∷◌, map, arith, ok, err, Distinct, add_all, add_all-Distinct, contains-add_all, inl, inr, anyb,
  contains, length, ==_refl, Option-cases, Bool-cases, ◌==◌, subst, All,
}
use cn_property_agent.Domain.Common.{Instant, Raised, constraint_error}
use cn_property_agent.Domain.Community.{Community}
use cn_property_agent.Domain.Listing.{Listing, ListingObservation}
use cn_property_agent.Providers.Fetch.{FetchResult}
use cn_property_agent.Storage.Table.{find, keys, upsert, upsert_all, overwrite}
use cn_property_agent.Storage.Table.Laws.{find-upsert}
use cn_property_agent.Storage.Table.Replay.{contains-upsert_all}
use cn_property_agent.Storage.Listings.{ListingStore, listing_key, snapshot_key, merge_listing}
use cn_property_agent.Storage.Listings.Laws.{snapshot-IsBand}
use cn_property_agent.Services.ListingIngestion.{
  ListingProvider, ListingIngestionResult, Progress, no_progress, note, is_stray, ingest,
}
use cn_property_agent.Services.ListingIngestion.Replay.{listing_of, after, noted, persist-Persisted}

module _ {F : Type 0} where
  noted_count :
      (os : List (ListingObservation F)) (p : Progress)
      → (noted os p).persisted_count ≡ p.persisted_count + length os
  unfolding note
  noted_count [] p = omega arith
  noted_count (o ∷ os) p = ground (arith, noted_count os (note o p))

  noted_ids :
      (os : List (ListingObservation F)) (p : Progress)
      → (noted os p).listing_ids ≡ add_all (keys listing_key (map listing_of os)) p.listing_ids
  unfolding note
  noted_ids [] p = refl
  noted_ids (o ∷ os) p = noted_ids os (note o p)

  -- The row that is there afterwards was seen for at least as long.
  abbrev pub Wider : Listing F → Listing F → Type 0
  Wider old new = (new.first_seen_at ≤ old.first_seen_at) × (old.last_seen_at ≤ new.last_seen_at)

  Wider-merge : (old new : Listing F) → Wider old (merge_listing old new)
  Wider-merge old new = (ground arith, ground arith)

  upsert-Wider :
      (k : String) (item : Listing F) (rows : List (Listing F)) (old : Listing F)
      → find listing_key k rows ≡ some old
      → (new : Listing F) × (find listing_key k (upsert listing_key merge_listing item rows)
          ≡ some new)
        × Wider old new
  upsert-Wider k item rows old h = elim (Bool-cases (item.listing_id == k)) [
    | inl same ↦ (
      merge_listing old item,
      ground (arith, find-upsert listing_key merge_listing (λ a b. refl) k item rows, h, same),
      Wider-merge old item,
    )
    | inr other ↦ (
      old,
      ground (arith, find-upsert listing_key merge_listing (λ a b. refl) k item rows, h, other),
      (omega arith, omega arith),
    )
  ]

  upsert_all-Wider :
      (k : String) (items rows : List (Listing F)) (old : Listing F)
      → find listing_key k rows ≡ some old
      → (new : Listing F) × (find listing_key k (upsert_all listing_key merge_listing items rows)
          ≡ some new)
        × Wider old new
  unfolding upsert_all
  upsert_all-Wider k [] rows old h = (old, h, (omega arith, omega arith))
  upsert_all-Wider k (item ∷ items) rows old h =
      let (mid, found, wide) = upsert-Wider k item rows old h in
      let (new, found', wide') =
        upsert_all-Wider k items (upsert listing_key merge_listing item rows) mid found in
      (new, found', (omega (arith, wide.0, wide'.0), omega (arith, wide.1, wide'.1)))

  own-Wider :
      (item : Listing F) (rows : List (Listing F))
      → (new : Listing F) × (find listing_key item.listing_id
            (upsert listing_key merge_listing item rows)
          ≡ some new)
        × Wider item new
  own-Wider item rows = elim (Option-cases (find listing_key item.listing_id rows)) [
    | inl absent ↦ (
      item,
      ground (
        arith,
        find-upsert listing_key merge_listing (λ a b. refl) item.listing_id item rows,
        absent,
        ==_refl item.listing_id,
      ),
      (omega arith, omega arith),
    )
    | inr (old, e) ↦ (
      merge_listing old item,
      ground (
        arith,
        find-upsert listing_key merge_listing (λ a b. refl) item.listing_id item rows,
        e,
        ==_refl item.listing_id,
      ),
      (ground arith, ground arith),
    )
  ]

  -- Each row of a batch is in the table, seen for at least as long.
  batch-Wider :
      (items rows : List (Listing F))
      → All
          (λ item.
            (new : Listing F) × (find listing_key item.listing_id
                (upsert_all listing_key merge_listing items rows)
              ≡ some new)
            × Wider item new)
          items
  unfolding upsert_all
  batch-Wider [] rows = tt
  batch-Wider (item ∷ items) rows =
      let rows' = upsert listing_key merge_listing item rows in
      let (mid, found, wide) = own-Wider item rows in
      let (new, found', wide') = upsert_all-Wider item.listing_id items rows' mid found in
      (
        (new, found', (omega (arith, wide.0, wide'.0), omega (arith, wide.1, wide'.1))),
        batch-Wider items rows',
      )

  -- What the identities and the history of `new` have kept of those of `old`.
  pub record KeepsHistory (old new : ListingStore F) : Type 0 where
    pub identities :
        (k : String) (row : Listing F)
        → find listing_key k old.listings ≡ some row
        → (row' : Listing F) × (find listing_key k new.listings ≡ some row') × Wider row row'
    pub instants :
        (k : String × Instant)
        → contains k (keys snapshot_key old.snapshots) ≡ true
        → contains k (keys snapshot_key new.snapshots) ≡ true

  -- Each observation of a batch has its row of the history and its identity.
  pub record Records (os : List (ListingObservation F)) (new : ListingStore F) : Type 0 where
    pub seen :
        All
          (λ item.
            (row : Listing F) × (find listing_key item.listing_id new.listings ≡ some row)
            × Wider item row)
          (map listing_of os)
    pub observed :
        (k : String × Instant)
        → contains k (keys snapshot_key (map (λ o. o.snapshot) os)) ≡ true
        → contains k (keys snapshot_key new.snapshots) ≡ true

  after-KeepsHistory :
      (os : List (ListingObservation F)) (store : ListingStore F)
      → KeepsHistory store (after os store)
  after-KeepsHistory os store = record {
    identities = λ k row h. upsert_all-Wider k (map listing_of os) store.listings row h;
    instants = λ k m. ground (
      arith,
      m,
      contains-upsert_all snapshot_key overwrite snapshot-IsBand k (map (λ o. o.snapshot) os)
          store.snapshots,
    );
  }

  after-Records :
      (os : List (ListingObservation F)) (store : ListingStore F) → Records os (after os store)
  after-Records os store = record {
    seen = batch-Wider (map listing_of os) store.listings;
    observed = λ k m. ground (
      arith,
      m,
      contains-upsert_all snapshot_key overwrite snapshot-IsBand k (map (λ o. o.snapshot) os)
          store.snapshots,
    );
  }

  module _ (provider : ListingProvider F) (community : Community F)
      (fetched : FetchResult (ListingObservation F)) (e : provider community ≡ some fetched)
      (store store' : ListingStore F) where
    ingest_returns :
        (result : ListingIngestionResult)
        → ingest provider community store ≡ (ok result, store')
        → store' ≡ after fetched.parsed store
    unfolding ingest
    ingest_returns result h =
        ground (arith, e, h, persist-Persisted fetched.parsed no_progress store)

    -- When the provider delivers a fetch and `ingest` of listings returns, every stored identity
    -- still has its row, with a seen range that contains the old one; every stored (listing_id,
    -- snapshot_at) is still there; and each observation of the fetch has its row in the history,
    -- and an identity whose seen range contains the observed one.
    pub ingest_listings-KeepsHistory :
        (result : ListingIngestionResult)
        → ingest provider community store ≡ (ok result, store')
        → KeepsHistory store store' × Records fetched.parsed store'
    ingest_listings-KeepsHistory result h =
        let same = ingest_returns result h in
        (
          subst (KeepsHistory store) (sym same) (after-KeepsHistory fetched.parsed store),
          subst (Records fetched.parsed) (sym same) (after-Records fetched.parsed store),
        )

    -- When the provider delivers a fetch and `ingest` of listings raises, the tables are as they
    -- were, or the exception is a constraint of the schema and every observation belongs to the
    -- requested community.
    pub ingest_listings_raises :
        (x : Raised)
        → ingest provider community store ≡ (err x, store')
        → (store' ≡ store)
          ⊎ ((x ≡ constraint_error) × (anyb (is_stray community) fetched.parsed ≡ false))
    unfolding ingest
    ingest_listings_raises x h =
        ground (arith, e, h, persist-Persisted fetched.parsed no_progress store)

    -- When the provider delivers a fetch and `ingest` of listings returns, as many observations
    -- were persisted as were parsed, every one belongs to the requested community, and the report
    -- names each identity of the fetch, once, and no other.
    pub ingest_listings_accounting :
        (result : ListingIngestionResult)
        → ingest provider community store ≡ (ok result, store')
        → (result.persisted_observation_count ≡ result.parsed_count)
          × (anyb (is_stray community) fetched.parsed ≡ false)
          × Distinct result.listing_ids
          × ((k : String)
              → contains k result.listing_ids
                ≡ contains k (keys listing_key (map listing_of fetched.parsed)))
    unfolding ingest
    ingest_listings_accounting result h = (
      ground (
        arith,
        e,
        h,
        persist-Persisted fetched.parsed no_progress store,
        noted_count fetched.parsed no_progress,
      ),
      ground (arith, e, h),
      ground (
        arith,
        e,
        h,
        persist-Persisted fetched.parsed no_progress store,
        noted_ids fetched.parsed no_progress,
        add_all-Distinct (keys listing_key (map listing_of fetched.parsed)) [] tt,
      ),
      λ k. ground (
        arith,
        e,
        h,
        persist-Persisted fetched.parsed no_progress store,
        noted_ids fetched.parsed no_progress,
        contains-add_all k (keys listing_key (map listing_of fetched.parsed)) [],
      ),
    )
