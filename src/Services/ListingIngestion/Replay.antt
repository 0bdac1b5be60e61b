-- ===== src/Services/ListingIngestion/Replay.antt =====
-- What the loop of `ingest` writes, and that repeating it changes nothing.
use mathlib.Core.Path.{ap₂}
use cn_property_agent.Prelude.{
  subst, ◌≡◌, refl, sym, ap, ◌∙◌, String, string_eq, nat_eq, pair_eq, true, false, some, List, [],
  ◌∷◌, map, arith, Result, ok, err, Distinct, inl, inr, All, anyb, Result-cases,
}
use cn_property_agent.Domain.Common.{Raised, constraint_error, optional}
use cn_property_agent.Domain.Community.{Community}
use cn_property_agent.Domain.Listing.{Listing, ListingObservation}
use cn_property_agent.Providers.Fetch.{FetchResult}
use cn_property_agent.Storage.Table.{keys, upsert, upsert_all, overwrite}
use cn_property_agent.Storage.Table.Replay.{
  Holds, Holds-same_keys, Holds-upsert_all, keys-upsert_old, upsert_all_idem,
}
use cn_property_agent.Storage.Transactions.{fits_integer}
use cn_property_agent.Storage.Listings.{
  ListingStore, listing_key, snapshot_key, merge_listing, clashes, writable, upsert_listing,
  append_snapshot,
}
use cn_property_agent.Storage.Listings.Laws.{
  listing-IsBand, snapshot-IsBand, Identified, Unique, no_clash, Free-of_no_clash,
  Identified-upsert, Unique-upsert,
}
use cn_property_agent.Services.ListingIngestion.{
  ListingProvider, ListingIngestionResult, Progress, no_progress, note, written, persist, ingest,
}

module _ {F : Type 0} where
  abbrev pub listing_of : ListingObservation F → Listing F
  listing_of o = o.listing

  -- The tables with every observation written.
  abbrev pub after : List (ListingObservation F) → ListingStore F → ListingStore F
  after os store = record {
    listings = upsert_all listing_key merge_listing (map listing_of os) store.listings;
    snapshots = upsert_all snapshot_key overwrite (map (λ o. o.snapshot) os) store.snapshots;
  }

  abbrev pub noted : List (ListingObservation F) → Progress → Progress
  noted [] p = p
  noted (o ∷ os) p = noted os (note o p)

  abbrev pub Fits : ListingObservation F → Type 0
  Fits o = optional fits_integer o.listing.built_year ≡ true

  abbrev pub write : ListingObservation F → ListingStore F → ListingStore F
  write o store = record {
    listings = upsert listing_key merge_listing o.listing store.listings;
    snapshots = upsert snapshot_key overwrite o.snapshot store.snapshots;
  }

  pub written_returns :
      (o : ListingObservation F) (store : ListingStore F)
      → Fits o
      → anyb (clashes o.listing) store.listings ≡ false
      → written o store ≡ ok (write o store)
  unfolding upsert_listing writable append_snapshot
  written_returns o store f c = ground (arith, f, c)

  written_inverse :
      (o : ListingObservation F) (store store' : ListingStore F)
      → written o store ≡ ok store'
      → Fits o × (anyb (clashes o.listing) store.listings ≡ false) × (store' ≡ write o store)
  unfolding upsert_listing writable append_snapshot
  written_inverse o store store' h = ground (arith, h)

  written_raises :
      (o : ListingObservation F) (store : ListingStore F) (e : Raised)
      → written o store ≡ err e
      → e ≡ constraint_error
  unfolding upsert_listing writable
  written_raises o store e h = ground (arith, h)

  pub persist_ok :
      (o : ListingObservation F) (os : List (ListingObservation F)) (p : Progress)
      (store store' : ListingStore F)
      → written o store ≡ ok store'
      → persist (o ∷ os) p store ≡ persist os (note o p) store'
  unfolding persist
  persist_ok o os p store store' e = rw (e, persist)

  persist_err :
      (o : ListingObservation F) (os : List (ListingObservation F)) (p : Progress)
      (store : ListingStore F) (x : Raised)
      → written o store ≡ err x
      → persist (o ∷ os) p store ≡ (err x, store)
  unfolding persist
  persist_err o os p store x e = rw (e, persist)

  -- The loop raises on a constraint alone, and otherwise writes every observation.
  abbrev pub Persisted :
      List (ListingObservation F)
      → Progress
      → ListingStore F
      → Result Raised Progress × ListingStore F
      → Type 0
  Persisted os p store (ok p', store') = (p' ≡ noted os p) × (store' ≡ after os store)
  Persisted os p store (err e, store') = e ≡ constraint_error

  pub persist-Persisted :
      (os : List (ListingObservation F)) (p : Progress) (store : ListingStore F)
      → Persisted os p store (persist os p store)
  unfolding persist upsert_all
  persist-Persisted [] p store = (refl, refl)
  persist-Persisted (o ∷ os) p store = elim (Result-cases (written o store)) [
    | inl (store', e) ↦
        let (_, _, same) = written_inverse o store store' e in
        subst (Persisted (o ∷ os) p store)
          (sym (persist_ok o os p store (write o store) (e ∙ ap ok same)))
          (persist-Persisted os (note o p) (write o store))
    | inr (x, e) ↦
        subst (Persisted (o ∷ os) p store) (sym (persist_err o os p store x e))
          (written_raises o store x e)
  ]

  module _ (name : String → String × String) where
    abbrev pub IdentifiedAll : List (ListingObservation F) → Type 0
    IdentifiedAll os = All (λ o. Identified name o.listing) os

    -- The rows of the identities stand for what `name` says, each pair in one row.
    abbrev pub Consistent : ListingStore F → Type 0
    Consistent store = All (Identified name) store.listings × Unique name store.listings

    write-Consistent :
        (o : ListingObservation F) (store : ListingStore F)
        → Identified name o.listing
        → anyb (clashes o.listing) store.listings ≡ false
        → Consistent store
        → Consistent (write o store)
    write-Consistent o store i c h = (
      Identified-upsert name o.listing store.listings i h.0,
      Unique-upsert name o.listing store.listings
          (Free-of_no_clash name o.listing store.listings i h.0 c) h.1,
    )

    -- A loop that returns has met rows that fit, and keeps the tables consistent.
    abbrev Kept :
        List (ListingObservation F)
        → ListingStore F
        → Result Raised Progress × ListingStore F
        → Type 0
    Kept os store (ok p', store') = All Fits os × Consistent (after os store)
    Kept os store (err e, store') = Unit

    Kept-cons :
        (o : ListingObservation F) (os : List (ListingObservation F)) (store : ListingStore F)
        (r : Result Raised Progress × ListingStore F)
        → Fits o
        → Kept os (write o store) r
        → Kept (o ∷ os) store r
    unfolding upsert_all
    Kept-cons o os store (ok p, store') f k = ((f, k.0), k.1)
    Kept-cons o os store (err e, store') f k = tt

    persist-Kept :
        (os : List (ListingObservation F)) (p : Progress) (store : ListingStore F)
        → IdentifiedAll os
        → Consistent store
        → Kept os store (persist os p store)
    unfolding persist upsert_all
    persist-Kept [] p store i h = (tt, h)
    persist-Kept (o ∷ os) p store i h = elim (Result-cases (written o store)) [
      | inl (store', e) ↦
          let (fits, free, same) = written_inverse o store store' e in
          subst (Kept (o ∷ os) store)
            (sym (persist_ok o os p store (write o store) (e ∙ ap ok same)))
            (Kept-cons o os store (persist os (note o p) (write o store)) fits (
              persist-Kept os (note o p) (write o store) i.1 (write-Consistent o store i.0 free h)))
      | inr (x, e) ↦ subst (Kept (o ∷ os) store) (sym (persist_err o os p store x e)) tt
    ]

    -- Where every identity of the batch has its row, the loop returns, with every observation written.
    persist_again :
        (os : List (ListingObservation F)) (p : Progress) (store : ListingStore F)
        → All Fits os
        → IdentifiedAll os
        → Consistent store
        → Holds listing_key merge_listing listing-IsBand (map listing_of os) store.listings
        → persist os p store ≡ (ok (noted os p), after os store)
    unfolding persist upsert_all
    persist_again [] p store f i h there = refl
    persist_again (o ∷ os) p store f i h there =
        persist_ok o os p store (write o store) (written_returns o store f.0 free)
        ∙ persist_again os (note o p) (write o store) f.1 i.1 (write-Consistent o store i.0 free h)
            (Holds-same_keys listing_key merge_listing listing-IsBand (map listing_of os)
              store.listings _
              (sym (
                keys-upsert_old listing_key merge_listing listing-IsBand o.listing store.listings
                  there.0))
              there.1)
      where
        free : anyb (clashes o.listing) store.listings ≡ false
        free = no_clash name o.listing store.listings i.0 h.0 (h.1 o.listing.listing_id there.0)

    after_idem :
        (os : List (ListingObservation F)) (store : ListingStore F)
        → Distinct (keys listing_key store.listings)
        → Distinct (keys snapshot_key store.snapshots)
        → after os (after os store) ≡ after os store
    after_idem os store d d' =
        ap₂ (λ l s. record { listings = l; snapshots = s })
          (upsert_all_idem listing_key merge_listing listing-IsBand (map listing_of os)
            store.listings d)
          (upsert_all_idem snapshot_key overwrite snapshot-IsBand (map (λ o. o.snapshot) os)
            store.snapshots d')

    -- The loop over a batch, on the tables that it left.
    persist_replay :
        (os : List (ListingObservation F)) (store : ListingStore F)
        → All Fits os
        → IdentifiedAll os
        → Consistent (after os store)
        → Distinct (keys listing_key store.listings)
        → Distinct (keys snapshot_key store.snapshots)
        → persist os no_progress (after os store) ≡ (ok (noted os no_progress), after os store)
    persist_replay os store f i h d d' =
        persist_again os no_progress (after os store) f i h (
          Holds-upsert_all listing_key merge_listing listing-IsBand (map listing_of os)
            (map listing_of os) store.listings (λ k m. m))
        ∙ ap (λ s. (ok (noted os no_progress), s)) (after_idem os store d d')

    module _ (provider : ListingProvider F) (community : Community F)
        (fetched : FetchResult (ListingObservation F)) (e : provider community ≡ some fetched) where
      -- For a fetch and tables in which each identity stands for one pair of source columns,
      -- tables in which no two identities share a pair, and unique primary keys: when `ingest` of
      -- listings returns, the tables have the same consistency, and ingesting the same fetch again
      -- returns the same report and leaves the tables as they are.
      pub ingest_listings_replay :
          (store store' : ListingStore F) (result : ListingIngestionResult)
          → IdentifiedAll fetched.parsed
          → Consistent store
          → Distinct (keys listing_key store.listings)
          → Distinct (keys snapshot_key store.snapshots)
          → ingest provider community store ≡ (ok result, store')
          → (ingest provider community store' ≡ (ok result, store')) × Consistent store'
      unfolding ingest
      ingest_listings_replay store store' result i c d d' h =
          let k = persist-Kept fetched.parsed no_progress store i c in
          ground (
            arith,
            e,
            h,
            persist-Persisted fetched.parsed no_progress store,
            k,
            persist_replay fetched.parsed store,
          )
