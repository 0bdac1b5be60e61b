-- ===== src/Services/ListingIngestion/Recorded.antt =====
-- The recorded listing provider under the listing ingestion: the two composed never break a
-- contract, and never meet a constraint of the schema on the tables that they write themselves.
use cn_property_agent.Prelude.{
  ◌+◌, ◌≡◌, refl, ap, ◌∙◌, string_eq, true, false, some, List, [], ◌∷◌, arith, ok, ◌==◌,
  Option-cases, All, inl, inr, anyb, length,
}
use cn_property_agent.Floats.{Floats}
use cn_property_agent.Utils.{TextTools}
use cn_property_agent.Domain.Community.{Community}
use cn_property_agent.Domain.Listing.{Listing, ListingObservation, valid_observation, valid_listing}
use cn_property_agent.Providers.Lianjia.Runtime.{Runtime}
use cn_property_agent.Providers.Lianjia.Listings.{build_listing_id}
use cn_property_agent.Providers.Lianjia.Listings.Laws.{IsOneSighting, IsIdentifiable}
use cn_property_agent.Providers.Lianjia.Recorded.{
  LianjiaListingSnapshot, listing_context, fetch_current_listings,
}
use cn_property_agent.Providers.Lianjia.Recorded.Laws.{fetch_current_listings_delivers}
use cn_property_agent.Storage.Table.{upsert_all}
use cn_property_agent.Storage.Table.Laws.{All-upsert}
use cn_property_agent.Storage.Transactions.{fits_integer}
use cn_property_agent.Storage.Listings.{ListingStore, listing_key, merge_listing, clashes}
use cn_property_agent.Services.ListingIngestion.{
  ListingIngestionResult, Progress, no_progress, report, note, persist, is_stray, ingest,
}
use cn_property_agent.Services.ListingIngestion.Replay.{
  Fits, after, noted, written_returns, write, persist_ok,
}

module _ {F : Type 0} (tools : TextTools) where
  -- The identity is derived from the columns of the UNIQUE constraint.
  abbrev pub HasOwnId : Listing F → Type 0
  HasOwnId l = build_listing_id tools l.source l.source_listing_id ≡ ok l.listing_id

  abbrev pub Derived : ListingStore F → Type 0
  Derived store = All HasOwnId store.listings

  no_clash_own :
      (item : Listing F) (rows : List (Listing F))
      → HasOwnId item
      → All HasOwnId rows
      → anyb (clashes item) rows ≡ false
  no_clash_own item [] own h = refl
  no_clash_own item (x ∷ rows) own (here, more) = ground (
    arith,
    no_clash_own item rows own more,
    own,
    here,
    string_eq.decides x.source item.source,
    string_eq.decides x.source_listing_id item.source_listing_id,
    string_eq.decides x.listing_id item.listing_id,
  )

  abbrev pub Writable : ListingObservation F → Type 0
  Writable o = HasOwnId o.listing × Fits o

  persist_total :
      (os : List (ListingObservation F)) (p : Progress) (store : ListingStore F)
      → All Writable os
      → Derived store
      → (persist os p store ≡ (ok (noted os p), after os store)) × Derived (after os store)
  unfolding persist upsert_all
  persist_total [] p store _ d = (refl, d)
  persist_total (o ∷ os) p store ((own, fits), more) d =
      let e = written_returns o store fits (no_clash_own o.listing store.listings own d) in
      let d' =
        All-upsert listing_key merge_listing (λ a b. refl) HasOwnId (λ old new h. h) o.listing
          store.listings own d in
      let (done, kept) = persist_total os (note o p) (write o store) more d' in
      (persist_ok o os p store (write o store) e ∙ done, kept)

module _ {F : Type 0} ⦃fl : Floats F⦄ (rt : Runtime F) (s : LianjiaListingSnapshot F)
    (community : Community F) (same : (s.community_id == community.community_id) ≡ true) where
  sighting-Fits : (o : ListingObservation F) → valid_observation o ≡ true → Fits o
  unfolding valid_observation valid_listing fits_integer
  sighting-Fits o v = elim (Option-cases o.listing.built_year) [
    | inl e ↦ ground (arith, e)
    | inr (year, e) ↦ ground (arith, e, v)
  ]

  sighting-Writable :
      (o : ListingObservation F) → IsOneSighting rt (listing_context s) o → Writable rt.text o
  sighting-Writable o one = (
    ap (λ x. build_listing_id rt.text x o.listing.source_listing_id) one.source ∙ one.identity,
    sighting-Fits o one.valid,
  )

  sightings-Writable :
      (os : List (ListingObservation F))
      → All (IsOneSighting rt (listing_context s)) os
      → All (Writable rt.text) os
  sightings-Writable [] h = tt
  sightings-Writable (o ∷ os) (here, more) = (sighting-Writable o here, sightings-Writable os more)

  no_strays :
      (os : List (ListingObservation F))
      → All (IsOneSighting rt (listing_context s)) os
      → anyb (is_stray community) os ≡ false
  no_strays [] h = refl
  no_strays (o ∷ os) (here, more) = ground (arith, no_strays os more, here.community, same)

  -- A recorded listing snapshot that can be loaded, that was recorded for the requested community,
  -- and from whose every stated source id `build_listing_id` derives an id, is ingested without an
  -- exception into tables in which every listing's id is the one that `build_listing_id` derives
  -- from its source and source id: the report accounts for as many rows as the snapshot has, and
  -- the tables stay of that kind.
  pub ingest_recorded_total :
      (store : ListingStore F)
      → Derived rt.text store
      → All (IsIdentifiable rt (listing_context s)) s.rows
      → (result : ListingIngestionResult) × (store' : ListingStore F) × (ingest
            (fetch_current_listings rt (some s))
            community
            store
          ≡ (ok result, store'))
        × (result.source_row_count ≡ length s.rows)
        × (result.parsed_count + length result.parse_rejections ≡ length s.rows)
        × Derived rt.text store'
  unfolding ingest report
  ingest_recorded_total store d hashed =
      let (f, e, counted, rows, good) =
        fetch_current_listings_delivers rt s community same hashed in
      let (done, d') =
        persist_total rt.text f.parsed no_progress store (sightings-Writable f.parsed good) d in
      (
        report community f (noted f.parsed no_progress),
        after f.parsed store,
        ground (arith, e, done, no_strays f.parsed good),
        rows,
        counted,
        d',
      )
