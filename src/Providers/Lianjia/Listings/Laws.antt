-- ===== src/Providers/Lianjia/Listings/Laws.antt =====
-- What a listing parser emits, row by row and for a batch.
use mathlib.Core.Path.{subst₂}
use cn_property_agent.Prelude.{
  ℕ, suc, ◌+◌, ◌≡◌, refl, sym, subst, ap, ◌∙◌, String, true, Option, none, some, List, [], ◌∷◌,
  arith, Result, ok, err, Option-cases, Result-cases, Bool-cases, All, length, inl, inr,
}
use cn_property_agent.Floats.{Floats}
use cn_property_agent.Domain.Common.{Raised}
use cn_property_agent.Domain.Listing.{ListingObservation, valid_observation}
use cn_property_agent.Providers.Parsing.{
  SourceRowRef, RowOutcome, parsed, refused, ParseRejection, ParseResult, FieldParseError,
  build_parse_result, missing_source_identity,
}
use cn_property_agent.Providers.Accounting.{build_parse_result_count}
use cn_property_agent.Providers.Judged.{Judged, build-All, weaken}
use cn_property_agent.Providers.Lianjia.Runtime.{Runtime}
use cn_property_agent.Providers.Lianjia.Numbers.{lianjia_source}
use cn_property_agent.Providers.Lianjia.Cells.{Row, Cells, cell, normalize_row_keys}
use cn_property_agent.Providers.Lianjia.Transactions.{reject}
use cn_property_agent.Providers.Lianjia.Listings.{
  LianjiaListingParseContext, ListingFields, build_listing_id, identified, priced,
  listing_from_cells, listing_fields_of, observation_of, parse_listing_row, listing_outcomes_from,
  parse_listing_rows, listing_aliases, listing_id_field, listing_ref_of,
}

module _ {F : Type 0} ⦃fl : Floats F⦄ (rt : Runtime F) (context : LianjiaListingParseContext) where
  -- The source identity that a row states.
  abbrev pub stated_id : Row F → Result FieldParseError (Option String)
  stated_id none = ok none
  stated_id (some row) = cell rt listing_aliases (normalize_row_keys rt row) listing_id_field

  -- What the code promises of an observation.
  pub record IsOneSighting (o : ListingObservation F) : Type 0 where
    pub valid : valid_observation o ≡ true
    pub community : o.listing.community_id ≡ context.community_id
    pub source : o.listing.source ≡ lianjia_source
    pub identity :
        build_listing_id rt.text lianjia_source o.listing.source_listing_id
        ≡ ok o.listing.listing_id
    pub first_seen : o.listing.first_seen_at ≡ o.snapshot.snapshot_at
    pub last_seen : o.listing.last_seen_at ≡ o.snapshot.snapshot_at
    pub status : o.snapshot.status ≡ o.listing.status

  of_fields :
      (listing_id id : String) (price : F) (cells : Cells F) (f : ListingFields F)
      → build_listing_id rt.text lianjia_source id ≡ ok listing_id
      → valid_observation (observation_of rt context listing_id id price cells f) ≡ true
      → IsOneSighting (observation_of rt context listing_id id price cells f)
  unfolding observation_of
  of_fields listing_id id price cells f derived v = record {
    valid = v;
    community = refl;
    source = refl;
    identity = derived;
    first_seen = refl;
    last_seen = refl;
    status = refl;
  }

  -- A rejection points at the row, of this source, that it is about.
  abbrev pub PointsAt : ℕ → ParseRejection → Type 0
  PointsAt i q = (q.row.row_index ≡ some i) × (q.row.source ≡ lianjia_source)

  -- The exception of `build_listing_id` at the identity that the row states.
  abbrev pub HasNoDigest : Result FieldParseError (Option String) → Raised → Type 0
  HasNoDigest stated e =
      (id : String) × (stated ≡ ok (some id)) × (build_listing_id rt.text lianjia_source id ≡ err e)

  -- What a row may come to.
  abbrev pub RowJudged : ℕ → Row F → Result Raised (RowOutcome (ListingObservation F)) → Type 0
  RowJudged i row (ok outcome) = Judged IsOneSighting (PointsAt i) outcome
  RowJudged i row (err e) = HasNoDigest (stated_id row) e

  abbrev CellsJudged :
      SourceRowRef
      → Result FieldParseError (Option String)
      → Result Raised (RowOutcome (ListingObservation F))
      → Type 0
  CellsJudged ref stated (ok outcome) = Judged IsOneSighting (λ q. q.row ≡ ref) outcome
  CellsJudged ref stated (err e) = HasNoDigest stated e

  identified-Judged :
      (ref : SourceRowRef) (cells : Cells F) (id : String) (price : F) (f : ListingFields F)
      → CellsJudged ref (ok (some id)) (identified rt context ref cells id price f)
  unfolding identified
  identified-Judged ref cells id price f =
      elim (Result-cases (build_listing_id rt.text lianjia_source id)) [
        | inr (x, e) ↦ rw e (id, refl, e)
        | inl (listing_id, e) ↦
            let seen = observation_of rt context listing_id id price cells f in
            elim (Bool-cases (valid_observation seen)) [
              | inl v ↦ rw e (rw v (of_fields listing_id id price cells f e v))
              | inr v ↦ rw e (rw v refl)
            ]
      ]

  priced-Judged :
      (ref : SourceRowRef) (cells : Cells F) (id : String) (f : ListingFields F)
      → CellsJudged ref (ok (some id)) (priced rt context ref cells id f)
  unfolding priced
  priced-Judged ref cells id f = elim (Option-cases f.list_price_cny) [
    | inl e ↦ rw e refl
    | inr (price, e) ↦ rw e (identified-Judged ref cells id price f)
  ]

  at_equal :
      (ref : SourceRowRef) {stated : Result FieldParseError (Option String)}
      {outcome : Result Raised (RowOutcome (ListingObservation F))}
      (stated' : Result FieldParseError (Option String))
      (outcome' : Result Raised (RowOutcome (ListingObservation F)))
      → stated ≡ stated'
      → outcome ≡ outcome'
      → CellsJudged ref stated' outcome'
      → CellsJudged ref stated outcome
  at_equal ref stated' outcome' e e' h = subst₂ (λ x y. CellsJudged ref x y) (sym e) (sym e') h

  cells-Judged :
      (i : ℕ) (cells : Cells F)
      → CellsJudged
          (listing_ref_of rt context i cells)
          (cell rt listing_aliases cells listing_id_field)
          (listing_from_cells rt context i cells)
  unfolding listing_from_cells
  cells-Judged i cells =
      let ref = listing_ref_of rt context i cells in
      elim (Result-cases (cell rt listing_aliases cells listing_id_field)) [
        | inr (x, e) ↦
            at_equal ref (err x) (ok (reject ref x.reason (some listing_id_field))) e
              (ground (arith, e)) refl
        | inl (none, e) ↦
            at_equal ref (ok none) (ok (reject ref missing_source_identity (some listing_id_field)))
              e (ground (arith, e)) refl
        | inl (some id, e) ↦ elim (Result-cases (listing_fields_of rt context cells)) [
          | inr (x, e') ↦
              at_equal ref (ok (some id)) (ok (reject ref x.reason x.field)) e
                (ground (arith, e, e')) refl
          | inl (f, e') ↦
              at_equal ref (ok (some id)) (priced rt context ref cells id f) e
                (ground (arith, e, e')) (priced-Judged ref cells id f)
        ]
      ]

  at_row :
      (i : ℕ) (cells : Cells F) (row : Row F)
      (outcome : Result Raised (RowOutcome (ListingObservation F)))
      → CellsJudged (listing_ref_of rt context i cells) (stated_id row) outcome
      → RowJudged i row outcome
  unfolding listing_ref_of
  at_row i cells row (err e) h = h
  at_row i cells row (ok (parsed o)) h = h
  at_row i cells row (ok (refused q)) h = (ground (arith, h), ground (arith, h))

  -- A listing row comes to an observation that is valid, of the context's community and of this
  -- source, under the id of its source identity, seen first and last at its snapshot; or to a
  -- rejection that points at that row of this source; or to the exception that `build_listing_id`
  -- raises on the source id that the row states.
  pub parse_listing_row-Judged :
      (i : ℕ) (row : Row F) → RowJudged i row (parse_listing_row rt context i row)
  unfolding parse_listing_row
  parse_listing_row-Judged i none = (refl, refl)
  parse_listing_row-Judged i (some row) =
      let cells = normalize_row_keys rt row in
      at_row i cells (some row) (listing_from_cells rt context i cells) (cells-Judged i cells)

  abbrev HasDigest : Result FieldParseError (Option String) → Type 0
  HasDigest (ok (some id)) =
      (listing_id : String) × (build_listing_id rt.text lianjia_source id ≡ ok listing_id)
  HasDigest _ = Unit

  -- The identity that the row states, if it states one, can be encoded and hashed.
  abbrev pub IsIdentifiable : Row F → Type 0
  IsIdentifiable row = HasDigest (stated_id row)

  digest_conflict :
      (stated : Result FieldParseError (Option String)) (e : Raised)
      → HasDigest stated
      → HasNoDigest stated e
      → ⊥
  digest_conflict stated e has (id, states, fails) =
      let (listing_id, found) = subst HasDigest states has in absurd (ground (arith, found, fails))

  row_returns :
      (i : ℕ) (row : Row F)
      → IsIdentifiable row
      → (outcome : RowOutcome (ListingObservation F)) × (parse_listing_row rt context i row
          ≡ ok outcome)
        × Judged IsOneSighting (PointsAt i) outcome
  row_returns i row has = elim (Result-cases (parse_listing_row rt context i row)) [
    | inl (outcome, e) ↦ (outcome, e, subst (RowJudged i row) e (parse_listing_row-Judged i row))
    | inr (x, e) ↦ absurd (
        digest_conflict (stated_id row) x has
          (subst (RowJudged i row) e (parse_listing_row-Judged i row)))
  ]

  outcomes_return :
      (i : ℕ) (rows : List (Row F))
      → All IsIdentifiable rows
      → (outcomes : List (RowOutcome (ListingObservation F))) × (listing_outcomes_from rt context i
            rows
          ≡ ok outcomes)
        × (length outcomes ≡ length rows)
        × All (Judged IsOneSighting (λ q. q.row.source ≡ lianjia_source)) outcomes
  unfolding listing_outcomes_from
  outcomes_return i [] h = ([], refl, refl, tt)
  outcomes_return i (row ∷ rows) (here, more) =
      let (outcome, e, good) = row_returns i row here in
      let (outcomes, es, count, goods) = outcomes_return (suc i) rows more in
      (
        outcome ∷ outcomes,
        ground (arith, e, es),
        ap suc count,
        (
          weaken IsOneSighting (PointsAt i) (λ q. q.row.source ≡ lianjia_source) (λ q h. h.1)
              outcome good,
          goods,
        ),
      )

  -- A batch whose stated identities can all be hashed is split into as many sightings and
  -- rejections as it has rows.
  pub parse_listing_rows_return :
      (rows : List (Row F))
      → All IsIdentifiable rows
      → (result : ParseResult (ListingObservation F)) × (parse_listing_rows rt context rows
          ≡ ok result)
        × (length result.records + length result.rejections ≡ length rows)
        × All IsOneSighting result.records
  unfolding parse_listing_rows
  parse_listing_rows_return rows h =
      let (outcomes, e, count, goods) = outcomes_return 0 rows h in
      (
        build_parse_result outcomes,
        ground (arith, e),
        build_parse_result_count outcomes ∙ count,
        (build-All IsOneSighting (λ q. q.row.source ≡ lianjia_source) outcomes goods).0,
      )
