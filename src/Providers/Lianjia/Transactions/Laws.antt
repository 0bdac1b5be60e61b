-- ===== src/Providers/Lianjia/Transactions/Laws.antt =====
-- What a transaction parser emits, row by row and for a batch.
use cn_property_agent.Prelude.{
  ℕ, suc, ◌+◌, ◌≡◌, refl, subst, ◌∙◌, String, true, none, some, List, [], ◌∷◌, arith, Bool-cases,
  Result-cases, All, length, inl, inr, ok,
}
use cn_property_agent.Floats.{Floats}
use cn_property_agent.Providers.Dto.{RawTransactionRecord}
use cn_property_agent.Providers.Parsing.{SourceRowRef, parsed, refused, ParseRejection}
use cn_property_agent.Providers.Accounting.{build_parse_result_count}
use cn_property_agent.Providers.Judged.{Judged, build-All, judge}
use cn_property_agent.Providers.Lianjia.Runtime.{Runtime}
use cn_property_agent.Providers.Lianjia.Numbers.{lianjia_source}
use cn_property_agent.Providers.Lianjia.Cells.{
  Row, Cells, cell, raw_text, or_else, normalize_row_keys,
}
use cn_property_agent.Providers.Lianjia.Transactions.{
  LianjiaParseContext, Fields, parser_version, source_id_field, aliases, valid_record, record_of,
  with_identity, from_cells, fields_of, ref_of, parse_transaction_row, outcomes_from,
  parse_transaction_rows, url_of, payload_of, map_option,
}

module _ {F : Type 0} ⦃fl : Floats F⦄ (rt : Runtime F) (context : LianjiaParseContext) where
  -- What the code promises of a record: it passes the model's constraints; and there is a row whose
  -- identity it carries, and whose link and payload it carries, or those of the batch.
  pub record IsFromBatch (r : RawTransactionRecord F) : Type 0 where
    pub valid : valid_record r ≡ true
    pub source : r.source ≡ rt.trim lianjia_source
    pub version : r.parser_version ≡ rt.trim parser_version
    pub collected_at : r.collected_at ≡ context.collected_at
    pub cells : Cells F
    pub identity :
        (id : String) × (cell rt aliases cells source_id_field ≡ ok (some id))
        × (r.source_transaction_id ≡ some (rt.trim id))
    pub url :
        r.source_url
        ≡ map_option rt.trim (or_else (raw_text rt aliases cells "source_url") context.source_url)
    pub payload :
        r.raw_payload_ref
        ≡ map_option rt.trim
            (or_else (raw_text rt aliases cells "raw_payload_ref") context.raw_payload_ref)

  of_fields :
      (id : String) (cells : Cells F) (f : Fields F)
      → cell rt aliases cells source_id_field ≡ ok (some id)
      → valid_record (record_of rt context id cells f) ≡ true
      → IsFromBatch (record_of rt context id cells f)
  unfolding record_of url_of payload_of
  of_fields id cells f stated v = record {
    valid = v;
    source = refl;
    version = refl;
    collected_at = refl;
    cells = cells;
    identity = (id, stated, refl);
    url = refl;
    payload = refl;
  }

  -- A rejection points at the row, of this source, that it is about.
  abbrev pub PointsAt : ℕ → ParseRejection → Type 0
  PointsAt i q = (q.row.row_index ≡ some i) × (q.row.source ≡ lianjia_source)

  identity_parsed :
      (ref : SourceRowRef) (cells : Cells F) (id : String) (r : RawTransactionRecord F)
      → cell rt aliases cells source_id_field ≡ ok (some id)
      → with_identity rt context ref cells id ≡ parsed r
      → IsFromBatch r
  unfolding with_identity
  identity_parsed ref cells id r stated h = elim (Result-cases (fields_of rt context cells)) [
    | inr (x, e) ↦ absurd (ground (arith, e, h))
    | inl (f, e) ↦
        let made = record_of rt context id cells f in
        elim (Bool-cases (valid_record made)) [
          | inl v ↦ subst IsFromBatch (ground (arith, e, v, h)) (of_fields id cells f stated v)
          | inr v ↦ absurd (ground (arith, e, v, h))
        ]
  ]

  identity_refused :
      (ref : SourceRowRef) (cells : Cells F) (id : String) (q : ParseRejection)
      → with_identity rt context ref cells id ≡ refused q
      → q.row ≡ ref
  unfolding with_identity
  identity_refused ref cells id q h = elim (Result-cases (fields_of rt context cells)) [
    | inr (x, e) ↦ ground (arith, e, h)
    | inl (f, e) ↦ elim (Bool-cases (valid_record (record_of rt context id cells f))) [
      | inl v ↦ absurd (ground (arith, e, v, h))
      | inr v ↦ ground (arith, e, v, h)
    ]
  ]

  cells_parsed :
      (i : ℕ) (cells : Cells F) (r : RawTransactionRecord F)
      → from_cells rt context i cells ≡ parsed r
      → IsFromBatch r
  unfolding from_cells
  cells_parsed i cells r h = elim (Result-cases (cell rt aliases cells source_id_field)) [
    | inr (x, e) ↦ absurd (ground (arith, e, h))
    | inl (none, e) ↦ absurd (ground (arith, e, h))
    | inl (some id, e) ↦
        identity_parsed (ref_of rt context i cells) cells id r e (ground (arith, e, h))
  ]

  cells_refused :
      (i : ℕ) (cells : Cells F) (q : ParseRejection)
      → from_cells rt context i cells ≡ refused q
      → q.row ≡ ref_of rt context i cells
  unfolding from_cells
  cells_refused i cells q h = elim (Result-cases (cell rt aliases cells source_id_field)) [
    | inr (x, e) ↦ ground (arith, e, h)
    | inl (none, e) ↦ ground (arith, e, h)
    | inl (some id, e) ↦
        identity_refused (ref_of rt context i cells) cells id q (ground (arith, e, h))
  ]

  row_parsed :
      (i : ℕ) (row : Row F) (o : RawTransactionRecord F)
      → parse_transaction_row rt context i row ≡ parsed o
      → IsFromBatch o
  unfolding parse_transaction_row
  row_parsed i none o h = absurd (ground (arith, h))
  row_parsed i (some row) o h = cells_parsed i (normalize_row_keys rt row) o h

  row_refused :
      (i : ℕ) (row : Row F) (q : ParseRejection)
      → parse_transaction_row rt context i row ≡ refused q
      → PointsAt i q
  unfolding parse_transaction_row ref_of
  row_refused i none q h = (ground (arith, h), ground (arith, h))
  row_refused i (some row) q h =
      let same = cells_refused i (normalize_row_keys rt row) q h in
      (ground (arith, same), ground (arith, same))

  outcomes_count :
      (i : ℕ) (rows : List (Row F)) → length (outcomes_from rt context i rows) ≡ length rows
  unfolding outcomes_from
  outcomes_count i [] = refl
  outcomes_count i (row ∷ rows) = ground (arith, outcomes_count (suc i) rows)

  pub parse_transaction_rows_count :
      (rows : List (Row F))
      → length (parse_transaction_rows rt context rows).records
          + length (parse_transaction_rows rt context rows).rejections
        ≡ length rows
  unfolding parse_transaction_rows
  parse_transaction_rows_count rows =
      build_parse_result_count (outcomes_from rt context 0 rows) ∙ outcomes_count 0 rows

  outcomes-Judged :
      (i : ℕ) (rows : List (Row F))
      → All
          (Judged IsFromBatch (λ q. q.row.source ≡ lianjia_source))
          (outcomes_from rt context i rows)
  unfolding outcomes_from
  outcomes-Judged i [] = tt
  outcomes-Judged i (row ∷ rows) = (
    judge IsFromBatch (λ q. q.row.source ≡ lianjia_source) (parse_transaction_row rt context i row)
        (row_parsed i row) (λ q h. (row_refused i row q h).1),
    outcomes-Judged (suc i) rows,
  )

  pub parse_transaction_rows-AllFromBatch :
      (rows : List (Row F)) → All IsFromBatch (parse_transaction_rows rt context rows).records
  unfolding parse_transaction_rows
  parse_transaction_rows-AllFromBatch rows =
      (build-All IsFromBatch (λ q. q.row.source ≡ lianjia_source) (outcomes_from rt context 0 rows)
        (outcomes-Judged 0 rows)).0
