-- ===== src/Services/Normalization/Soundness.antt =====
-- What holds of every transaction that `normalize_transaction` lets through.
use cn_property_agent.Prelude.{◌+◌, ◌≡◌, ◌≤◌, string_eq, true, false, Option, none, some, arith, ok}
use cn_property_agent.Floats.{Floats}
use cn_property_agent.Utils.{TextTools}
use cn_property_agent.Domain.Common.{Date, utc_date}
use cn_property_agent.Domain.Community.{Community}
use cn_property_agent.Domain.Transaction.{Transaction, valid_transaction}
use cn_property_agent.Providers.Dto.{RawTransactionRecord}
use cn_property_agent.Services.Normalization.Gates.{
  NormalizedTransaction, normalized, ToleranceArg, in_future, before, after,
  validate_unit_price_tolerance, required_positive, nonpositive_when_present, deviation,
  checked_unit_price,
}
use cn_property_agent.Services.Normalization.Chain.{
  source_identity, date_gates, measure_gates, candidate, normalize_transaction,
}

-- `d` lies in the requested window, and no more than a day after the record was collected.
abbrev pub NotBefore : Date → Option Date → Type 0
NotBefore d none = Unit
NotBefore d (some start) = start ≤ d

abbrev pub NotAfter : Date → Option Date → Type 0
NotAfter d none = Unit
NotAfter d (some end) = d ≤ end

module _ {F : Type 0} ⦃fl : Floats F⦄ where
  -- The stored unit price is the reported one, within the tolerance, or was derived.
  abbrev pub Consistent : F → Option F → Transaction F → Type 0
  Consistent tolerance none t = t.unit_price_cny_sqm ≡ fl.div t.deal_price_cny t.area_sqm
  Consistent tolerance (some u) t =
      (t.unit_price_cny_sqm ≡ u)
      × (fl.lt tolerance (deviation u t.area_sqm t.deal_price_cny) ≡ false)

  -- What the gates promise of an accepted transaction `t` of the record `r`.
  pub record Sound (community : Community F) (start_date end_date : Option Date) (tolerance : F)
      (r : RawTransactionRecord F) (t : Transaction F) : Type 0 where
    pub is_valid : valid_transaction t ≡ true
    pub subject : t.community_id ≡ community.community_id
    pub not_future : t.deal_date ≤ utc_date r.collected_at + 1
    pub not_before : NotBefore t.deal_date start_date
    pub not_after : NotAfter t.deal_date end_date
    pub consistent : Consistent tolerance r.unit_price_cny_sqm t
    -- What the source said is what is stored.
    pub same_date : r.deal_date ≡ some t.deal_date
    pub same_area : r.area_sqm ≡ some t.area_sqm
    pub same_price : r.deal_price_cny ≡ some t.deal_price_cny
    pub same_listing_price : t.initial_listing_price_cny ≡ r.initial_listing_price_cny
    pub same_identity : t.source_transaction_id ≡ r.source_transaction_id
    pub same_source : t.source ≡ r.source
    pub same_url : t.source_url ≡ r.source_url
    pub same_payload : t.raw_payload_ref ≡ r.raw_payload_ref
    pub same_instant : t.collected_at ≡ r.collected_at
    pub same_parser : t.parser_version ≡ r.parser_version

  module _ (tools : TextTools) (community : Community F) (start_date end_date : Option Date) where
    -- When the tolerance argument validates and `normalize_transaction` accepts a record, the
    -- transaction is valid, belongs to the community, is dated at most one day after the
    -- collection and within the requested dates, has a unit price that is the reported one within
    -- the tolerance or the quotient of price and area, and carries the source's own date, area,
    -- price, listing price, identity and provenance.
    pub normalize_transaction-Sound :
        (arg : ToleranceArg F) (tolerance : F) (r : RawTransactionRecord F)
        (n : NormalizedTransaction F)
        → validate_unit_price_tolerance arg ≡ ok tolerance
        → normalize_transaction tools community start_date end_date arg r ≡ ok (normalized n)
        → Sound community start_date end_date tolerance r n.transaction
    unfolding normalize_transaction source_identity date_gates measure_gates candidate in_future
        before after required_positive nonpositive_when_present checked_unit_price
    normalize_transaction-Sound arg tolerance r n valid h = ground arith
