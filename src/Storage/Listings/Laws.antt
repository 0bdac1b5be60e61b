-- ===== src/Storage/Listings/Laws.antt =====
-- The updates of a listing form a band, so that batches replay; and when a row can be written.
use mathlib.Core.Path.{ap₂}
use cn_property_agent.Prelude.{
  ap, sym, ◌∙◌, ◌⊎◌, Bool-cases, inl, inr, ℕ, ◌≡◌, refl, String, string_eq, pair_eq, true, false,
  List, [], ◌∷◌, arith, All, anyb, contains, ◌==◌, ◌&&◌, ==_refl,
}
use cn_property_agent.Domain.Listing.{Listing}
use cn_property_agent.Storage.Table.{keys, overwrite, upsert}
use cn_property_agent.Storage.Table.Laws.{contains-upsert, All-upsert}
use cn_property_agent.Storage.Table.Replay.{IsBand}
use cn_property_agent.Storage.Listings.{
  least, greatest, listing_key, snapshot_key, merge_listing, clashes,
}

least_assoc : (a b c : ℕ) → least (least a b) c ≡ least a (least b c)
least_assoc a b c = ground arith

greatest_assoc : (a b c : ℕ) → greatest (greatest a b) c ≡ greatest a (greatest b c)
greatest_assoc a b c = ground arith

least_idem : (a : ℕ) → least a a ≡ a
least_idem a = ground arith

greatest_idem : (a : ℕ) → greatest a a ≡ a
greatest_idem a = ground arith

module _ {F : Type 0} where
  seen : Listing F → ℕ → ℕ → Listing F
  seen l first last = record l { first_seen_at = first; last_seen_at = last }

  pub listing-IsBand : IsBand (listing_key {F = F}) merge_listing
  unfolding seen
  listing-IsBand = record {
    keeps = λ old new. refl;
    assoc = λ a b c.
        ap₂ (seen c) (least_assoc a.first_seen_at b.first_seen_at c.first_seen_at)
          (greatest_assoc a.last_seen_at b.last_seen_at c.last_seen_at);
    idem = λ a. ap₂ (seen a) (least_idem a.first_seen_at) (greatest_idem a.last_seen_at);
  }

  pub snapshot-IsBand : IsBand (snapshot_key {F = F}) overwrite
  snapshot-IsBand = record { keeps = λ old new. refl; assoc = λ a b c. refl; idem = λ a. refl }

  -- `name` tells the pair of columns `source` and `source_listing_id` of each identity.
  module _ (name : String → String × String) where
    abbrev pub Identified : Listing F → Type 0
    Identified l =
        (l.source ≡ (name l.listing_id).0) × (l.source_listing_id ≡ (name l.listing_id).1)

    -- No other row has the item's pair.
    abbrev pub Free : String → List (Listing F) → Type 0
    Free id rows =
        (k : String) → contains k (keys listing_key rows) ≡ true → name k ≡ name id → k ≡ id

    -- The UNIQUE constraint.
    abbrev pub Unique : List (Listing F) → Type 0
    Unique rows = (k : String) → contains k (keys listing_key rows) ≡ true → Free k rows

    Free-tail :
        (id : String) (x : Listing F) (rows : List (Listing F)) → Free id (x ∷ rows) → Free id rows
    Free-tail id x rows h = λ k m p. h k (ground (arith, m)) p

    same_name :
        (item x : Listing F)
        → Identified item
        → Identified x
        → (x.source == item.source && x.source_listing_id == item.source_listing_id) ≡ true
        → name x.listing_id ≡ name item.listing_id
    same_name item x hi hx h =
        ap₂ (λ a b. (a, b)) (ground (arith, hi.0, hx.0, string_eq.decides x.source item.source))
          (ground (arith, hi.1, hx.1, string_eq.decides x.source_listing_id item.source_listing_id))

    same_columns :
        (item x : Listing F)
        → Identified item
        → Identified x
        → name x.listing_id ≡ name item.listing_id
        → (x.source == item.source && x.source_listing_id == item.source_listing_id) ≡ true
    same_columns item x hi hx h = ground (
      arith,
      hi.0,
      hx.0,
      hi.1,
      hx.1,
      ap (λ p. p.0) h,
      ap (λ p. p.1) h,
      string_eq.decides x.source item.source,
      string_eq.decides x.source_listing_id item.source_listing_id,
    )

    pub no_clash :
        (item : Listing F) (rows : List (Listing F))
        → Identified item
        → All Identified rows
        → Free item.listing_id rows
        → anyb (clashes item) rows ≡ false
    no_clash item [] hi h free = refl
    no_clash item (x ∷ rows) hi h free = ground (
      arith,
      no_clash item rows hi h.1 (Free-tail item.listing_id x rows free),
      same_name item x hi h.0,
      free x.listing_id,
      ==_refl x.listing_id,
      string_eq.decides x.listing_id item.listing_id,
    )

    pub Free-of_no_clash :
        (item : Listing F) (rows : List (Listing F))
        → Identified item
        → All Identified rows
        → anyb (clashes item) rows ≡ false
        → Free item.listing_id rows
    Free-of_no_clash item [] hi h e k m p = cc
    Free-of_no_clash item (x ∷ rows) hi h e k m p = elim (Bool-cases (x.listing_id == k)) [
      | inl here ↦
          let id = string_eq.decides x.listing_id k in
          ground (
            arith,
            e,
            here,
            id,
            string_eq.decides x.listing_id item.listing_id,
            same_columns item x hi h.0 (rw (id.0 here) p),
          )
      | inr there ↦ Free-of_no_clash item rows hi h.1 (ground arith) k (ground arith) p
    ]

    Identified-merge : (old new : Listing F) → Identified new → Identified (merge_listing old new)
    Identified-merge old new h = h

    pub Identified-upsert :
        (item : Listing F) (rows : List (Listing F))
        → Identified item
        → All Identified rows
        → All Identified (upsert listing_key merge_listing item rows)
    Identified-upsert item rows hi h =
        All-upsert listing_key merge_listing (λ old new. refl) Identified Identified-merge item rows
          hi h

    -- A key of the table after a write is the item's or was there.
    key_after :
        (item : Listing F) (rows : List (Listing F)) (k : String)
        → contains k (keys listing_key (upsert listing_key merge_listing item rows)) ≡ true
        → (k ≡ item.listing_id) ⊎ (contains k (keys listing_key rows) ≡ true)
    key_after item rows k m = ground (
      arith,
      m,
      contains-upsert listing_key merge_listing (λ old new. refl) k item rows,
      string_eq.decides item.listing_id k,
    )

    pub Unique-upsert :
        (item : Listing F) (rows : List (Listing F))
        → Free item.listing_id rows
        → Unique rows
        → Unique (upsert listing_key merge_listing item rows)
    Unique-upsert item rows free u k m j n p = elim (key_after item rows k m) [
      | inl k_new ↦ elim (key_after item rows j n) [
        | inl j_new ↦ j_new ∙ sym k_new
        | inr j_old ↦ free j j_old (p ∙ ap name k_new) ∙ sym k_new
      ]
      | inr k_old ↦ elim (key_after item rows j n) [
        | inl j_new ↦ j_new ∙ sym (free k k_old (sym p ∙ ap name j_new))
        | inr j_old ↦ u k k_old j j_old p
      ]
    ]
