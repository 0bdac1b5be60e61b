-- ===== src/Storage/Table/Replay.antt =====
-- Writing a batch of rows, and writing it again.
use cn_property_agent.Prelude.{
  ◌≡◌, refl, sym, ◌∙◌, ap, true, ◌||◌, Option, none, some, List, [], ◌∷◌, arith, Eq, ==_refl,
  contains, Distinct, false,
}
use cn_property_agent.Storage.Table.{find, keys, upsert, upsert_all}
use cn_property_agent.Storage.Table.Laws.{
  join, matching, find-upsert, contains-upsert, upsert-Distinct, table_ext,
}

-- `merge` is a semigroup in which every element is idempotent, and the key is the new row's.
pub record IsBand {K R : Type 0} (key : R → K) (merge : R → R → R) : Type 0 where
  pub keeps : (old new : R) → key (merge old new) ≡ key new
  pub assoc : (a b c : R) → merge (merge a b) c ≡ merge a (merge b c)
  pub idem : (a : R) → merge a a ≡ a

module _ {K R : Type 0} ⦃e : Eq K⦄ (key : R → K) (merge : R → R → R) (band : IsBand key merge) where
  abbrev ◌⊔◌ : Option R → Option R → Option R
  ◌⊔◌ = join key merge band.keeps

  infixl 65 ◌⊔◌
  ⊔_assoc : (a b c : Option R) → a ⊔ b ⊔ c ≡ a ⊔ (b ⊔ c)
  ⊔_assoc none b c = refl
  ⊔_assoc (some a) none c = refl
  ⊔_assoc (some a) (some b) none = refl
  ⊔_assoc (some a) (some b) (some c) = ap some (band.assoc a b c)

  ⊔_idem : (a : Option R) → a ⊔ a ≡ a
  ⊔_idem none = refl
  ⊔_idem (some a) = ap some (band.idem a)

  ⊔_none : (a : Option R) → a ⊔ none ≡ a
  ⊔_none none = refl
  ⊔_none (some a) = refl

  -- What the rows of a batch under one key amount to.
  abbrev pub combined : K → List R → Option R
  combined k [] = none
  combined k (r ∷ rs) = matching key merge band.keeps k r ⊔ combined k rs

  pub find-upsert_all :
      (k : K) (rs t : List R)
      → find key k (upsert_all key merge rs t) ≡ find key k t ⊔ combined k rs
  unfolding upsert_all
  find-upsert_all k [] t = ground (arith)
  find-upsert_all k (r ∷ rs) t =
      rw (find-upsert_all k rs (upsert key merge r t), find-upsert key merge band.keeps k r t)
        (⊔_assoc (find key k t) (matching key merge band.keeps k r) (combined k rs))

  combined_absent : (k : K) (rs : List R) → contains k (keys key rs) ≡ false → combined k rs ≡ none
  combined_absent k [] h = refl
  combined_absent k (r ∷ rs) h = ground (arith, combined_absent k rs)

  -- With each key once, a batch amounts to its rows.
  pub combined-eq-find :
      (k : K) (rs : List R) → Distinct (keys key rs) → combined k rs ≡ find key k rs
  unfolding find
  combined-eq-find k [] d = refl
  combined-eq-find k (r ∷ rs) d =
      ground (arith, combined-eq-find k rs, combined_absent k rs, e.decides (key r) k)

  pub find-upsert_all_absent :
      (k : K) (rs t : List R)
      → contains k (keys key rs) ≡ false
      → find key k (upsert_all key merge rs t) ≡ find key k t
  find-upsert_all_absent k rs t h =
      rw (find-upsert_all k rs t, combined_absent k rs h) (⊔_none (find key k t))

  pub upsert_all-Distinct :
      (rs t : List R) → Distinct (keys key t) → Distinct (keys key (upsert_all key merge rs t))
  unfolding upsert_all
  upsert_all-Distinct [] t h = h
  upsert_all-Distinct (r ∷ rs) t h =
      upsert_all-Distinct rs (upsert key merge r t) (upsert-Distinct key merge band.keeps r t h)

  pub contains-upsert_all :
      (k : K) (rs t : List R)
      → contains k (keys key (upsert_all key merge rs t))
        ≡ (contains k (keys key rs) || contains k (keys key t))
  unfolding upsert_all
  contains-upsert_all k [] t = refl
  contains-upsert_all k (r ∷ rs) t = ground (
    arith,
    contains-upsert_all k rs (upsert key merge r t),
    contains-upsert key merge band.keeps k r t,
  )

  -- A row whose key is there leaves the keys as they are.
  pub keys-upsert_old :
      (r : R) (t : List R)
      → contains (key r) (keys key t) ≡ true
      → keys key (upsert key merge r t) ≡ keys key t
  unfolding upsert
  keys-upsert_old r [] h = cc
  keys-upsert_old r (x ∷ t) h =
      ground (arith, keys-upsert_old r t, e.decides (key x) (key r), band.keeps x r)

  -- Each row of a batch has its key in the table.
  abbrev pub Holds : List R → List R → Type 0
  Holds [] t = Unit
  Holds (r ∷ rs) t = (contains (key r) (keys key t) ≡ true) × Holds rs t

  pub Holds-same_keys : (rs t u : List R) → keys key t ≡ keys key u → Holds rs t → Holds rs u
  Holds-same_keys [] t u p h = tt
  Holds-same_keys (r ∷ rs) t u p h = (rw p at h.0, Holds-same_keys rs t u p h.1)

  keys-upsert_all_old :
      (rs t : List R) → Holds rs t → keys key (upsert_all key merge rs t) ≡ keys key t
  unfolding upsert_all
  keys-upsert_all_old [] t h = refl
  keys-upsert_all_old (r ∷ rs) t h =
      let same = keys-upsert_old r t h.0 in
      keys-upsert_all_old rs (upsert key merge r t) (Holds-same_keys rs t _ (sym same) h.1) ∙ same

  pub Holds-upsert_all :
      (rs all t : List R)
      → ((k : K) → contains k (keys key rs) ≡ true → contains k (keys key all) ≡ true)
      → Holds rs (upsert_all key merge all t)
  Holds-upsert_all [] all t h = tt
  Holds-upsert_all (r ∷ rs) all t h = (
    ground (arith, contains-upsert_all (key r) all t, h (key r), ==_refl (key r)),
    Holds-upsert_all rs all t (λ k m. h k (ground arith)),
  )

  -- Replaying a batch on the table that it left changes nothing.
  pub upsert_all_idem :
      (rs t : List R)
      → Distinct (keys key t)
      → upsert_all key merge rs (upsert_all key merge rs t) ≡ upsert_all key merge rs t
  upsert_all_idem rs t d =
      table_ext key (upsert_all key merge rs once) once (upsert_all-Distinct rs once once_distinct)
        (keys-upsert_all_old rs once (Holds-upsert_all rs rs t (λ k m. m)))
        λ k.
          rw (find-upsert_all k rs once, find-upsert_all k rs t)
            (⊔_assoc (find key k t) (combined k rs) (combined k rs)
              ∙ ap (λ c. find key k t ⊔ c) (⊔_idem (combined k rs)))
    where
      once : List R
      once = upsert_all key merge rs t

      once_distinct : Distinct (keys key once)
      once_distinct = upsert_all-Distinct rs t d
