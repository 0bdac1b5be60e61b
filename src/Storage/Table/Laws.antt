-- ===== src/Storage/Table/Laws.antt =====
-- What a row looked up after an upsert is, and that the primary key stays unique.
use mathlib.Core.Path.{ap₂}
use cn_property_agent.Prelude.{
  ◌≡◌, refl, sym, ◌∙◌, true, false, ◌||◌, Option, none, some, List, [], ◌∷◌, arith, Eq, ◌==◌,
  ==_refl, ==_sound, Bool-cases, inl, inr, All, contains, Distinct, if◌then◌else◌,
}
use cn_property_agent.Storage.Table.{find, keys, upsert}

module _ {A : Type 0} {a b : A} {xs ys : List A} (h : ◌≡◌ {A = List A} (a ∷ xs) (b ∷ ys)) where
  head_of_eq : a ≡ b
  head_of_eq = cc

  tail_of_eq : xs ≡ ys
  tail_of_eq = cc

module _ {K R : Type 0} ⦃e : Eq K⦄ (key : R → K) where
  pub find_absent : (k : K) (t : List R) → contains k (keys key t) ≡ false → find key k t ≡ none
  unfolding find
  find_absent k [] h = refl
  find_absent k (x ∷ t) h = ground (arith, find_absent k t)

  pub contains_of_find :
      (k : K) (t : List R) {r : R} → find key k t ≡ some r → contains k (keys key t) ≡ true
  unfolding find
  contains_of_find k [] h = cc
  contains_of_find k (x ∷ t) {r} h = ground (arith, contains_of_find k t {r = r})

  -- A key that is there has its row, which has what all rows have.
  pub find_of_contains :
      (P : R → Type 0) (k : K) (t : List R)
      → All P t
      → contains k (keys key t) ≡ true
      → (r : R) × (find key k t ≡ some r) × P r
  unfolding find
  find_of_contains P k [] a h = cc
  find_of_contains P k (x ∷ t) a h = elim (Bool-cases (key x == k)) [
    | inl here ↦ (x, rw here, a.0)
    | inr there ↦ rw there (find_of_contains P k t a.1 (rw there at h))
  ]

  pub key-find : (k : K) (t : List R) {r : R} → find key k t ≡ some r → key r ≡ k
  unfolding find
  key-find k [] h = cc
  key-find k (x ∷ t) {r} h = ground (arith, key-find k t {r = r}, e.decides (key x) k)

  -- Two tables with the same keys, each once, and the same rows under them are the same.
  pub table_ext :
      (t u : List R)
      → Distinct (keys key t)
      → keys key t ≡ keys key u
      → ((k : K) → find key k t ≡ find key k u)
      → t ≡ u
  unfolding find
  table_ext [] [] d ks h = refl
  table_ext [] (y ∷ u) d ks h = cc
  table_ext (x ∷ t) [] d ks h = cc
  table_ext (x ∷ t) (y ∷ u) d ks h = ap₂ ◌∷◌ same_row (
      table_ext t u d.1 same_keys λ k. elim (Bool-cases (key x == k)) [
        | inl here ↦
            (find_absent k t (rw (← ==_sound (key x) k here) d.0)
              ∙ sym (find_absent k u (rw (← ==_sound (key x) k here, ← same_keys) d.0)))
        | inr there ↦ ground (arith, h k)
      ])
    where
      same_key : key x ≡ key y
      same_key = head_of_eq ks

      same_keys : keys key t ≡ keys key u
      same_keys = tail_of_eq ks

      same_row : x ≡ y
      same_row = ground (arith, h (key x), ==_refl (key x), ==_refl (key y), same_key)

module _ {K R : Type 0} ⦃e : Eq K⦄ (key : R → K) (merge : R → R → R)
    (keeps : (old new : R) → key (merge old new) ≡ key new) where
  -- `old` updated by `new`, where either may be missing.
  abbrev pub join : Option R → Option R → Option R
  join none new = new
  join (some a) none = some a
  join (some a) (some b) = some (merge a b)

  abbrev pub matching : K → R → Option R
  matching k r = if key r == k then some r else none

  pub find-upsert :
      (k : K) (r : R) (t : List R)
      → find key k (upsert key merge r t) ≡ join (find key k t) (matching k r)
  unfolding find upsert
  find-upsert k r [] = ground arith
  find-upsert k r (x ∷ t) = ground (
    arith,
    find-upsert k r t,
    e.decides (key x) (key r),
    e.decides (key x) k,
    e.decides (key r) k,
    keeps x r,
  )

  pub contains-upsert :
      (k : K) (r : R) (t : List R)
      → contains k (keys key (upsert key merge r t)) ≡ (key r == k || contains k (keys key t))
  unfolding upsert
  contains-upsert k r [] = ground arith
  contains-upsert k r (x ∷ t) = ground (
    arith,
    contains-upsert k r t,
    e.decides (key x) (key r),
    e.decides (key x) k,
    e.decides (key r) k,
    keeps x r,
  )

  pub upsert-Distinct :
      (r : R) (t : List R) → Distinct (keys key t) → Distinct (keys key (upsert key merge r t))
  unfolding upsert
  upsert-Distinct r [] h = (refl, tt)
  upsert-Distinct r (x ∷ t) h = ground (
    arith,
    upsert-Distinct r t,
    contains-upsert (key x) r t,
    e.decides (key x) (key r),
    e.decides (key r) (key x),
    keeps x r,
  )

  -- What the new row has, and an update keeps, all rows of the table have.
  pub All-upsert :
      (P : R → Type 0)
      → ((old new : R) → P new → P (merge old new))
      → (r : R) (t : List R) → P r
      → All P t
      → All P (upsert key merge r t)
  unfolding upsert
  All-upsert P kept r [] p h = (p, tt)
  All-upsert P kept r (x ∷ t) p h = elim (Bool-cases (key x == key r)) [
    | inl here ↦ rw here (kept x r p, h.1)
    | inr there ↦ rw there (h.0, All-upsert P kept r t p h.1)
  ]
