-- ===== src/Storage/Table/Reading.antt =====
-- A query `SELECT … WHERE … ORDER BY …` whose order tells any two keys apart reads the table as a
-- set of rows: where a row stands in the table does not show.
use mathlib.Core.List.{Permᴰ}
use mathlib.Core.List.Permᴰ
use mathlib.Core.Path.{subst₂}
use cn_property_agent.Prelude.{
  subst, ◌≡◌, refl, sym, ◌∙◌, ap, Bool, true, false, some, some_inj, List, [], ◌∷◌, arith, All,
  filterb, Distinct, contains, Eq, Bool-cases, ◌==◌, Option-cases, none, inl, inr, ==_refl,
}
use cn_property_agent.Prelude.Sorting.{sorted, sorted_of_perm, All-perm}
use cn_property_agent.Storage.Table.{find, keys}

module _ {A : Type 0} (test : A → Bool) where
  filterb_cons :
      (x : A) {xs ys : List A}
      → Permᴰ xs ys
      → Permᴰ (filterb test xs) (filterb test ys)
      → Permᴰ (filterb test (x ∷ xs)) (filterb test (x ∷ ys))
  filterb_cons x p rest = elim (Bool-cases (test x)) [
    | inl kept ↦ rw kept (Permᴰ.cons refl rest)
    | inr gone ↦ rw gone rest
  ]

  filterb_swap :
      (x y : A) (xs : List A) → Permᴰ (filterb test (x ∷ y ∷ xs)) (filterb test (y ∷ x ∷ xs))
  filterb_swap x y xs = elim (Bool-cases (test x)) [
    | inl kept ↦ elim (Bool-cases (test y)) [
      | inl kept' ↦ rw (kept, kept') (Permᴰ.swap refl refl)
      | inr gone' ↦ rw (kept, gone') (Permᴰ.refl (x ∷ filterb test xs))
    ]
    | inr gone ↦ rw gone (Permᴰ.refl (filterb test (y ∷ xs)))
  ]

  pub filterb-perm : {xs ys : List A} → Permᴰ xs ys → Permᴰ (filterb test xs) (filterb test ys)
  filterb-perm Permᴰ.nil = Permᴰ.nil
  filterb-perm (Permᴰ.cons {a} {b} {l₁} {l₂} e p) =
      subst (λ z. Permᴰ (filterb test (a ∷ l₁)) (filterb test (z ∷ l₂))) e
        (filterb_cons a p (filterb-perm p))
  filterb-perm (Permᴰ.swap {a} {b} {l = l} e f) =
      subst₂ (λ y z. Permᴰ (filterb test (a ∷ b ∷ l)) (filterb test (y ∷ z ∷ l))) f e
        (filterb_swap a b l)
  filterb-perm (Permᴰ.trans p q) = Permᴰ.trans (filterb-perm p) (filterb-perm q)

  pub All-filterb : (P : A → Type 0) (xs : List A) → All P xs → All P (filterb test xs)
  All-filterb P [] h = tt
  All-filterb P (x ∷ xs) h = elim (Bool-cases (test x)) [
    | inl kept ↦ rw kept (h.0, All-filterb P xs h.1)
    | inr gone ↦ rw gone (All-filterb P xs h.1)
  ]

module _ {K R : Type 0} ⦃e : Eq K⦄ (key : R → K) where
  -- The row is the one under its key.
  abbrev pub Stored : List R → R → Type 0
  Stored t r = find key (key r) t ≡ some r

  Stored-behind :
      (x : R) (t u : List R)
      → contains (key x) (keys key u) ≡ false
      → All (Stored t) u
      → All (Stored (x ∷ t)) u
  unfolding find
  Stored-behind x t [] h a = tt
  Stored-behind x t (r ∷ u) h a = (
    ground (arith, a.0, e.decides (key x) (key r), e.decides (key r) (key x)),
    Stored-behind x t u (ground (arith, h)) a.1,
  )

  pub rows_Stored : (t : List R) → Distinct (keys key t) → All (Stored t) t
  unfolding find
  rows_Stored [] d = tt
  rows_Stored (x ∷ t) d = (rw (==_refl (key x)), Stored-behind x t t d.0 (rows_Stored t d.1))

  pub reads_alike :
      (lt : R → R → Bool) (test : R → Bool)
      → ((a b : R) → lt a b ≡ true → lt b a ≡ false)
      → ((a b c : R) → lt a b ≡ true → lt b c ≡ true → lt a c ≡ true)
      → ((a b : R) → lt a b ≡ false → lt b a ≡ false → key a ≡ key b)
      → {t u : List R} → Permᴰ t u
      → Distinct (keys key t)
      → sorted lt (filterb test t) ≡ sorted lt (filterb test u)
  reads_alike lt test asym trans same {t} p d =
      sorted_of_perm lt (Stored t)
        (record {
          asym = asym;
          trans = trans;
          connected =
              λ a b ha hb h k. some_inj (sym ha ∙ (ap (λ x. find key x t) (same a b h k) ∙ hb));
        })
        (filterb-perm test p) (All-filterb test (Stored t) t (rows_Stored t d))

  find-All :
      (P : R → Type 0) (k : K) (u : List R) (r : R)
      → All P u
      → find key k u ≡ some r
      → P r × (key r ≡ k)
  unfolding find
  find-All P k [] r h f = absurd (ground (arith, f))
  find-All P k (x ∷ u) r h f = elim (Bool-cases (key x == k)) [
    | inl here ↦
        subst (λ y. P y × (key y ≡ k)) {x = x} (ground (arith, here, f))
          (h.0, (e.decides (key x) k).0 here)
    | inr there ↦ find-All P k u r h.1 (ground (arith, there, f))
  ]

  Kept : List R → R → Type 0
  Kept u x = contains (key x) (keys key u) ≡ true

  Kept-behind : (y : R) (u v : List R) → All (Kept u) v → All (Kept (y ∷ u)) v
  unfolding Kept
  Kept-behind y u [] h = tt
  Kept-behind y u (x ∷ v) h = (ground (arith, h.0), Kept-behind y u v h.1)

  all_Kept : (u : List R) → All (Kept u) u
  unfolding Kept
  all_Kept [] = tt
  all_Kept (x ∷ u) = (ground (arith, ==_refl (key x)), Kept-behind x u u (all_Kept u))

  kept_found : (k : K) (u : List R) → contains k (keys key u) ≡ true → find key k u ≡ none → ⊥
  unfolding find
  kept_found k [] h f = cc
  kept_found k (x ∷ u) h f = ground (arith, h, f, kept_found k u)

  -- Looking up a key does not see the order of the rows.
  pub find-perm :
      {t u : List R} (k : K) → Permᴰ t u → Distinct (keys key t) → find key k t ≡ find key k u
  unfolding Kept
  find-perm {t} {u} k p d = elim (Option-cases (find key k u)) [
    | inr (r, f) ↦
        let (found, same) = find-All (Stored t) k u r (All-perm (Stored t) p (rows_Stored t d)) f in
        subst (λ x. find key x t ≡ some r) same found ∙ sym f
    | inl absent ↦ elim (Option-cases (find key k t)) [
      | inl absent' ↦ absent' ∙ sym absent
      | inr (r, f) ↦
          let (kept, same) =
            find-All (Kept u) k t r (All-perm (Kept u) (Permᴰ.symm p) (all_Kept u)) f in
          absurd (kept_found k u (subst (λ x. contains x (keys key u) ≡ true) same kept) absent)
    ]
  ]
