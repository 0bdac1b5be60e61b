-- ===== src/Prelude/Sorting.antt =====
-- Python's `sorted`, as insertion sort: a stable sort by `<` alone.
use mathlib.Core.List.{Permᴰ}
use mathlib.Core.List.Permᴰ
use cn_property_agent.Prelude.Tests.{if◌then◌else◌, Bool-cases}
use mathlib.Core.Logic.{◌⊎◌, inl, inr}
use cn_property_agent.Prelude.Lists.{All, length}
use Prim.Native.Nat.{suc}
use mathlib.Core.Path.{◌≡◌, refl, sym, ap, ap₂, ◌∙◌}
use mathlib.Core.Bool.{Bool, true, false}
use mathlib.Core.List.{List, [], ◌∷◌}
use native.Mathlib.Omega.{arith}

module _ {A : Type 0} (P : A → Type 0) where
  pub All-perm : {xs ys : List A} → Permᴰ xs ys → All P xs → All P ys
  All-perm Permᴰ.nil h = h
  All-perm (Permᴰ.cons e p) h = (rw e at h.0, All-perm p h.1)
  All-perm (Permᴰ.swap e f) h = (rw f at h.1.0, (rw e at h.0, h.1.1))
  All-perm (Permᴰ.trans p q) h = All-perm q (All-perm p h)

module _ {A : Type 0} (lt : A → A → Bool) where
  unfoldable pub insert : A → List A → List A
  insert x [] = x ∷ []
  insert x (y ∷ ys) = if lt y x then y ∷ insert x ys else x ∷ y ∷ ys

  unfoldable pub sorted : List A → List A
  unfolding insert
  sorted [] = []
  sorted (x ∷ xs) = insert x (sorted xs)

  -- A strict total order on the values that satisfy `P`.
  pub record IsOrder (P : A → Type 0) : Type 0 where
    pub asym : (a b : A) → lt a b ≡ true → lt b a ≡ false
    pub trans : (a b c : A) → lt a b ≡ true → lt b c ≡ true → lt a c ≡ true
    pub connected : (a b : A) → P a → P b → lt a b ≡ false → lt b a ≡ false → a ≡ b

  -- In a sorted list no element stands behind a greater one.
  abbrev pub Ascending : List A → Type 0
  Ascending [] = Unit
  Ascending (x ∷ xs) = All (λ y. lt y x ≡ false) xs × Ascending xs

  pub length-insert : (x : A) (xs : List A) → length (insert x xs) ≡ suc (length xs)
  unfolding insert
  length-insert x [] = refl
  length-insert x (y ∷ ys) = ground (arith, length-insert x ys)

  pub length-sorted : (xs : List A) → length (sorted xs) ≡ length xs
  unfolding sorted
  length-sorted [] = refl
  length-sorted (x ∷ xs) = length-insert x (sorted xs) ∙ ap suc (length-sorted xs)

  pub insert-perm : (x : A) (xs : List A) → Permᴰ (insert x xs) (x ∷ xs)
  unfolding insert
  insert-perm x [] = Permᴰ.refl (x ∷ [])
  insert-perm x (y ∷ ys) = elim (Bool-cases (lt y x)) [
    | inl below ↦ rw below (Permᴰ.trans (Permᴰ.cons refl (insert-perm x ys)) (Permᴰ.swap refl refl))
    | inr done ↦ rw done (Permᴰ.refl (x ∷ y ∷ ys))
  ]

  pub sorted-perm : (xs : List A) → Permᴰ (sorted xs) xs
  unfolding sorted
  sorted-perm [] = Permᴰ.refl []
  sorted-perm (x ∷ xs) = Permᴰ.trans (insert-perm x (sorted xs)) (Permᴰ.cons refl (sorted-perm xs))

  module _ (P : A → Type 0) (order : IsOrder P) where
    unordered : (a b : A) → P a → P b → a ≡ b ⊎ (lt a b ≡ true) ⊎ (lt b a ≡ true)
    unordered a b pa pb = ground (arith, order.connected a b pa pb)

    insert_comm_lt :
        (a b : A) (l : List A)
        → P a
        → P b
        → All P l
        → lt a b ≡ true
        → insert a (insert b l) ≡ insert b (insert a l)
    unfolding insert
    insert_comm_lt a b [] pa pb h ab = ground (arith, order.asym a b)
    insert_comm_lt a b (y ∷ l) pa pb h ab = ground (
      arith,
      order.asym a b,
      insert_comm_lt a b l,
      order.trans y a b,
      order.connected y b h.0 pb,
      order.connected y a h.0 pa,
      order.trans a y b,
      order.asym y b,
      order.asym y a,
    )

    insert_comm :
        (a b : A) (l : List A) → P a → P b → All P l → insert a (insert b l) ≡ insert b (insert a l)
    insert_comm a b l pa pb h = elim (unordered a b pa pb) [
      | inl same ↦ rw same
      | inr (inl ab) ↦ insert_comm_lt a b l pa pb h ab
      | inr (inr ba) ↦ sym (insert_comm_lt b a l pb pa h ba)
    ]

    All-insert : (x : A) (xs : List A) → P x → All P xs → All P (insert x xs)
    All-insert x xs px h = All-perm P (Permᴰ.symm (insert-perm x xs)) (px, h)

    pub All-sorted : (xs : List A) → All P xs → All P (sorted xs)
    All-sorted xs h = All-perm P (Permᴰ.symm (sorted-perm xs)) h

    -- Sorting forgets the order of the input.
    pub sorted_of_perm : {xs ys : List A} → Permᴰ xs ys → All P xs → sorted xs ≡ sorted ys
    unfolding sorted
    sorted_of_perm Permᴰ.nil h = refl
    sorted_of_perm (Permᴰ.cons e p) h = ap₂ insert e (sorted_of_perm p h.1)
    sorted_of_perm (Permᴰ.swap {a} {b} {a'} {b'} {l} e f) h =
        insert_comm a b (sorted l) h.0 h.1.0 (All-sorted l h.1.1)
        ∙ ap₂ insert f (ap (λ x. insert x (sorted l)) e)
    sorted_of_perm (Permᴰ.trans p q) h = sorted_of_perm p h ∙ sorted_of_perm q (All-perm P p h)

    below-All :
        (x y : A) (zs : List A)
        → P x
        → P y
        → All P zs
        → lt y x ≡ false
        → All (λ z. lt z y ≡ false) zs
        → All (λ z. lt z x ≡ false) zs
    below-All x y [] px py h yx a = tt
    below-All x y (z ∷ zs) px py h yx a = (
      ground (arith, order.asym z x, order.trans z x y, order.connected x y px py, a.0),
      below-All x y zs px py h.1 yx a.1,
    )

    insert-Ascending :
        (x : A) (xs : List A) → P x → All P xs → Ascending xs → Ascending (insert x xs)
    unfolding insert
    insert-Ascending x [] px h a = (tt, tt)
    insert-Ascending x (y ∷ ys) px h a = elim (Bool-cases (lt y x)) [
      | inl below ↦ rw below (
        All-perm (λ z. lt z y ≡ false) (Permᴰ.symm (insert-perm x ys)) (order.asym y x below, a.0),
        insert-Ascending x ys px h.1 a.1,
      )
      | inr above ↦ rw above ((above, below-All x y ys px h.0 h.1 above a.0), a)
    ]

    pub sorted-Ascending : (xs : List A) → All P xs → Ascending (sorted xs)
    unfolding sorted
    sorted-Ascending [] h = tt
    sorted-Ascending (x ∷ xs) h =
        insert-Ascending x (sorted xs) h.0 (All-sorted xs h.1) (sorted-Ascending xs h.1)
