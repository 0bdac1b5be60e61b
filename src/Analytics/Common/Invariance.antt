-- ===== src/Analytics/Common/Invariance.antt =====
-- The shared computations do not depend on the order of their input.
use mathlib.Core.List.{Permᴰ}
use mathlib.Core.List.Permᴰ
use mathlib.Core.Path.{subst₂}
use cn_property_agent.Prelude.{
  ℕ, suc, ◌≡◌, refl, ap, ◌∙◌, String, Bool, true, Option, none, some, List, [], ◌∷◌, arith, subst,
  length, anyb, cons_some, filter_map, All,
}
use cn_property_agent.Prelude.Sorting.{sorted, IsOrder, sorted_of_perm}
use cn_property_agent.Prelude.Text.{str_ltb, str_order}
use cn_property_agent.Floats.{Floats, FloatOrder}
use cn_property_agent.Analytics.Common.{maximum, sorted_set, median, median_metric}

module _ {A : Type 0} where
  pub length-perm : {xs ys : List A} → Permᴰ xs ys → length xs ≡ length ys
  length-perm Permᴰ.nil = refl
  length-perm (Permᴰ.cons e p) = ap suc (length-perm p)
  length-perm (Permᴰ.swap e f) = refl
  length-perm (Permᴰ.trans p q) = length-perm p ∙ length-perm q

  pub anyb-perm : (test : A → Bool) {xs ys : List A} → Permᴰ xs ys → anyb test xs ≡ anyb test ys
  anyb-perm test Permᴰ.nil = refl
  anyb-perm test (Permᴰ.cons e p) = ground (arith, e, anyb-perm test p)
  anyb-perm test (Permᴰ.swap e f) = ground (arith, e, f)
  anyb-perm test (Permᴰ.trans p q) = anyb-perm test p ∙ anyb-perm test q

module _ {B : Type 0} where
  cons_some-perm :
      (o : Option B) {bs cs : List B} → Permᴰ bs cs → Permᴰ (cons_some o bs) (cons_some o cs)
  cons_some-perm none p = p
  cons_some-perm (some b) p = Permᴰ.cons refl p

  cons_some_swap :
      (o q : Option B) (bs : List B)
      → Permᴰ (cons_some o (cons_some q bs)) (cons_some q (cons_some o bs))
  cons_some_swap none q bs = Permᴰ.refl (cons_some q bs)
  cons_some_swap (some b) none bs = Permᴰ.refl (b ∷ bs)
  cons_some_swap (some b) (some c) bs = Permᴰ.swap refl refl

module _ {A B : Type 0} (f : A → Option B) where
  pub filter_map-perm : {xs ys : List A} → Permᴰ xs ys → Permᴰ (filter_map f xs) (filter_map f ys)
  filter_map-perm Permᴰ.nil = Permᴰ.nil
  filter_map-perm (Permᴰ.cons {a} {b} {l₁} {l₂} e p) =
      subst (λ z. Permᴰ (cons_some (f a) (filter_map f l₁)) (cons_some (f z) (filter_map f l₂))) e
        (cons_some-perm (f a) (filter_map-perm p))
  filter_map-perm (Permᴰ.swap {a} {b} {a'} {b'} {l} e g) =
      subst₂
        (λ y z.
          Permᴰ (cons_some (f a) (cons_some (f b) (filter_map f l)))
            (cons_some (f y) (cons_some (f z) (filter_map f l))))
        g e (cons_some_swap (f a) (f b) (filter_map f l))
  filter_map-perm (Permᴰ.trans p q) = Permᴰ.trans (filter_map-perm p) (filter_map-perm q)

pub maximum-perm : {xs ys : List ℕ} → Permᴰ xs ys → maximum xs ≡ maximum ys
unfolding maximum
maximum-perm Permᴰ.nil = refl
maximum-perm (Permᴰ.cons e p) = ground (arith, e, maximum-perm p)
maximum-perm (Permᴰ.swap e f) = ground (arith, e, f)
maximum-perm (Permᴰ.trans p q) = maximum-perm p ∙ maximum-perm q

All-texts : (xs : List String) → All (λ _. Unit {0}) xs
All-texts [] = tt
All-texts (x ∷ xs) = (tt, All-texts xs)

pub sorted_texts-perm : {xs ys : List String} → Permᴰ xs ys → sorted str_ltb xs ≡ sorted str_ltb ys
sorted_texts-perm {xs} p = sorted_of_perm str_ltb (λ _. Unit {0}) str_order p (All-texts xs)

pub sorted_set-perm : {xs ys : List String} → Permᴰ xs ys → sorted_set xs ≡ sorted_set ys
unfolding sorted_set
sorted_set-perm p = rw (sorted_texts-perm p)

module _ {F : Type 0} ⦃fl : Floats F⦄ (order : FloatOrder fl) where
  -- Not NaN.
  abbrev pub IsNumber : F → Type 0
  IsNumber x = fl.le x x ≡ true

  pub IsNumber-order : IsOrder fl.lt IsNumber
  IsNumber-order = record {
    asym = λ a b h. ground (arith, order.lt-eq a b, order.lt-eq b a);
    trans = λ a b c h k. ground (
      arith,
      order.lt-eq a b,
      order.lt-eq b c,
      order.lt-eq a c,
      order.le_trans a b c,
      order.le_trans b c a,
    );
    connected = λ a b pa pb h k.
        order.le_antisymm a b (ground (arith, order.lt-eq a b, order.lt-eq b a, order.le_total a b))
          (ground (arith, order.lt-eq a b, order.lt-eq b a, order.le_total a b));
  }

  pub median_metric-perm :
      {xs ys : List F} (minimum : ℕ)
      → Permᴰ xs ys
      → All IsNumber xs
      → median_metric xs minimum ≡ median_metric ys minimum
  unfolding median_metric median
  median_metric-perm minimum p h =
      ground (arith, length-perm p, sorted_of_perm fl.lt IsNumber IsNumber-order p h)
