-- ===== src/Analytics/Common/Median.antt =====
-- The median of an odd number of values lies in their middle.
use mathlib.Core.List.{Permᴰ}
use cn_property_agent.Prelude.{
  ℕ, zero, suc, ◌+◌, ◌≤◌, ◌<◌, ◌≡◌, refl, ◌∙◌, Bool, some, List, [], ◌∷◌, arith, length, get_elem?,
  if◌then◌else◌,
}

module _ {A : Type 0} where
  -- How many elements pass a test.
  unfoldable pub countb : (A → Bool) → List A → ℕ
  countb test [] = 0
  countb test (x ∷ xs) = (if test x then 1 else 0) + countb test xs

  countb-le : (test : A → Bool) (xs : List A) → countb test xs ≤ length xs
  unfolding countb
  countb-le test [] = omega arith
  countb-le test (x ∷ xs) = ground (arith, countb-le test xs)

  countb-perm : (test : A → Bool) {xs ys : List A} → Permᴰ xs ys → countb test xs ≡ countb test ys
  unfolding countb
  countb-perm test Permᴰ.nil = refl
  countb-perm test (Permᴰ.cons e p) = ground (arith, e, countb-perm test p)
  countb-perm test (Permᴰ.swap e f) = ground (arith, e, f)
  countb-perm test (Permᴰ.trans p q) = countb-perm test p ∙ countb-perm test q

  pub get_elem?_total : (xs : List A) (i : ℕ) → i < length xs → (m : A) × (get_elem? xs i ≡ some m)
  get_elem?_total [] i h = elim h [ ]
  get_elem?_total (x ∷ xs) zero h = (x, refl)
  get_elem?_total (x ∷ xs) (suc i) h = get_elem?_total xs i (omega arith)
