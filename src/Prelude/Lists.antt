-- ===== src/Prelude/Lists.antt =====
-- Lists measured by native numbers, under the library's names, and predicates on lists.
use Prim.Native.Nat.{ℕ, zero, suc, ◌+◌}
use mathlib.Core.Path.{◌≡◌, refl, ap}
use mathlib.Core.Bool.{Bool, false, ◌||◌}
use mathlib.Core.Option.{Option, none, some}
use mathlib.Core.List.{List, [], ◌∷◌, ◌++◌, map}
use native.Mathlib.Omega.{arith}
use mathlib.Core.Logic.{inl, inr}
use cn_property_agent.Prelude.Tests.{Bool-cases, if◌then◌else◌, Eq, ◌==◌}

module _ {ℓ} {A : Type ℓ} where
  abbrev pub length : List A → ℕ
  length [] = 0
  length (x ∷ xs) = suc (length xs)

  abbrev pub get_elem? : List A → ℕ → Option A
  get_elem? [] i = none
  get_elem? (x ∷ xs) zero = some x
  get_elem? (x ∷ xs) (suc i) = get_elem? xs i

  pub length-append : (xs ys : List A) → length (xs ++ ys) ≡ length xs + length ys
  length-append [] ys = omega arith
  length-append (x ∷ xs) ys = omega (arith, length-append xs ys)

  -- `[x for x in xs if p(x)]`
  abbrev pub filterb : (A → Bool) → List A → List A
  filterb p [] = []
  filterb p (x ∷ xs) = let rest = filterb p xs in if p x then x ∷ rest else rest

  -- `any(p(x) for x in xs)`
  abbrev pub anyb : (A → Bool) → List A → Bool
  anyb p [] = false
  anyb p (x ∷ xs) = p x || anyb p xs

  abbrev pub All {κ} : (A → Type κ) → List A → Type κ
  All P [] = Unit
  All P (x ∷ xs) = P x × All P xs

  pub All-append {κ} :
      (P : A → Type κ) (front back : List A) → All P front → All P back → All P (front ++ back)
  All-append P [] back _ rest = rest
  All-append P (a ∷ front) back (here, more) rest = (here, All-append P front back more rest)

module _ {ℓ} {B : Type ℓ} where
  abbrev pub cons_some : Option B → List B → List B
  cons_some none bs = bs
  cons_some (some b) bs = b ∷ bs

module _ {ℓ κ} {A : Type ℓ} {B : Type κ} where
  pub length-map : (f : A → B) (xs : List A) → length (map f xs) ≡ length xs
  length-map f [] = refl
  length-map f (x ∷ xs) = ap suc (length-map f xs)

  -- `[b for b in map(f, xs) if b is not None]`
  abbrev pub filter_map : (A → Option B) → List A → List B
  filter_map f [] = []
  filter_map f (x ∷ xs) = cons_some (f x) (filter_map f xs)

module _ {ℓ} {A : Type ℓ} ⦃e : Eq A⦄ where
  -- `a in xs`
  abbrev pub contains : A → List A → Bool
  contains a [] = false
  contains a (x ∷ xs) = x == a || contains a xs

  -- No value stands twice.
  abbrev pub Distinct : List A → Type 0
  Distinct [] = Unit
  Distinct (x ∷ xs) = (contains x xs ≡ false) × Distinct xs

  pub contains-append_one :
      (a x : A) (xs : List A) → contains a (xs ++ (x ∷ [])) ≡ (contains a xs || x == a)
  contains-append_one a x [] = ground arith
  contains-append_one a x (y ∷ xs) = ground (arith, contains-append_one a x xs)

  pub Distinct-append_one :
      (x : A) (xs : List A) → contains x xs ≡ false → Distinct xs → Distinct (xs ++ (x ∷ []))
  Distinct-append_one x [] h d = (refl, tt)
  Distinct-append_one x (y ∷ xs) h d =
      ground
        (arith, Distinct-append_one x xs, contains-append_one y x xs, e.decides y x, e.decides x y)

  -- `if a not in xs: xs.append(a)`
  abbrev pub add_once : A → List A → List A
  add_once a xs = if contains a xs then xs else xs ++ (a ∷ [])

  -- The loop over `add_once`.
  abbrev pub add_all : List A → List A → List A
  add_all [] xs = xs
  add_all (a ∷ as') xs = add_all as' (add_once a xs)

  pub add_once-Distinct : (a : A) (xs : List A) → Distinct xs → Distinct (add_once a xs)
  add_once-Distinct a xs d = elim (Bool-cases (contains a xs)) [
    | inl old ↦ rw old d
    | inr new ↦ rw new (Distinct-append_one a xs new d)
  ]

  pub contains-add_once :
      (k a : A) (xs : List A) → contains k (add_once a xs) ≡ (a == k || contains k xs)
  contains-add_once k a xs = ground (arith, contains-append_one k a xs, e.decides a k)

  pub add_all-Distinct : (as' xs : List A) → Distinct xs → Distinct (add_all as' xs)
  add_all-Distinct [] xs d = d
  add_all-Distinct (a ∷ as') xs d = add_all-Distinct as' (add_once a xs) (add_once-Distinct a xs d)

  pub contains-add_all :
      (k : A) (as' xs : List A) → contains k (add_all as' xs) ≡ (contains k as' || contains k xs)
  contains-add_all k [] xs = refl
  contains-add_all k (a ∷ as') xs =
      ground (arith, contains-add_all k as' (add_once a xs), contains-add_once k a xs)
