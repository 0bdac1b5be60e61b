-- ===== src/Floats.antt =====
-- Python's `float` as an interface, since the checker has no floating point. The code needs these
-- operations; what a theorem needs of them stands among its hypotheses.
use cn_property_agent.Prelude.{ℕ, ◌≡◌, Bool, true, Option, some, ◌&&◌, ◌||◌, not}
use cn_property_agent.Prelude.Int.{ℤ}

pub record Floats (F : Type 0) : Type 0 where
  pub zero_f : F
  pub one_f : F
  pub two_f : F
  -- `a < b` and `a <= b`, both false where an operand is NaN
  pub lt : F → F → Bool
  pub le : F → F → Bool
  pub add : F → F → F
  pub sub : F → F → F
  pub mul : F → F → F
  pub div : F → F → F
  pub absolute : F → F
  -- `math.isfinite`
  pub is_finite : F → Bool
  -- `float(n)`, `none` where it raises OverflowError
  pub of_int : ℤ → Option F
  -- `m / n` of two integers, for n positive
  pub ratio : ℕ → ℕ → F

-- What IEEE 754 says of the two comparisons. A value that is not `le` itself is NaN, and
-- values that Python's `==` identifies (the two zeros) are one value of the model.
pub record FloatOrder {F : Type 0} (fl : Floats F) : Type 0 where
  pub lt-eq : (a b : F) → fl.lt a b ≡ (fl.le a b && not (fl.le b a))
  pub le_trans : (a b c : F) → fl.le a b ≡ true → fl.le b c ≡ true → fl.le a c ≡ true
  pub le_total : (a b : F) → fl.le a a ≡ true → fl.le b b ≡ true → (fl.le a b || fl.le b a) ≡ true
  pub le_antisymm : (a b : F) → fl.le a b ≡ true → fl.le b a ≡ true → a ≡ b
  -- a comparison that holds is between numbers, and `float(n)` is one
  pub le_numbers : (a b : F) → fl.le a b ≡ true → (fl.le a a ≡ true) × (fl.le b b ≡ true)
  pub of_int_number : (n : ℤ) (x : F) → fl.of_int n ≡ some x → fl.le x x ≡ true
