-- ===== src/Prelude/Text.antt =====
-- Python's order on text (by code points) and its whitespace.
use Prim.Native.Nat.{ℕ}
use Prim.Native.Char.{Char, code}
use Prim.Native.String.{String}
use mathlib.Core.Path.{◌≡◌, refl, ap₂}
use mathlib.Core.Bool.{Bool, true, false, ◌&&◌, ◌||◌}
use mathlib.Core.List.{List, [], ◌∷◌}
use native.Mathlib.Omega.{arith}
use text.Mathlib.TextEquality.{Char-path}
use cn_property_agent.Prelude.Tests.{if◌then◌else◌, ltb, leb, nat_beq}
use cn_property_agent.Prelude.Sorting.{IsOrder}

-- The code points of a text.
abbrev pub codes : String → List ℕ
codes String.[] = []
codes (String.◌∷◌ c s) = code c ∷ codes s

-- `a < b` on sequences of numbers
lex_ltb : List ℕ → List ℕ → Bool
lex_ltb [] [] = false
lex_ltb [] (b ∷ bs) = true
lex_ltb (a ∷ as') [] = false
lex_ltb (a ∷ as') (b ∷ bs) = let rest = lex_ltb as' bs in ltb a b || (nat_beq a b && rest)

-- `s < t`
unfoldable pub str_ltb : String → String → Bool
unfolding lex_ltb
str_ltb s t = lex_ltb (codes s) (codes t)

-- `c.isspace()`
unfoldable pub is_space : ℕ → Bool
is_space c =
    (leb 9 c && leb c 13)
    || (leb 28 c && leb c 32)
    || nat_beq c 0x85
    || nat_beq c 0xa0
    || nat_beq c 0x1680
    || (leb 0x2000 c && leb c 0x200a)
    || nat_beq c 0x2028
    || nat_beq c 0x2029
    || nat_beq c 0x202f
    || nat_beq c 0x205f
    || nat_beq c 0x3000

-- `not s.strip()`: nothing but whitespace.
unfoldable pub is_blank : String → Bool
unfolding is_space
is_blank String.[] = true
is_blank (String.◌∷◌ c s) = is_space (code c) && is_blank s

codes-injective : (s t : String) → codes s ≡ codes t → s ≡ t
codes-injective String.[] String.[] h = refl
codes-injective String.[] (String.◌∷◌ d t) h = cc
codes-injective (String.◌∷◌ c s) String.[] h = cc
codes-injective (String.◌∷◌ c s) (String.◌∷◌ d t) h =
    ap₂ String.◌∷◌ (Char-path c d (cc)) (codes-injective s t (cc))

lex_asym : (s t : List ℕ) → lex_ltb s t ≡ true → lex_ltb t s ≡ false
unfolding lex_ltb
lex_asym [] [] h = cc
lex_asym [] (b ∷ t) h = refl
lex_asym (a ∷ s) [] h = cc
lex_asym (a ∷ s) (b ∷ t) h = ground (arith, lex_asym s t)

lex_connected : (s t : List ℕ) → lex_ltb s t ≡ false → lex_ltb t s ≡ false → s ≡ t
unfolding lex_ltb
lex_connected [] [] h k = refl
lex_connected [] (b ∷ t) h k = cc
lex_connected (a ∷ s) [] h k = cc
lex_connected (a ∷ s) (b ∷ t) h k = ground (arith, lex_connected s t)

lex_trans : (s t u : List ℕ) → lex_ltb s t ≡ true → lex_ltb t u ≡ true → lex_ltb s u ≡ true
unfolding lex_ltb
lex_trans [] [] u h k = cc
lex_trans [] (b ∷ t) [] h k = cc
lex_trans [] (b ∷ t) (c ∷ u) h k = refl
lex_trans (a ∷ s) [] u h k = cc
lex_trans (a ∷ s) (b ∷ t) [] h k = cc
lex_trans (a ∷ s) (b ∷ t) (c ∷ u) h k = ground (arith, lex_trans s t u)

-- The order on text is total.
pub str_order : IsOrder str_ltb (λ _. Unit)
unfolding str_ltb
str_order = record {
  asym = λ s t. lex_asym (codes s) (codes t);
  trans = λ s t u. lex_trans (codes s) (codes t) (codes u);
  connected = λ s t _ _ h k. codes-injective s t (lex_connected (codes s) (codes t) h k);
}

-- `s.lstrip()`
lstrip : String → String
unfolding is_space
lstrip String.[] = ""
lstrip (String.◌∷◌ c s) = let rest = lstrip s in if is_space (code c) then rest else String.◌∷◌ c s

cons_stripped : Bool → Char → String → String
cons_stripped true c String.[] = ""
cons_stripped _ c s = String.◌∷◌ c s

-- `s.rstrip()`
unfoldable pub rstrip : String → String
unfolding is_space cons_stripped
rstrip String.[] = ""
rstrip (String.◌∷◌ c s) = cons_stripped (is_space (code c)) c (rstrip s)

-- `s.strip()`
unfoldable pub strip : String → String
unfolding lstrip rstrip
strip s = rstrip (lstrip s)

strip_both : strip " \t low\u{3000}rise " ≡ "low\u{3000}rise"
unfolding strip
strip_both = refl
