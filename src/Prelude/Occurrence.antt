-- ===== src/Prelude/Occurrence.antt =====
-- `needle in text` says that the text is the needle between two texts.

use Prim.Native.Char.{Char, code}
use Prim.Native.String.{String, ◌++◌}
use Prim.Native.String.append
use mathlib.Core.Path.{◌≡◌, refl, ap, ap₂, sym, ◌∙◌}
use mathlib.Core.Bool.{true}
use mathlib.Core.Logic.{◌↔◌, inl, inr}
use text.Mathlib.TextEquality.{Char-path}
use native.Mathlib.Omega.{arith}
use cn_property_agent.Prelude.Tests.{nat_beq, Bool-cases}
use cn_property_agent.Prelude.Search.{has_prefix, has_text}

-- `text` has `needle` somewhere.
abbrev pub Occurs : String → String → Type 0
Occurs needle text = (front : String) × (back : String) × (text ≡ front ++ (needle ++ back))

abbrev Begins : String → String → Type 0
Begins needle text = (back : String) × (text ≡ needle ++ back)

same_char : (c d : Char) → nat_beq (code c) (code d) ≡ true → c ≡ d
same_char c d h = Char-path c d (ground (arith, h))

-- The same character in front, whichever way it is written.
Begins-cons :
    (c d : Char) (needle s : String)
    → c ≡ d
    → Begins needle s
    → Begins (String.◌∷◌ d needle) (String.◌∷◌ c s)
Begins-cons c d needle s e (back, h) = (back, ap₂ String.◌∷◌ e h ∙ sym (append.cons d needle back))

Begins-of : (needle text : String) → has_prefix needle text ≡ true → Begins needle text
Begins-of String.[] text h = (text, sym (append.nil text))
Begins-of (String.◌∷◌ d needle) String.[] h = cc
Begins-of (String.◌∷◌ d needle) (String.◌∷◌ c s) h =
    Begins-cons c d needle s (same_char c d (ground (arith, h)))
      (Begins-of needle s (ground (arith, h)))

has_prefix-append : (needle back : String) → has_prefix needle (needle ++ back) ≡ true
has_prefix-append String.[] back = refl
has_prefix-append (String.◌∷◌ d needle) back =
    ap (has_prefix (String.◌∷◌ d needle)) (append.cons d needle back)
    ∙ ground (arith, has_prefix-append needle back)

has_prefix-has_text :
    (needle text : String) → has_prefix needle text ≡ true → has_text needle text ≡ true
unfolding has_text
has_prefix-has_text needle String.[] h = h
has_prefix-has_text needle (String.◌∷◌ c s) h = ground (arith, h)

Occurs-later : (c : Char) (needle s : String) → Occurs needle s → Occurs needle (String.◌∷◌ c s)
Occurs-later c needle s (front, back, e) =
    (String.◌∷◌ c front, back, ap (String.◌∷◌ c) e ∙ sym (append.cons c front (needle ++ back)))

Occurs-here : (needle text : String) → Begins needle text → Occurs needle text
Occurs-here needle text (back, e) = ("", back, e ∙ sym (append.nil (needle ++ back)))

pub Occurs-of : (needle text : String) → has_text needle text ≡ true → Occurs needle text
unfolding has_text
Occurs-of needle String.[] h = Occurs-here needle "" (Begins-of needle "" h)
Occurs-of needle (String.◌∷◌ c s) h = elim (Bool-cases (has_prefix needle (String.◌∷◌ c s))) [
  | inl e ↦ Occurs-here needle (String.◌∷◌ c s) (Begins-of needle (String.◌∷◌ c s) e)
  | inr e ↦ Occurs-later c needle s (Occurs-of needle s (ground (arith, h, e)))
]

has_text-append : (front needle back : String) → has_text needle (front ++ (needle ++ back)) ≡ true
unfolding has_text
has_text-append String.[] needle back =
    ap (has_text needle) (append.nil (needle ++ back))
    ∙ has_prefix-has_text needle (needle ++ back) (has_prefix-append needle back)
has_text-append (String.◌∷◌ c front) needle back =
    ap (has_text needle) (append.cons c front (needle ++ back))
    ∙ ground (arith, has_text-append front needle back)

pub has_text_iff : (needle text : String) → (has_text needle text ≡ true) ↔ Occurs needle text
has_text_iff needle text = (
  Occurs-of needle text,
  λ (front, back, e). ap (has_text needle) e ∙ has_text-append front needle back,
)
