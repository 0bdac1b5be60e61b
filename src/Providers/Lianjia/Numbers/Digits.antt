-- ===== src/Providers/Lianjia/Numbers/Digits.antt =====
-- Digits in a text: no unit stands among them, and a scan takes them for one number.
use Prim.Native.Char.{Char, code}
use Prim.Native.String.{◌++◌}
use Prim.Native.String.append
use cn_property_agent.Prelude.{
  ℕ, suc, ◌≡◌, ◌≢◌, refl, sym, ap, ◌∙◌, String, string_eq, true, false, [], ◌∷◌, arith, nat_beq,
  nat_beq_iff, Bool-cases, inl, inr, contains,
}
use cn_property_agent.Prelude.Search.{replace_from, suffix_from, text_length}
use cn_property_agent.Utils.{prefix_of}
use cn_property_agent.Providers.Lianjia.Runtime.{Runtime}
use cn_property_agent.Providers.Lianjia.Numbers.{
  number, digit_count, fraction_length, unsigned_length, number_length, pieces,
}

module _ {F : Type 0} (rt : Runtime F) where
  -- Every character is a digit.
  abbrev pub AllDigits : String → Type 0
  AllDigits String.[] = Unit
  AllDigits (String.◌∷◌ c s) = (rt.is_digit (code c) ≡ true) × AllDigits s

  -- A runtime in which the signs, the space, 万 and 元 are no digits and nothing written here has case.
  pub record KnowsUnits : Type 0 where
    pub plus : rt.is_digit 43 ≡ false
    pub minus : rt.is_digit 45 ≡ false
    pub space : rt.is_digit 32 ≡ false
    pub wan : rt.is_digit 19975 ≡ false
    pub yuan : rt.is_digit 20803 ≡ false
    pub units : (rt.text.casefold "万元" ≡ "万元") × (rt.text.casefold "万" ≡ "万")
    pub caseless :
        (s unit : String)
        → AllDigits s
        → contains unit ("" ∷ "万" ∷ "万元" ∷ "元" ∷ []) ≡ true
        → rt.text.casefold (s ++ unit) ≡ s ++ unit

  not_code :
      (c : Char) (n : ℕ)
      → rt.is_digit (code c) ≡ true
      → rt.is_digit n ≡ false
      → nat_beq (code c) n ≡ false
  not_code c n is nd = elim (Bool-cases (nat_beq (code c) n)) [
    | inl e ↦ absurd (ground (arith, nd, is, ap rt.is_digit ((nat_beq_iff (code c) n).0 e)))
    | inr e ↦ e
  ]

  -- A needle that begins with a character that is no digit does not begin at a digit.
  replace_from-digit :
      (d c : Char) (needle new s : String)
      → rt.is_digit (code d) ≡ false
      → rt.is_digit (code c) ≡ true
      → replace_from (String.◌∷◌ d needle) new 0 (String.◌∷◌ c s)
        ≡ String.◌∷◌ c (replace_from (String.◌∷◌ d needle) new 0 s)
  unfolding replace_from
  replace_from-digit d c needle new s nd is = ground (arith, not_code c (code d) is nd)

  pub replace_from-digits :
      (d : Char) (needle new s t : String)
      → rt.is_digit (code d) ≡ false
      → AllDigits s
      → replace_from (String.◌∷◌ d needle) new 0 (s ++ t)
        ≡ s ++ replace_from (String.◌∷◌ d needle) new 0 t
  replace_from-digits d needle new String.[] t nd all =
      ap (replace_from (String.◌∷◌ d needle) new 0) (append.nil t)
      ∙ sym (append.nil (replace_from (String.◌∷◌ d needle) new 0 t))
  replace_from-digits d needle new (String.◌∷◌ c s) t nd (is, all) =
      ap (replace_from (String.◌∷◌ d needle) new 0) (append.cons c s t)
      ∙ replace_from-digit d c needle new (s ++ t) nd is
      ∙ ap (String.◌∷◌ c) (replace_from-digits d needle new s t nd all)
      ∙ sym (append.cons c s (replace_from (String.◌∷◌ d needle) new 0 t))

  digit_count-digits :
      (s t : String) → AllDigits s → digit_count rt t ≡ 0 → digit_count rt (s ++ t) ≡ text_length s
  unfolding digit_count
  digit_count-digits String.[] t all end = ap (digit_count rt) (append.nil t) ∙ end
  digit_count-digits (String.◌∷◌ c s) t (is, all) end =
      ap (digit_count rt) (append.cons c s t) ∙ ground (arith, is, digit_count-digits s t all end)

  suffix_from-length : (s t : String) → suffix_from (text_length s) (s ++ t) ≡ t
  suffix_from-length String.[] t = append.nil t
  suffix_from-length (String.◌∷◌ c s) t =
      ap (suffix_from (suc (text_length s))) (append.cons c s t) ∙ suffix_from-length s t

  prefix_of-length : (s t : String) → prefix_of (text_length s) (s ++ t) ≡ s
  prefix_of-length String.[] t = refl
  prefix_of-length (String.◌∷◌ c s) t =
      ap (prefix_of (suc (text_length s))) (append.cons c s t)
      ∙ ap (String.◌∷◌ c) (prefix_of-length s t)

  pieces-skip : (s t : String) → pieces rt (text_length s) (s ++ t) ≡ pieces rt 0 t
  unfolding pieces
  pieces-skip String.[] t = ap (pieces rt 0) (append.nil t)
  pieces-skip (String.◌∷◌ c s) t =
      ap (pieces rt (suc (text_length s))) (append.cons c s t) ∙ pieces-skip s t

  -- Digits in front of what neither continues nor fractions them are one number.
  unsigned-digits :
      (s t : String)
      → AllDigits s
      → s ≢ ""
      → digit_count rt t ≡ 0
      → fraction_length rt t ≡ 0
      → unsigned_length rt (s ++ t) ≡ text_length s
  unfolding unsigned_length
  unsigned-digits String.[] t all some_digit end whole = absurd (some_digit refl)
  unsigned-digits (String.◌∷◌ c s) t all some_digit end whole = ground (
    arith,
    digit_count-digits (String.◌∷◌ c s) t all end,
    ap (fraction_length rt) (suffix_from-length (String.◌∷◌ c s) t),
    whole,
  )

  number_length-digits :
      (c : Char) (s t : String)
      → KnowsUnits
      → rt.is_digit (code c) ≡ true
      → AllDigits s
      → digit_count rt t ≡ 0
      → fraction_length rt t ≡ 0
      → number_length rt (String.◌∷◌ c (s ++ t)) ≡ suc (text_length s)
  unfolding number_length
  number_length-digits c s t k is all end whole = ground (
    arith,
    not_code c 43 is k.plus,
    not_code c 45 is k.minus,
    ap (unsigned_length rt) (sym (append.cons c s t))
        ∙ unsigned-digits (String.◌∷◌ c s) t (is, all) (λ e. cc) end whole,
  )

  pub pieces-digits :
      KnowsUnits
      → (s t : String) → AllDigits s
      → s ≢ ""
      → digit_count rt t ≡ 0
      → fraction_length rt t ≡ 0
      → pieces rt 0 (s ++ t) ≡ number s ∷ pieces rt 0 t
  unfolding pieces
  pieces-digits k String.[] t all some_digit end whole = absurd (some_digit refl)
  pieces-digits k (String.◌∷◌ c s) t (is, all) some_digit end whole =
      ap (pieces rt 0) (append.cons c s t)
      ∙ ground (
        arith,
        number_length-digits c s t k is all end whole,
        ap (prefix_of (suc (text_length s))) (sym (append.cons c s t))
            ∙ prefix_of-length (String.◌∷◌ c s) t,
        pieces-skip s t,
      )
