-- ===== src/Providers/Lianjia/Numbers/Prices.antt =====
-- What the converter of wan takes for a price, and that it refuses a price in yuan.
use Prim.Native.Char.{Char, code}
use Prim.Native.String.{◌++◌}
use cn_property_agent.Prelude.{
  ◌≡◌, ◌≢◌, refl, ap, ◌∙◌, String, string_eq, true, false, Option, List, [], ◌∷◌, arith, Result, ok,
  nat_beq, ◌||◌, contains, filter_map,
}
use cn_property_agent.Prelude.Search.{replace}
use cn_property_agent.Floats.{Floats}
use cn_property_agent.Providers.Parsing.{FieldParseError}
use cn_property_agent.Providers.Lianjia.Runtime.{Runtime}
use cn_property_agent.Providers.Lianjia.Numbers.{
  wan_units, malformed, Piece, number, other, number_of, digit_count, fraction_length,
  unsigned_length, number_length, pieces, without_units, one_number, parse_number, parse_wan_to_cny,
}
use cn_property_agent.Providers.Lianjia.Numbers.Digits.{
  AllDigits, KnowsUnits, replace_from-digits, pieces-digits,
}

module _ {F : Type 0} (rt : Runtime F) where
  -- What the units leave of a price.
  without_wan :
      KnowsUnits rt
      → (s t : String) → AllDigits rt s
      → without_units rt wan_units (s ++ t) ≡ s ++ replace "万" " " (replace "万元" " " t)
  unfolding without_units replace
  without_wan k s t all =
      ap (λ u. replace u " " (replace (rt.text.casefold "万元") " " (s ++ t))) k.units.1
      ∙ ap (λ u. replace "万" " " (replace u " " (s ++ t))) k.units.0
      ∙ ap (replace "万" " ") (replace_from-digits rt "万" "元" " " s t k.wan all)
      ∙ replace_from-digits rt "万" "" " " s (replace "万元" " " t) k.wan all

  module _ (k : KnowsUnits rt) (s : String) (all : AllDigits rt s) (some_digit : s ≢ "")
      (field : Option String) where
    -- The digits, with what is left of the unit behind them.
    read :
        (unit left : String)
        → contains unit ("" ∷ "万" ∷ "万元" ∷ "元" ∷ []) ≡ true
        → replace "万" " " (replace "万元" " " unit) ≡ left
        → digit_count rt left ≡ 0
        → fraction_length rt left ≡ 0
        → parse_number rt wan_units (s ++ unit) field
          ≡ one_number rt
              (filter_map number_of (number s ∷ pieces rt 0 left))
              (number s ∷ pieces rt 0 left)
              field
    unfolding parse_number
    read unit left known leaves end whole =
        ap (λ ps. one_number rt (filter_map number_of ps) ps field)
          (ap (λ text. pieces rt 0 (without_units rt wan_units text)) (k.caseless s unit all known)
            ∙ ap (pieces rt 0) (without_wan k s unit all)
            ∙ ap (λ l. pieces rt 0 (s ++ l)) leaves
            ∙ pieces-digits rt k s left all some_digit end whole)

    -- What one character that is left makes of the number.
    lone :
        (c : Char)
        → rt.is_digit (code c) ≡ false
        → (nat_beq (code c) 43 || nat_beq (code c) 45) ≡ false
        → pieces rt 0 (String.◌∷◌ c "") ≡ other c ∷ []
    unfolding pieces number_length unsigned_length digit_count
    lone c nd unsigned = ground (arith, nd, unsigned)

    settled : List Piece → Result FieldParseError F
    settled ps = one_number rt (filter_map number_of (number s ∷ ps)) (number s ∷ ps) field

    parse_number-bare : parse_number rt wan_units (s ++ "") field ≡ ok (rt.float_of s)
    unfolding pieces one_number digit_count fraction_length replace
    parse_number-bare = read "" "" refl refl refl refl ∙ refl

    parse_number-wan : parse_number rt wan_units (s ++ "万") field ≡ ok (rt.float_of s)
    unfolding one_number settled digit_count fraction_length replace
    parse_number-wan =
        read "万" " " refl refl (ground (arith, k.space)) refl ∙ ap settled (lone " " k.space refl)

    parse_number-wan_yuan : parse_number rt wan_units (s ++ "万元") field ≡ ok (rt.float_of s)
    unfolding one_number settled digit_count fraction_length replace
    parse_number-wan_yuan =
        read "万元" " " refl refl (ground (arith, k.space)) refl ∙ ap settled (lone " " k.space refl)

    parse_number-yuan : parse_number rt wan_units (s ++ "元") field ≡ malformed field
    unfolding one_number settled digit_count fraction_length replace
    parse_number-yuan =
        read "元" "元" refl refl (ground (arith, k.yuan)) refl ∙ ap settled (lone "元" k.yuan refl)

module _ {F : Type 0} ⦃fl : Floats F⦄ (rt : Runtime F) where
  -- For a text of one or more digits, in a runtime in which the signs, the space, 万 and 元 are no
  -- digits and none of these has case: the converter of wan takes the digits alone, with 万 and
  -- with 万元 for ten thousand times their number, and refuses them with 元 as a malformed field.
  pub parse_wan_to_cny_units :
      KnowsUnits rt
      → (s : String) → AllDigits rt s
      → s ≢ ""
      → (field : Option String)
      → (parse_wan_to_cny rt (s ++ "") field ≡ ok (fl.mul (rt.float_of s) (fl.ratio 10000 1)))
        × (parse_wan_to_cny rt (s ++ "万") field ≡ ok (fl.mul (rt.float_of s) (fl.ratio 10000 1)))
        × (parse_wan_to_cny rt (s ++ "万元") field ≡ ok (fl.mul (rt.float_of s) (fl.ratio 10000 1)))
        × (parse_wan_to_cny rt (s ++ "元") field ≡ malformed field)
  unfolding parse_wan_to_cny
  parse_wan_to_cny_units k s all some_digit field = (
    ground (arith, parse_number-bare rt k s all some_digit field),
    ground (arith, parse_number-wan rt k s all some_digit field),
    ground (arith, parse_number-wan_yuan rt k s all some_digit field),
    ground (arith, parse_number-yuan rt k s all some_digit field),
  )
