-- ===== src/Providers/Lianjia/Numbers.antt =====
-- providers/lianjia/values.py: cells as text, and the numbers in them. The pattern
-- `[+-]?\d+(?:\.\d+)?` is the function `number_length`, which a scan applies from left to right.
pub mod Digits
pub mod Prices
use Prim.Native.Char.{Char, code}
use cn_property_agent.Prelude.{
  ℕ, zero, suc, ◌+◌, String, string_eq, Bool, not, ◌&&◌, ◌||◌, Option, none, some, List, [], ◌∷◌,
  Result, ok, err, ◌>>=◌, contains, filter_map, nat_beq, if◌then◌else◌,
}
use cn_property_agent.Prelude.Int.{ℤ}
use cn_property_agent.Prelude.Text.{is_blank, strip}
use cn_property_agent.Prelude.Search.{suffix_from, replace, without_spaces}
use cn_property_agent.Floats.{Floats}
use cn_property_agent.Utils.{prefix_of}
use cn_property_agent.Providers.Parsing.{FieldParseError, malformed_field}
use cn_property_agent.Providers.Lianjia.Runtime.{Runtime}

abbrev pub lianjia_source : String
lianjia_source = "lianjia"

abbrev pub unknown_markers : List String
unknown_markers =
    "" ∷ "-" ∷ "--" ∷ "—" ∷ "暂无数据" ∷ "暂无" ∷ "未知" ∷ "无" ∷ "null" ∷ "none" ∷ "nan" ∷ "n/a" ∷ []

abbrev pub area_units : List String
area_units = "平方米" ∷ "平方公尺" ∷ "平米" ∷ "平方" ∷ "m2" ∷ "㎡" ∷ "平" ∷ []

abbrev pub wan_units : List String
wan_units = "万元" ∷ "万" ∷ []

abbrev pub unit_price_units : List String
unit_price_units = "元/平方米" ∷ "元/平米" ∷ "元/m2" ∷ "元/㎡" ∷ "元每平米" ∷ "元" ∷ "/" ∷ area_units

abbrev pub day_units : List String
day_units = "天" ∷ "日" ∷ "days" ∷ "day" ∷ []

abbrev pub year_units : List String
year_units = "年建成" ∷ "年建" ∷ "年代" ∷ "年份" ∷ "年" ∷ []

-- A raw value, by what the code tells apart. A value of any other type is its `str`.
pub data RawCell (F : Type 0) : Type 0 where
  missing : RawCell F
  bool_cell : Bool → RawCell F
  float_cell : F → RawCell F
  text_cell : String → RawCell F

-- `FieldParseError(…, field=field)`
abbrev pub malformed : {A : Type 0} → Option String → Result FieldParseError A
malformed field = err (record { field = field; reason = malformed_field })

-- A part of a text that was scanned for numbers.
pub data Piece : Type 0 where
  number : String → Piece
  other : Char → Piece

abbrev pub number_of : Piece → Option String
number_of (number s) = some s
number_of (other c) = none

-- `_NUMBER.sub(" ", text)`
unfoldable pub blanked : List Piece → String
blanked [] = ""
blanked (number s ∷ ps) = String.◌∷◌ " " (blanked ps)
blanked (other c ∷ ps) = String.◌∷◌ c (blanked ps)

module _ {F : Type 0} (rt : Runtime F) where
  unfoldable pub cell_text : F → String
  cell_text value = elim (rt.whole value) [ some n ↦ rt.int_text n | none ↦ rt.float_text value ]

  -- The text of `normalize_cell`, from `unicodedata.normalize` on.
  unfoldable pub clean : String → Option String
  unfolding strip replace
  clean s =
      let text = replace "\u{3000}" " " (replace "," "" (strip (rt.text.nfkc s))) in
      if contains (rt.text.casefold text) unknown_markers then none else some text

  unfoldable pub normalize_cell : RawCell F → Result FieldParseError (Option String)
  unfolding clean cell_text
  normalize_cell missing = ok none
  normalize_cell (bool_cell b) = malformed none
  normalize_cell (float_cell value) = ok (clean (cell_text value))
  normalize_cell (text_cell s) = ok (clean s)

  unfoldable pub normalize_key : String → String
  unfolding without_spaces
  normalize_key key = rt.text.casefold (without_spaces (rt.text.nfkc key))

  -- How many digits a text begins with.
  unfoldable pub digit_count : String → ℕ
  digit_count String.[] = 0
  digit_count (String.◌∷◌ c s) =
      let rest = digit_count s in if rt.is_digit (code c) then suc rest else 0

  -- `(?:\.\d+)?`
  unfoldable pub fraction_length : String → ℕ
  unfolding digit_count
  fraction_length String.[] = 0
  fraction_length (String.◌∷◌ c s) =
      let n = digit_count s in if nat_beq (code c) 46 && not (nat_beq n 0) then suc n else 0

  -- `\d+(?:\.\d+)?`, 0 where it does not match
  unfoldable pub unsigned_length : String → ℕ
  unfolding digit_count fraction_length
  unsigned_length s =
      let n = digit_count s in if nat_beq n 0 then 0 else n + fraction_length (suffix_from n s)

  -- The sign is taken only in front of a number.
  unfoldable pub signed_length : ℕ → ℕ
  signed_length zero = 0
  signed_length (suc n) = suc (suc n)

  unfoldable pub number_length : String → ℕ
  unfolding unsigned_length signed_length
  number_length String.[] = 0
  number_length (String.◌∷◌ c s) =
      if nat_beq (code c) 43 || nat_beq (code c) 45
      then signed_length (unsigned_length s)
      else unsigned_length (String.◌∷◌ c s)

  -- The pieces past the next `skip` characters.
  unfoldable pub pieces : ℕ → String → List Piece
  unfolding number_length
  pieces skip String.[] = []
  pieces (suc skip) (String.◌∷◌ c s) = pieces skip s
  pieces zero (String.◌∷◌ c s) = elim (number_length (String.◌∷◌ c s)) [
    | zero ↦ other c ∷ pieces zero s
    | suc n ↦ number (prefix_of (suc n) (String.◌∷◌ c s)) ∷ pieces n s
  ]

  -- `residual = residual.replace(unit.casefold(), " ")` for each unit
  unfoldable pub without_units : List String → String → String
  unfolding replace
  without_units [] s = s
  without_units (unit ∷ units) s = without_units units (replace (rt.text.casefold unit) " " s)

  -- `len(matches) != 1`, then what is left over
  unfoldable pub one_number : List String → List Piece → Option String → Result FieldParseError F
  unfolding blanked is_blank
  one_number (s ∷ []) ps field =
      if is_blank (blanked ps) then ok (rt.float_of s) else malformed field
  one_number _ ps field = malformed field

  unfoldable pub parse_number : List String → String → Option String → Result FieldParseError F
  unfolding without_units pieces one_number
  parse_number units text field =
      let ps = pieces 0 (without_units units (rt.text.casefold text)) in
      one_number (filter_map number_of ps) ps field

  unfoldable pub parse_int : List String → String → Option String → Result FieldParseError ℤ
  unfolding parse_number
  parse_int units text field = do
    value ← parse_number units text field
    elim (rt.whole value) [ none ↦ malformed field | some n ↦ ok n ]

  unfoldable pub parse_area_sqm : String → Option String → Result FieldParseError F
  unfolding parse_number
  parse_area_sqm = parse_number area_units

  unfoldable pub parse_unit_price_cny_sqm : String → Option String → Result FieldParseError F
  unfolding parse_number
  parse_unit_price_cny_sqm = parse_number unit_price_units

  unfoldable pub parse_days : String → Option String → Result FieldParseError ℤ
  unfolding parse_int
  parse_days = parse_int day_units

  unfoldable pub parse_year : String → Option String → Result FieldParseError ℤ
  unfolding parse_int
  parse_year = parse_int year_units

-- `10_000.0`
abbrev pub cny_per_wan : {F : Type 0} ⦃fl : Floats F⦄ → F
cny_per_wan ⦃fl⦄ = fl.ratio 10000 1

module _ {F : Type 0} ⦃fl : Floats F⦄ (rt : Runtime F) where
  unfoldable pub parse_wan_to_cny : String → Option String → Result FieldParseError F
  unfolding parse_number
  parse_wan_to_cny text field = do
    value ← parse_number rt wan_units text field
    ok (fl.mul value cny_per_wan)
