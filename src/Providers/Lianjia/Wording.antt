-- ===== src/Providers/Lianjia/Wording.antt =====
-- providers/lianjia/values.py: dates, timestamps, floors, statuses and layouts. Each pattern is a
-- function that consumes the text from the left.
pub mod Dates
pub mod Words
use Prim.Native.Char.{Char, code}
use Prim.Native.String.{◌++◌}
use cn_property_agent.Prelude.{
  ℕ, zero, suc, ◌+◌, ◌*◌, String, string_eq, Bool, true, false, not, ◌&&◌, ◌||◌, Option, none, some,
  List, [], ◌∷◌, Result, ok, err, ◌==◌, anyb, leb, filter_map, nat_beq, if◌then◌else◌,
}
use cn_property_agent.Prelude.Search.{suffix_from, has_text}
use cn_property_agent.Utils.{prefix_of}
use cn_property_agent.Domain.Common.{
  Date, Instant, FloorBucket, ListingStatus, active, sold, withdrawn, off_market,
}
use cn_property_agent.Domain.Calendar.{date_of}
use cn_property_agent.Providers.Parsing.{FieldParseError}
use cn_property_agent.Providers.Lianjia.Runtime.{Runtime}
use cn_property_agent.Providers.Lianjia.Numbers.{malformed, digit_count}

infixl 5 ◌>>=◌
abbrev pub ◌>>=◌ : {A B : Type 0} → Option A → (A → Option B) → Option B
m >>= f = elim m [ some a ↦ f a | none ↦ none ]

-- What is left of a text past a character that passes the test.
unfoldable pub past_one : (ℕ → Bool) → String → Option String
past_one test String.[] = none
past_one test (String.◌∷◌ c s) = if test (code c) then some s else none

-- `[-/.]`
abbrev pub is_separator : ℕ → Bool
is_separator c = nat_beq c 45 || (nat_beq c 47 || nat_beq c 46)

-- 年, 月, 日
abbrev pub year_mark : ℕ
year_mark = 24180

abbrev pub month_mark : ℕ
month_mark = 26376

abbrev pub day_mark : ℕ
day_mark = 26085

-- 室, 厅, 房
abbrev pub room_mark : ℕ
room_mark = 23460

abbrev pub hall_mark : ℕ
hall_mark = 21381

abbrev pub chamber_mark : ℕ
chamber_mark = 25151

is_some : {A : Type 0} → Option A → Bool
is_some none = false
is_some (some a) = true

-- `$`: the end, or a line feed in front of it
unfoldable pub at_end : String → Bool
at_end s = s == "" || s == "\n"

-- `日?$`
unfoldable pub at_end_past_mark : String → Bool
unfolding at_end
at_end_past_mark String.[] = true
at_end_past_mark (String.◌∷◌ c s) =
    if nat_beq (code c) day_mark then at_end s else at_end (String.◌∷◌ c s)

module _ {F : Type 0} (rt : Runtime F) where
  -- The value of the digits at the front, `most` of them at most, past the value `value`; and
  -- what is left.
  unfoldable pub take_digits : ℕ → ℕ → String → ℕ × ℕ × String
  take_digits zero value s = (0, value, s)
  take_digits (suc most) value String.[] = (0, value, "")
  take_digits (suc most) value (String.◌∷◌ c s) =
      let (count, total, rest) = take_digits most (value * 10 + rt.digit_value (code c)) s in
      if rt.is_digit (code c) then (suc count, total, rest) else (0, value, String.◌∷◌ c s)

  -- `\d{least,most}` with its value
  abbrev pub digits : ℕ → ℕ → String → Option (ℕ × String)
  digits least most s =
      let (count, value, rest) = take_digits most 0 s in
      if leb least count then some (value, rest) else none

  -- A year of four digits, and month and day of one or two, with what stands behind each.
  unfoldable pub match_date :
      (ℕ → Bool) → (ℕ → Bool) → (String → Bool) → String → Option (ℕ × ℕ × ℕ)
  unfolding past_one take_digits
  match_date after_year after_month ends text = do
    (year, s) ← digits 4 4 text
    s ← past_one after_year s
    (month, s) ← digits 1 2 s
    s ← past_one after_month s
    (day, s) ← digits 1 2 s
    if ends s then some (year, month, day) else none

  -- `_DATE_PATTERNS`, in order
  unfoldable pub first_match : String → Option (ℕ × ℕ × ℕ)
  unfolding match_date at_end at_end_past_mark
  first_match text = elim (match_date is_separator is_separator at_end text) [
    | some found ↦ some found
    | none ↦ match_date (nat_beq year_mark) (nat_beq month_mark) at_end_past_mark text
  ]

  unfoldable pub parse_deal_date : String → Option String → Result FieldParseError Date
  unfolding first_match date_of
  parse_deal_date text field = elim (first_match text) [
    | none ↦ malformed field
    | some (year, month, day) ↦ elim (date_of year month day) [
      | none ↦ malformed field
      | some date ↦ ok date
    ]
  ]

  -- A time with no offset is refused.
  unfoldable pub parse_aware_datetime : String → Option String → Result FieldParseError Instant
  parse_aware_datetime text field = elim (rt.from_iso_format text) [
    | none ↦ malformed field
    | some none ↦ malformed field
    | some (some t) ↦ ok t
  ]

  -- `\d+` and the mark behind it: how long both are, 0 where they do not match
  counted : ℕ → String → ℕ
  unfolding digit_count
  counted mark s =
      let n = digit_count rt s in
      if not (nat_beq n 0) && is_some (past_one (nat_beq mark) (suffix_from n s)) then suc n else 0

  -- The first of the three alternatives of `_LAYOUT` that matches here, by its length.
  layout_length : String → ℕ
  unfolding counted past_one is_some
  layout_length s =
      let rooms = counted room_mark s in
      let halls = counted hall_mark (suffix_from rooms s) in
      let chambers = counted chamber_mark s in
      let halls' = counted hall_mark (suffix_from chambers s) in
      if not (nat_beq rooms 0) && not (nat_beq halls 0)
      then rooms + halls
      else if not (nat_beq chambers 0) && not (nat_beq halls' 0)
      then chambers + halls'
      else rooms

  unfoldable pub extract_layout : String → Option String
  unfolding layout_length
  extract_layout String.[] = none
  extract_layout (String.◌∷◌ c s) = elim (layout_length (String.◌∷◌ c s)) [
    | zero ↦ extract_layout s
    | suc n ↦ some (prefix_of (suc n) (String.◌∷◌ c s))
  ]

-- `any(token in text for token in tokens)`
abbrev pub any_in : List String → String → Bool
any_in tokens text = anyb (λ token. has_text token text) tokens

-- The values of the table whose tokens the text has; each value stands in it once.
abbrev pub matched : {V : Type 0} → List (List String × V) → String → List V
matched [] text = []
matched ((tokens, value) ∷ rest) text =
    let more = matched rest text in if any_in tokens text then value ∷ more else more

-- `matched.pop()` where there is one
abbrev pub only_one : {V : Type 0} → V → List V → V
only_one default (v ∷ []) = v
only_one default _ = default

abbrev pub floor_tokens : List (List String × FloorBucket)
floor_tokens =
    ("低楼层" ∷ "低区" ∷ [], FloorBucket.low)
    ∷ ("中楼层" ∷ "中区" ∷ [], FloorBucket.mid)
    ∷ ("高楼层" ∷ "高区" ∷ [], FloorBucket.high)
    ∷ []

unfoldable pub parse_floor_bucket : String → FloorBucket
unfolding has_text
parse_floor_bucket text = only_one FloorBucket.unknown (matched floor_tokens text)

abbrev pub status_tokens : List (List String × ListingStatus)
status_tokens =
    ("在售" ∷ "出售中" ∷ "挂牌中" ∷ [], active)
    ∷ ("已成交" ∷ "成交" ∷ "已售" ∷ "售出" ∷ [], sold)
    ∷ ("已下架" ∷ "下架" ∷ "已撤牌" ∷ "撤牌" ∷ "已撤单" ∷ [], withdrawn)
    ∷ ("已停售" ∷ "停售" ∷ "暂不可售" ∷ "暂停出售" ∷ [], off_market)
    ∷ []

unfoldable pub parse_listing_status : String → ListingStatus
unfolding has_text
parse_listing_status text = only_one ListingStatus.unknown (matched status_tokens text)
