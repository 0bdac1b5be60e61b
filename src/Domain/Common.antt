-- ===== src/Domain/Common.antt =====
-- domain/common.py, and the times that the records carry.
use cn_property_agent.Prelude.{
  ℕ, ◌/◌, string_eq, String, Bool, true, not, Option, none, some, Result, ok, err, ◌==◌, ◌&&◌,
  if◌then◌else◌,
}
use cn_property_agent.Prelude.Int.{ℤ, pos, leb_ℤ}
use cn_property_agent.Floats.{Floats}

-- A `date` by its ordinal, day 1 being 0001-01-01.
abbrev pub Date : Type 0
Date = ℕ

-- `date.max.toordinal()`
abbrev pub max_date : Date
max_date = 3652059

-- An aware `datetime` by the microseconds of its UTC value since ordinal 0. Python compares
-- aware datetimes by that value.
abbrev pub Instant : Type 0
Instant = ℕ

abbrev pub day_microseconds : ℕ
day_microseconds = 86400000000

-- `t.astimezone(UTC).date()`
unfoldable pub utc_date : Instant → Date
utc_date t = t / day_microseconds

pub data FloorBucket : Type 0 where
  low mid high unknown : FloorBucket

pub data ListingStatus : Type 0 where
  active sold withdrawn off_market unknown : ListingStatus

-- The exceptions that the modelled code raises itself or lets through.
pub data Raised : Type 0 where
  -- pydantic's ValidationError, and `ValueError`
  validation_error value_error overflow_error zero_division_error : Raised
  -- services/errors.py
  provider_fetch_error provider_contract_error : Raised
  -- a constraint of the database schema
  constraint_error : Raised

-- `Model(**fields)`: pydantic raises unless the fields pass.
abbrev pub validated : {A : Type 0} → (A → Bool) → A → Result Raised A
validated valid a = if valid a then ok a else err validation_error

-- `Field(min_length=1)`
abbrev pub nonempty : String → Bool
nonempty s = not (s == "")

-- A constraint on an optional field, which `None` passes.
abbrev pub optional : {A : Type 0} → (A → Bool) → Option A → Bool
optional p none = true
optional p (some a) = p a

-- `Field(ge=1800, le=2200)`
abbrev pub plausible_year : ℤ → Bool
plausible_year y = leb_ℤ (pos 1800) y && leb_ℤ y (pos 2200)

-- `Field(gt=0)` on a float
abbrev pub positive : {F : Type 0} ⦃fl : Floats F⦄ → F → Bool
positive ⦃fl⦄ x = fl.lt fl.zero_f x
