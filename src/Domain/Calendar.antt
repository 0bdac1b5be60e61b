-- ===== src/Domain/Calendar.antt =====
-- `datetime.date(year, month, day)` of the Python library, as the ordinal of the day.
pub mod Order
use cn_property_agent.Prelude.{
  ℕ, zero, suc, ◌+◌, ◌-◌, ◌*◌, ◌/◌, ◌%◌, Bool, not, ◌&&◌, ◌||◌, Option, none, some, leb, nat_beq,
  if◌then◌else◌,
}
use cn_property_agent.Domain.Common.{Date}

unfoldable pub is_leap : ℕ → Bool
is_leap y = nat_beq (y % 4) 0 && (not (nat_beq (y % 100) 0) || nat_beq (y % 400) 0)

unfoldable pub days_in_month : ℕ → ℕ → ℕ
unfolding is_leap
days_in_month y m =
    if nat_beq m 2
    then (if is_leap y then 29 else 28)
    else if nat_beq m 4 || (nat_beq m 6 || (nat_beq m 9 || nat_beq m 11))
    then 30
    else 31

-- The days of the months before month `m`.
unfoldable pub days_before_month : ℕ → ℕ → ℕ
unfolding days_in_month
days_before_month y zero = 0
days_before_month y (suc zero) = 0
days_before_month y (suc (suc m)) = days_before_month y (suc m) + days_in_month y (suc m)

unfoldable pub days_before_year : ℕ → ℕ
days_before_year y = let p = y - 1 in p * 365 + p / 4 - p / 100 + p / 400

unfoldable pub is_date : ℕ → ℕ → ℕ → Bool
unfolding days_in_month
is_date y m d =
    leb 1 y && (leb y 9999 && (leb 1 m && (leb m 12 && (leb 1 d && leb d (days_in_month y m)))))

-- `none` where the constructor raises ValueError.
unfoldable pub date_of : ℕ → ℕ → ℕ → Option Date
unfolding is_date days_before_month days_before_year
date_of y m d =
    if is_date y m d then some (days_before_year y + days_before_month y m + d) else none
