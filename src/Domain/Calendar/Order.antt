-- ===== src/Domain/Calendar/Order.antt =====
-- The days of the calendar lie between the first and the last one that the library can name.
use cn_property_agent.Prelude.{ℕ, zero, suc, ◌+◌, ◌≡◌, ◌≤◌, ◌<◌, ◌⊎◌, inl, inr, false, some, arith}
use cn_property_agent.Domain.Common.{Date, max_date}
use cn_property_agent.Domain.Calendar.{
  is_leap, days_in_month, days_before_month, days_before_year, is_date, date_of,
}

-- The last day of a month is one of the days of its year.
month_end :
    (y m : ℕ)
    → m ≤ 12
    → (days_before_month y m + days_in_month y m ≤ 366)
      × (is_leap y ≡ false → days_before_month y m + days_in_month y m ≤ 365)
unfolding days_before_month days_in_month
month_end y zero h = (ground arith, λ l. ground arith)
month_end y (suc zero) h = (ground arith, λ l. ground (arith, l))
month_end y (suc (suc zero)) h = (ground arith, λ l. ground (arith, l))
month_end y (suc (suc (suc zero))) h = (ground arith, λ l. ground (arith, l))
month_end y (suc (suc (suc (suc zero)))) h = (ground arith, λ l. ground (arith, l))
month_end y (suc (suc (suc (suc (suc zero))))) h = (ground arith, λ l. ground (arith, l))
month_end y (suc (suc (suc (suc (suc (suc zero)))))) h = (ground arith, λ l. ground (arith, l))
month_end y (suc (suc (suc (suc (suc (suc (suc zero))))))) h =
    (ground arith, λ l. ground (arith, l))
month_end y (suc (suc (suc (suc (suc (suc (suc (suc zero)))))))) h =
    (ground arith, λ l. ground (arith, l))
month_end y (suc (suc (suc (suc (suc (suc (suc (suc (suc zero))))))))) h =
    (ground arith, λ l. ground (arith, l))
month_end y (suc (suc (suc (suc (suc (suc (suc (suc (suc (suc zero)))))))))) h =
    (ground arith, λ l. ground (arith, l))
month_end y (suc (suc (suc (suc (suc (suc (suc (suc (suc (suc (suc zero))))))))))) h =
    (ground arith, λ l. ground (arith, l))
month_end y (suc (suc (suc (suc (suc (suc (suc (suc (suc (suc (suc (suc zero)))))))))))) h =
    (ground arith, λ l. ground (arith, l))
month_end y (suc (suc (suc (suc (suc (suc (suc (suc (suc (suc (suc (suc (suc m))))))))))))) h =
    absurd (omega (arith, h))

-- The years before the last one leave room for a whole year.
early_year : (y : ℕ) → y < 9999 → days_before_year y + 366 ≤ max_date
unfolding days_before_year
early_year y h = omega (arith, h)

last_year : (y : ℕ) → y ≡ 9999 → days_before_year y + 365 ≤ max_date
unfolding days_before_year
last_year y h = omega (arith, h)

last_year_plain : (y : ℕ) → y ≡ 9999 → is_leap y ≡ false
unfolding is_leap
last_year_plain y h = ground (arith, h)

split_at : (n y : ℕ) → (n ≤ y) ⊎ (y < n)
split_at n y = ground arith

pub date_of-bounded :
    (y m d : ℕ) (date : Date) → date_of y m d ≡ some date → (1 ≤ date) × (date ≤ max_date)
unfolding date_of is_date
date_of-bounded y m d date h = elim (split_at 9999 y) [
  | inl late ↦
      (ground (arith, h), ground (arith, h, late, last_year y, last_year_plain y, month_end y m))
  | inr early ↦ (ground (arith, h), ground (arith, h, early_year y early, month_end y m))
]
