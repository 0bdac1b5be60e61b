-- ===== src/Providers/Lianjia/Wording/Dates.antt =====
-- A date that is written out in either of the source's layouts is read back.
use Prim.Native.Char.{Char, code}
use cn_property_agent.Prelude.{
  ℕ, zero, suc, ◌+◌, ◌*◌, ◌/◌, ◌%◌, ◌≡◌, ◌<◌, refl, ap, ◌∙◌, String, Bool, true, false, Option,
  some, none, arith, ok, nat_beq,
}
use cn_property_agent.Domain.Common.{Date}
use cn_property_agent.Domain.Calendar.{
  is_date, date_of, days_in_month, days_before_year, days_before_month,
}
use cn_property_agent.Providers.Lianjia.Runtime.{Runtime}
use cn_property_agent.Providers.Lianjia.Wording.{
  take_digits, digits, past_one, is_separator, at_end, at_end_past_mark, match_date, first_match,
  parse_deal_date, year_mark, month_mark,
}

-- A digit of the ASCII block.
unfoldable pub digit_char : ℕ → Char
digit_char zero = "0"
digit_char (suc zero) = "1"
digit_char (suc (suc zero)) = "2"
digit_char (suc (suc (suc zero))) = "3"
digit_char (suc (suc (suc (suc zero)))) = "4"
digit_char (suc (suc (suc (suc (suc zero))))) = "5"
digit_char (suc (suc (suc (suc (suc (suc zero)))))) = "6"
digit_char (suc (suc (suc (suc (suc (suc (suc zero))))))) = "7"
digit_char (suc (suc (suc (suc (suc (suc (suc (suc zero)))))))) = "8"
digit_char _ = "9"

-- `f"{y:04}{after_year}{m:02}{after_month}{d:02}{end}"`
unfoldable pub date_text : Char → Char → String → ℕ → ℕ → ℕ → String
date_text after_year after_month end y m d = String.◌∷◌ (digit_char (y / 1000)) (
    String.◌∷◌ (digit_char (y / 100 % 10)) (
      String.◌∷◌ (digit_char (y / 10 % 10)) (
        String.◌∷◌ (digit_char (y % 10)) (
          String.◌∷◌ after_year (
            String.◌∷◌ (digit_char (m / 10)) (
              String.◌∷◌ (digit_char (m % 10)) (
                String.◌∷◌ after_month
                  (String.◌∷◌ (digit_char (d / 10)) (String.◌∷◌ (digit_char (d % 10)) end)))))))))

-- A runtime whose digits have, in the ASCII block, their values, and are none of the marks.
pub record HasAsciiDigits {F : Type 0} (rt : Runtime F) : Type 0 where
  pub ascii : (n : ℕ) → n < 10 → (rt.is_digit (48 + n) ≡ true) × (rt.digit_value (48 + n) ≡ n)

code-digit_char : (n : ℕ) → n < 10 → code (digit_char n) ≡ 48 + n
unfolding digit_char
code-digit_char zero h = refl
code-digit_char (suc zero) h = refl
code-digit_char (suc (suc zero)) h = refl
code-digit_char (suc (suc (suc zero))) h = refl
code-digit_char (suc (suc (suc (suc zero)))) h = refl
code-digit_char (suc (suc (suc (suc (suc zero))))) h = refl
code-digit_char (suc (suc (suc (suc (suc (suc zero)))))) h = refl
code-digit_char (suc (suc (suc (suc (suc (suc (suc zero))))))) h = refl
code-digit_char (suc (suc (suc (suc (suc (suc (suc (suc zero)))))))) h = refl
code-digit_char (suc (suc (suc (suc (suc (suc (suc (suc (suc zero))))))))) h = refl
code-digit_char (suc (suc (suc (suc (suc (suc (suc (suc (suc (suc n)))))))))) h =
    absurd (omega (arith, h))

some_triple :
    {a a' b b' c c' : ℕ}
    → a ≡ a'
    → b ≡ b'
    → c ≡ c'
    → ◌≡◌ {A = Option (ℕ × ℕ × ℕ)} (some (a, b, c)) (some (a', b', c'))
some_triple p q r = λ i. some (p i, q i, r i)

module _ {F : Type 0} (rt : Runtime F) where
  abbrev IsDigit : Char → ℕ → Type 0
  IsDigit c v = (rt.is_digit (code c) ≡ true) × (rt.digit_value (code c) ≡ v)

  take-step :
      (most value v : ℕ) (c : Char) (s : String)
      → IsDigit c v
      → (count total : ℕ) (rest : String)
      → take_digits rt most (value * 10 + v) s ≡ (count, total, rest)
      → take_digits rt (suc most) value (String.◌∷◌ c s) ≡ (suc count, total, rest)
  unfolding take_digits
  take-step most value v c s (is, val) count total rest h = ground (arith, is, val, h)

  four :
      (a b c d : Char) (p q r t : ℕ) (s : String)
      → IsDigit a p
      → IsDigit b q
      → IsDigit c r
      → IsDigit d t
      → digits rt 4 4 (String.◌∷◌ a (String.◌∷◌ b (String.◌∷◌ c (String.◌∷◌ d s))))
        ≡ some (((p * 10 + q) * 10 + r) * 10 + t, s)
  unfolding take_digits
  four a b c d p q r t s x y z w = ground (arith, x, y, z, w)

  two :
      (a b : Char) (p q : ℕ) (s : String)
      → IsDigit a p
      → IsDigit b q
      → digits rt 1 2 (String.◌∷◌ a (String.◌∷◌ b s)) ≡ some (p * 10 + q, s)
  unfolding take_digits
  two a b p q s x y = ground (arith, x, y)

  match_date-chars :
      (after_year after_month : ℕ → Bool) (ends : String → Bool) (a b : Char) (end : String)
      → after_year (code a) ≡ true
      → after_month (code b) ≡ true
      → ends end ≡ true
      → (c1 c2 c3 c4 m1 m2 d1 d2 : Char) (v1 v2 v3 v4 u1 u2 w1 w2 : ℕ) → IsDigit c1 v1
      → IsDigit c2 v2
      → IsDigit c3 v3
      → IsDigit c4 v4
      → IsDigit m1 u1
      → IsDigit m2 u2
      → IsDigit d1 w1
      → IsDigit d2 w2
      → match_date rt after_year after_month ends (
          String.◌∷◌ c1 (
            String.◌∷◌ c2 (
              String.◌∷◌ c3 (
                String.◌∷◌ c4 (
                  String.◌∷◌ a (
                    String.◌∷◌ m1
                      (String.◌∷◌ m2 (String.◌∷◌ b (String.◌∷◌ d1 (String.◌∷◌ d2 end))))))))))
        ≡ some (((v1 * 10 + v2) * 10 + v3) * 10 + v4, u1 * 10 + u2, w1 * 10 + w2)
  unfolding match_date past_one
  match_date-chars after_year after_month ends a b end ha hb he c1 c2 c3 c4 m1 m2 d1 d2 v1 v2 v3 v4
        u1 u2 w1 w2 e1 e2 e3 e4 f1 f2 g1 g2 =
      let after_y =
        String.◌∷◌ m1 (String.◌∷◌ m2 (String.◌∷◌ b (String.◌∷◌ d1 (String.◌∷◌ d2 end)))) in
      ground (
        arith,
        ha,
        hb,
        he,
        four c1 c2 c3 c4 v1 v2 v3 v4 (String.◌∷◌ a after_y) e1 e2 e3 e4,
        two m1 m2 u1 u2 (String.◌∷◌ b (String.◌∷◌ d1 (String.◌∷◌ d2 end))) f1 f2,
        two d1 d2 w1 w2 end g1 g2,
      )

  -- A pattern that wants another character behind the year does not match.
  match_date-other :
      (after_year after_month : ℕ → Bool) (ends : String → Bool) (a : Char) (s : String)
      → after_year (code a) ≡ false
      → (c1 c2 c3 c4 : Char) (v1 v2 v3 v4 : ℕ) → IsDigit c1 v1
      → IsDigit c2 v2
      → IsDigit c3 v3
      → IsDigit c4 v4
      → match_date rt after_year after_month ends
          (String.◌∷◌ c1 (String.◌∷◌ c2 (String.◌∷◌ c3 (String.◌∷◌ c4 (String.◌∷◌ a s)))))
        ≡ none
  unfolding match_date past_one
  match_date-other after_year after_month ends a s ha c1 c2 c3 c4 v1 v2 v3 v4 e1 e2 e3 e4 =
      ground (arith, ha, four c1 c2 c3 c4 v1 v2 v3 v4 (String.◌∷◌ a s) e1 e2 e3 e4)

  module _ (known : HasAsciiDigits rt) where
    IsDigit-char : (n : ℕ) → n < 10 → IsDigit (digit_char n) n
    IsDigit-char n h =
        let (is, val) = known.ascii n h in
        (ap rt.is_digit (code-digit_char n h) ∙ is, ap rt.digit_value (code-digit_char n h) ∙ val)

    -- The value of four digits.
    four_value : (y : ℕ) → ((y / 1000 * 10 + y / 100 % 10) * 10 + y / 10 % 10) * 10 + y % 10 ≡ y
    four_value y = omega arith

    match_date-text :
        (after_year after_month : ℕ → Bool) (ends : String → Bool) (a b : Char) (end : String)
        → after_year (code a) ≡ true
        → after_month (code b) ≡ true
        → ends end ≡ true
        → (y m d : ℕ) → y < 10000
        → m < 100
        → d < 100
        → match_date rt after_year after_month ends (date_text a b end y m d) ≡ some (y, m, d)
    unfolding date_text
    match_date-text after_year after_month ends a b end ha hb he y m d hy hm hd =
        match_date-chars after_year after_month ends a b end ha hb he (digit_char (y / 1000))
          (digit_char (y / 100 % 10)) (digit_char (y / 10 % 10)) (digit_char (y % 10))
          (digit_char (m / 10)) (digit_char (m % 10)) (digit_char (d / 10)) (digit_char (d % 10))
          (y / 1000) (y / 100 % 10) (y / 10 % 10) (y % 10) (m / 10) (m % 10) (d / 10) (d % 10)
          (IsDigit-char (y / 1000) (omega (arith, hy))) (IsDigit-char (y / 100 % 10) (omega arith))
          (IsDigit-char (y / 10 % 10) (omega arith)) (IsDigit-char (y % 10) (omega arith))
          (IsDigit-char (m / 10) (omega (arith, hm))) (IsDigit-char (m % 10) (omega arith))
          (IsDigit-char (d / 10) (omega (arith, hd))) (IsDigit-char (d % 10) (omega arith))
        ∙ some_triple (four_value y) (omega arith) (omega arith)

    not_dashed :
        (end : String) (y m d : ℕ)
        → y < 10000
        → match_date rt is_separator is_separator at_end (date_text "年" "月" end y m d) ≡ none
    unfolding date_text
    not_dashed end y m d hy =
        match_date-other is_separator is_separator at_end "年"
          (String.◌∷◌ (digit_char (m / 10)) (
            String.◌∷◌ (digit_char (m % 10)) (
              String.◌∷◌ "月"
                (String.◌∷◌ (digit_char (d / 10)) (String.◌∷◌ (digit_char (d % 10)) end)))))
          refl (digit_char (y / 1000)) (digit_char (y / 100 % 10)) (digit_char (y / 10 % 10))
          (digit_char (y % 10)) (y / 1000) (y / 100 % 10) (y / 10 % 10) (y % 10)
          (IsDigit-char (y / 1000) (omega (arith, hy))) (IsDigit-char (y / 100 % 10) (omega arith))
          (IsDigit-char (y / 10 % 10) (omega arith)) (IsDigit-char (y % 10) (omega arith))

    first_match-dashed :
        (a b : Char) (y m d : ℕ)
        → is_separator (code a) ≡ true
        → is_separator (code b) ≡ true
        → y < 10000
        → m < 100
        → d < 100
        → first_match rt (date_text a b "" y m d) ≡ some (y, m, d)
    unfolding first_match
    first_match-dashed a b y m d ha hb hy hm hd =
        ground
          (arith, match_date-text is_separator is_separator at_end a b "" ha hb refl y m d hy hm hd)

    first_match-marked :
        (end : String) (y m d : ℕ)
        → at_end_past_mark end ≡ true
        → y < 10000
        → m < 100
        → d < 100
        → first_match rt (date_text "年" "月" end y m d) ≡ some (y, m, d)
    unfolding first_match
    first_match-marked end y m d he hy hm hd = ground (
      arith,
      not_dashed end y m d hy,
      match_date-text (nat_beq year_mark) (nat_beq month_mark) at_end_past_mark "年" "月" end refl
          refl he y m d hy hm hd,
    )

    small : (y m d : ℕ) → is_date y m d ≡ true → (y < 10000) × (m < 100) × (d < 100)
    unfolding is_date days_in_month
    small y m d h = (ground (arith, h), ground (arith, h), ground (arith, h))

    -- Where the digits of the ASCII block have their values, a calendar date that is written as
    -- four, two and two digits, with any of `-`, `/` and `.` between them, or with 年, 月 and an
    -- optional 日, is read back as that very day.
    pub parse_deal_date_roundtrip :
        (y m d : ℕ) (field : Option String)
        → is_date y m d ≡ true
        → (date : Date) × (date_of y m d ≡ some date)
          × ((a b : Char)
              → is_separator (code a) ≡ true
              → is_separator (code b) ≡ true
              → parse_deal_date rt (date_text a b "" y m d) field ≡ ok date)
          × (parse_deal_date rt (date_text "年" "月" "日" y m d) field ≡ ok date)
          × (parse_deal_date rt (date_text "年" "月" "" y m d) field ≡ ok date)
    unfolding parse_deal_date at_end_past_mark at_end date_of
    parse_deal_date_roundtrip y m d field h =
        let (hy, hm, hd) = small y m d h in
        (
          days_before_year y + days_before_month y m + d,
          ground (arith, h),
          λ a b ha hb. ground (arith, h, first_match-dashed a b y m d ha hb hy hm hd),
          ground (arith, h, first_match-marked "日" y m d refl hy hm hd),
          ground (arith, h, first_match-marked "" y m d refl hy hm hd),
        )
