-- ===== src/Providers/Lianjia/Runtime.antt =====
-- What providers/lianjia/ calls in the Python runtime and in pydantic: the tables of Unicode, the
-- conversions between text and numbers, ISO-8601 timestamps, and the trimming of a model's texts.
use cn_property_agent.Prelude.{ℕ, String, Bool, Option}
use cn_property_agent.Prelude.Int.{ℤ}
use cn_property_agent.Domain.Common.{Instant}
use cn_property_agent.Utils.{TextTools}

pub record Runtime (F : Type 0) : Type 0 where
  pub text : TextTools
  -- `\d` of a pattern, by the code point, and the value of such a digit
  pub is_digit : ℕ → Bool
  pub digit_value : ℕ → ℕ
  -- `float(text)` of a text that the number pattern matches
  pub float_of : String → F
  -- `str(value)` of a float
  pub float_text : F → String
  -- `int(value)` where `value.is_integer()`, and its text
  pub whole : F → Option ℤ
  pub int_text : ℤ → String
  -- `datetime.fromisoformat`: `none` where it raises; inside, `none` for a time with no offset
  pub from_iso_format : String → Option (Option Instant)
  -- `str_strip_whitespace` of a model
  pub trim : String → String
