-- ===== src/Prelude/Search.antt =====
-- Python's `in`, `replace`, slices and `split` on text.
use Prim.Native.Nat.{ℕ, zero, suc, ◌-◌}
use Prim.Native.Char.{code}
use Prim.Native.String.{String, ◌++◌}
use mathlib.Core.Path.{◌≡◌, refl}
use mathlib.Core.Bool.{Bool, true, false, ◌&&◌, ◌||◌}
use cn_property_agent.Prelude.Tests.{nat_beq, if◌then◌else◌}
use cn_property_agent.Prelude.Text.{is_space}

-- `len(text)`
abbrev pub text_length : String → ℕ
text_length String.[] = 0
text_length (String.◌∷◌ c s) = suc (text_length s)

-- `text[n:]`
abbrev pub suffix_from : ℕ → String → String
suffix_from zero s = s
suffix_from (suc n) String.[] = ""
suffix_from (suc n) (String.◌∷◌ c s) = suffix_from n s

-- `text.startswith(needle)`
abbrev pub has_prefix : String → String → Bool
has_prefix String.[] s = true
has_prefix (String.◌∷◌ d needle) String.[] = false
has_prefix (String.◌∷◌ d needle) (String.◌∷◌ c s) = nat_beq (code c) (code d) && has_prefix needle s

-- `needle in text`
unfoldable pub has_text : String → String → Bool
has_text needle String.[] = has_prefix needle ""
has_text needle (String.◌∷◌ c s) = has_prefix needle (String.◌∷◌ c s) || has_text needle s

-- What `replace` leaves past the next `skip` characters.
unfoldable pub replace_from : String → String → ℕ → String → String
replace_from needle new skip String.[] = ""
replace_from needle new (suc skip) (String.◌∷◌ c s) = replace_from needle new skip s
replace_from needle new zero (String.◌∷◌ c s) = elim (has_prefix needle (String.◌∷◌ c s)) [
  | true ↦ new ++ replace_from needle new (text_length needle - 1) s
  | false ↦ String.◌∷◌ c (replace_from needle new zero s)
]

-- `text.replace(needle, new)`, for a needle that is not empty
unfoldable pub replace : String → String → String → String
unfolding replace_from
replace needle new s = replace_from needle new 0 s

-- `"".join(text.split())`
unfoldable pub without_spaces : String → String
unfolding is_space
without_spaces String.[] = ""
without_spaces (String.◌∷◌ c s) =
    let rest = without_spaces s in if is_space (code c) then rest else String.◌∷◌ c rest

replaced_twice : replace "元" " " "3元/元4" ≡ "3 / 4"
unfolding replace
replaced_twice = refl
