-- ===== src/Utils.antt =====
-- utils.py: identifiers, normalized text and distances. SHA-256, NFKC, case folding and the functions
-- of `math` stand in the Python runtime: they are arguments.
use Prim.Native.String.{◌++◌}
use cn_property_agent.Prelude.{
  ℕ, zero, suc, String, Option, none, some, List, [], ◌∷◌, Result, ok, err, ◌>>=◌,
}
use cn_property_agent.Prelude.Search.{without_spaces}
use cn_property_agent.Floats.{Floats}
use cn_property_agent.Domain.Common.{Raised, value_error}

pub record TextTools : Type 0 where
  -- `hashlib.sha256(text.encode("utf-8")).hexdigest()`: `none` where `encode` raises, on a text with
  -- a lone surrogate
  pub sha256_hex : String → Option String
  -- `unicodedata.normalize("NFKC", text)`
  pub nfkc : String → String
  -- `text.casefold()`
  pub casefold : String → String

-- `separator.join(parts)`
abbrev pub join : String → List String → String
join separator [] = ""
join separator (p ∷ []) = p
join separator (p ∷ q ∷ ps) = p ++ (separator ++ join separator (q ∷ ps))

-- `text[:n]`
abbrev pub prefix_of : ℕ → String → String
prefix_of zero s = ""
prefix_of (suc n) String.[] = ""
prefix_of (suc n) (String.◌∷◌ c s) = String.◌∷◌ c (prefix_of n s)

-- UnicodeEncodeError is a ValueError.
unfoldable pub stable_id : TextTools → String → List String → Result Raised String
stable_id tools prefix parts = elim (tools.sha256_hex (join "\u{1f}" parts)) [
  | some digest ↦ ok (prefix ++ ("-" ++ prefix_of 32 digest))
  | none ↦ err value_error
]

-- `normalize_text` of a text
unfoldable pub normalize : TextTools → String → String
unfolding without_spaces
normalize tools value = without_spaces (tools.casefold (tools.nfkc value))

-- The functions of `math` that a distance takes.
pub record Trig (F : Type 0) : Type 0 where
  pub radians : F → F
  pub sin : F → F
  pub cos : F → F
  pub atan2 : F → F → F
  -- `x ** 2`
  pub square : F → F
  -- `none` where it raises ValueError, on a number below zero
  pub sqrt : F → Option F

-- `math.sqrt`
abbrev pub root : {F : Type 0} → Trig F → F → Result Raised F
root trig x = elim (trig.sqrt x) [ some y ↦ ok y | none ↦ err value_error ]

module _ {F : Type 0} ⦃fl : Floats F⦄ (trig : Trig F) where
  -- `hav`
  unfoldable pub haversine : F → F → F → F → F
  haversine latitude_a longitude_a latitude_b longitude_b =
      let phi1 = trig.radians latitude_a in
      let phi2 = trig.radians latitude_b in
      let delta_phi = trig.radians (fl.sub latitude_b latitude_a) in
      let delta_lambda = trig.radians (fl.sub longitude_b longitude_a) in
      fl.add (trig.square (trig.sin (fl.div delta_phi fl.two_f))) (
        fl.mul (fl.mul (trig.cos phi1) (trig.cos phi2))
          (trig.square (trig.sin (fl.div delta_lambda fl.two_f))))

  unfoldable pub haversine_distance_m : F → F → F → F → Result Raised F
  unfolding haversine
  haversine_distance_m latitude_a longitude_a latitude_b longitude_b = do
    let hav = haversine latitude_a longitude_a latitude_b longitude_b
    far ← root trig hav
    near ← root trig (fl.sub fl.one_f hav)
    ok (fl.mul (fl.mul (fl.ratio 63710088 10) fl.two_f) (trig.atan2 far near))
