-- ===== src/Config/Yaml.antt =====
-- config/yaml_mapping.py: the reader of the YAML subset, line by line. The dict of the current section
-- is an entry of the root: a line that adds to the section changes that entry.
pub mod Keys
pub mod Entries
pub mod Lines
use Prim.Native.Char.{Char, code}
use cn_property_agent.Prelude.{
  ◌≡◌, refl, ℕ, zero, suc, ◌+◌, ◌-◌, String, string_eq, Bool, true, false, not, Option, none, some,
  List, [], ◌∷◌, ◌++◌, map, Result, ok, err, ◌>>=◌, ◌>>◌, ◌==◌, ◌&&◌, ◌||◌, contains, nat_beq, leb,
  raise_if, if◌then◌else◌,
}
use cn_property_agent.Prelude.Text.{is_blank, strip, rstrip}
use cn_property_agent.Prelude.Search.{text_length, suffix_from, has_prefix, has_text}
use cn_property_agent.Utils.{prefix_of}
use cn_property_agent.Domain.Common.{nonempty}

pub data YamlValue : Type 0 where
  scalar : String → YamlValue
  section : List (String × String) → YamlValue

abbrev pub YamlMapping : Type 0
YamlMapping = List (String × YamlValue)

-- What a line is refused for.
pub data YamlError : Type 0 where
  tab_indentation sequence_item no_separator empty_key duplicate_key : YamlError
  no_parent_section inconsistent_indentation too_deep duplicate_entry : YamlError

-- `value[0] == value[-1] and value[0] in _QUOTES`, past the first character
unfoldable pub closes_quote : ℕ → String → Bool
closes_quote q String.[] = false
closes_quote q (String.◌∷◌ c String.[]) = nat_beq (code c) q && (nat_beq q 39 || nat_beq q 34)
closes_quote q (String.◌∷◌ c (String.◌∷◌ d s)) = closes_quote q (String.◌∷◌ d s)

-- `_unquote`
unfoldable pub unquote : String → String
unfolding closes_quote
unquote String.[] = ""
unquote (String.◌∷◌ c s) =
    if closes_quote (code c) s then prefix_of (text_length s - 1) s else String.◌∷◌ c s

-- `content.partition(":")`: `none` where there is no colon.
unfoldable pub at_colon : String → Option (String × String)
at_colon String.[] = none
at_colon (String.◌∷◌ c s) =
    let rest = at_colon s in
    if nat_beq (code c) 58
    then some ("", s)
    else elim rest [ none ↦ none | some (key, value) ↦ some (String.◌∷◌ c key, value) ]

-- `_split_entry`
unfoldable pub split_entry : String → Result YamlError (String × Option String)
unfolding at_colon strip unquote
split_entry content = elim (at_colon content) [
  | none ↦ err no_separator
  | some (key, value) ↦
      if strip key == ""
      then err empty_key
      else ok (strip key, (if strip value == "" then none else some (unquote (strip value))))
]

-- The local variables of `parse_yaml_mapping`; `current` is the key of the section.
pub record Reading : Type 0 where
  pub root : YamlMapping
  pub current : Option String
  pub section_indent : Option ℕ

abbrev pub entry_name : {A : Type 0} → String × A → String
entry_name entry = entry.0

abbrev pub names : {A : Type 0} → List (String × A) → List String
names = map entry_name

-- `section`: what the root holds under its key
unfoldable pub entries_under : String → YamlMapping → List (String × String)
entries_under key [] = []
entries_under key ((k, scalar v) ∷ rest) = entries_under key rest
entries_under key ((k, section entries) ∷ rest) =
    let more = entries_under key rest in if k == key then entries else more

-- `section[key] = value`
unfoldable pub add_under : String → String → String → YamlMapping → YamlMapping
add_under current key value [] = []
add_under current key value ((k, scalar v) ∷ rest) =
    (k, scalar v) ∷ add_under current key value rest
add_under current key value ((k, section entries) ∷ rest) =
    let more = add_under current key value rest in
    if k == current
    then (k, section (entries ++ ((key, value) ∷ []))) ∷ rest
    else (k, section entries) ∷ more

-- `len(line) - len(line.lstrip(" "))`
unfoldable pub indent_of : String → ℕ
indent_of String.[] = 0
indent_of (String.◌∷◌ c s) = let rest = indent_of s in if nat_beq (code c) 32 then suc rest else 0

-- A line at the margin.
unfoldable pub top_line : String → Option String → Reading → Result YamlError Reading
top_line key value r = if contains key (names r.root) then err duplicate_key else elim value [
  | none ↦ ok (record {
    root = r.root ++ ((key, section []) ∷ []);
    current = some key;
    section_indent = none;
  })
  | some v ↦
      ok (record { root = r.root ++ ((key, scalar v) ∷ []); current = none; section_indent = none })
]

unfoldable pub other_indent : Option ℕ → ℕ → Bool
other_indent none indent = false
other_indent (some i) indent = not (nat_beq i indent)

-- A line below a section.
unfoldable pub section_line : ℕ → String → Option String → Reading → Result YamlError Reading
unfolding entries_under add_under other_indent
section_line indent key value r = elim (r.current) [
  | none ↦ err no_parent_section
  | some current ↦
      if other_indent r.section_indent indent then err inconsistent_indentation else elim value [
        | none ↦ err too_deep
        | some v ↦
            if contains key (names (entries_under current r.root))
            then err duplicate_entry
            else ok (record {
              root = add_under current key v r.root;
              current = some current;
              section_indent = some indent;
            })
      ]
]

abbrev pub place_entry : ℕ → String × Option String → Reading → Result YamlError Reading
place_entry zero (key, value) r = top_line key value r
place_entry (suc n) (key, value) r = section_line (suc n) key value r

-- The body of the loop.
unfoldable pub read_line : String → Reading → Result YamlError Reading
unfolding rstrip strip indent_of split_entry top_line section_line has_text
read_line raw_line r =
    let line = rstrip raw_line in
    let content = strip line in
    let indent = indent_of line in
    if content == "" || has_prefix "#" content then ok r else do
      raise_if (has_text "\t" (prefix_of indent line) || has_prefix "\t" (suffix_from indent line))
          tab_indentation
      raise_if (has_prefix "-" content) sequence_item
      entry ← split_entry content
      place_entry indent entry r

-- The error carries the number of its line.
unfoldable pub read_lines : ℕ → List String → Reading → Result (ℕ × YamlError) Reading
unfolding read_line
read_lines number [] r = ok r
read_lines number (line ∷ lines) r = elim (read_line line r) [
  | err e ↦ err (number, e)
  | ok r' ↦ read_lines (suc number) lines r'
]

-- The line boundaries of `splitlines`.
unfoldable pub is_line_break : ℕ → Bool
is_line_break c =
    (leb 10 c && leb c 13)
    || ((leb 28 c && leb c 30) || (nat_beq c 133 || (nat_beq c 8232 || nat_beq c 8233)))

abbrev pub in_front : Char → List String → List String
in_front c [] = String.◌∷◌ c "" ∷ []
in_front c (line ∷ lines) = String.◌∷◌ c line ∷ lines

-- `text.splitlines()`; a line feed behind a carriage return breaks no further line.
unfoldable pub lines_past : Bool → String → List String
unfolding is_line_break
lines_past after_return String.[] = []
lines_past after_return (String.◌∷◌ c s) =
    let rest = lines_past (nat_beq (code c) 13) s in
    if after_return && nat_beq (code c) 10
    then rest
    else if is_line_break (code c)
    then "" ∷ rest
    else in_front c rest

abbrev pub nothing_read : Reading
nothing_read = record { root = []; current = none; section_indent = none }

unfoldable pub parse_yaml_mapping : String → Result (ℕ × YamlError) YamlMapping
unfolding lines_past read_lines
parse_yaml_mapping text = read_lines 1 (lines_past false text) nothing_read >>= λ r. ok r.root

reads_profile :
    parse_yaml_mapping "# city\ncity_code: \"310000\"\nproviders:\r\n  transactions: lianjia\n"
    ≡ ok (
        ("city_code", scalar "310000")
        ∷ ("providers", section (("transactions", "lianjia") ∷ []))
        ∷ [])
unfolding parse_yaml_mapping
reads_profile = refl
