-- ===== src/Config/Yaml/Lines.antt =====
-- The keys of the mapping that is read are those of its lines.
use cn_property_agent.Prelude.{
  ℕ, zero, suc, ◌≡◌, refl, ap, ◌∙◌, false, String, string_eq, Option, none, some, List, [], ◌∷◌,
  ◌++◌, arith, Result, ok, err, ◌==◌, ◌||◌, Bool-cases, Option-cases, Result-cases, inl, inr,
  contains, filter_map, filterb, length, if◌then◌else◌,
}
use cn_property_agent.Prelude.Text.{strip, rstrip}
use cn_property_agent.Prelude.Search.{has_prefix, has_text, suffix_from}
use cn_property_agent.Utils.{prefix_of}
use cn_property_agent.Config.Yaml.{
  YamlError, scalar, section, YamlMapping, Reading, names, entries_under, indent_of, split_entry,
  top_line, section_line, other_indent, place_entry, read_line, read_lines, lines_past,
  nothing_read, parse_yaml_mapping,
}
use cn_property_agent.Config.Yaml.Entries.{entry_count, is_inner, entry_count-read_lines}
use cn_property_agent.Config.Yaml.Keys.{
  KeysOnce, names-append, names-add_under, parse_yaml_mapping-KeysOnce,
}

-- The key of an entry that stands at an indentation, if that is the margin.
abbrev pub key_at : ℕ → Result YamlError (String × Option String) → Option String
key_at zero (ok (key, value)) = some key
key_at zero (err e) = none
key_at (suc n) entry = none

-- The key that a line states at the margin; a blank line and a comment state none.
unfoldable pub margin_key : String → Option String
unfolding rstrip strip indent_of split_entry
margin_key raw_line =
    let line = rstrip raw_line in
    let content = strip line in
    if content == "" || has_prefix "#" content
    then none
    else key_at (indent_of line) (split_entry content)

abbrev listed : Option String → List String
listed none = []
listed (some key) = key ∷ []

append_nil : (xs : List String) → xs ≡ xs ++ []
append_nil [] = refl
append_nil (x ∷ xs) = ap (λ l. x ∷ l) (append_nil xs)

append_listed :
    (xs : List String) (key : Option String) (ys : List String)
    → (xs ++ listed key) ++ ys ≡ xs ++ (listed key ++ ys)
append_listed [] key ys = refl
append_listed (x ∷ xs) key ys = ap (λ l. x ∷ l) (append_listed xs key ys)

names-top_line :
    (key : String) (value : Option String) (r r' : Reading)
    → top_line key value r ≡ ok r'
    → names r'.root ≡ names r.root ++ (key ∷ [])
unfolding top_line
names-top_line key value r r' h = elim (Bool-cases (contains key (names r.root))) [
  | inl old ↦ absurd (ground (arith, old, h))
  | inr new ↦ elim (Option-cases value) [
    | inl e ↦ ground (arith, new, e, h, names-append r.root key (section []))
    | inr (v, e) ↦ ground (arith, new, e, h, names-append r.root key (scalar v))
  ]
]

names-section_line :
    (indent : ℕ) (key : String) (value : Option String) (r r' : Reading)
    → section_line indent key value r ≡ ok r'
    → names r'.root ≡ names r.root
unfolding section_line
names-section_line indent key value r r' h = elim (Option-cases r.current) [
  | inl e ↦ absurd (ground (arith, e, h))
  | inr (current, e) ↦ elim (Bool-cases (other_indent r.section_indent indent)) [
    | inl other ↦ absurd (ground (arith, e, other, h))
    | inr same ↦ elim (Option-cases value) [
      | inl e' ↦ absurd (ground (arith, e, same, e', h))
      | inr (v, e') ↦ elim (Bool-cases (contains key (names (entries_under current r.root)))) [
        | inl old ↦ absurd (ground (arith, e, same, e', old, h))
        | inr new ↦ ground (arith, e, same, e', new, h, names-add_under current key v r.root)
      ]
    ]
  ]
]

names-place_entry :
    (indent : ℕ) (entry : String × Option String) (r r' : Reading)
    → place_entry indent entry r ≡ ok r'
    → names r'.root ≡ names r.root ++ listed (key_at indent (ok entry))
names-place_entry zero (key, value) r r' h = names-top_line key value r r' h
names-place_entry (suc n) (key, value) r r' h =
    names-section_line (suc n) key value r r' h ∙ append_nil (names r.root)

names-read_line :
    (line : String) (r r' : Reading)
    → read_line line r ≡ ok r'
    → names r'.root ≡ names r.root ++ listed (margin_key line)
unfolding read_line margin_key
names-read_line raw_line r r' h =
    let line = rstrip raw_line in
    let content = strip line in
    let indent = indent_of line in
    elim (Bool-cases (content == "" || has_prefix "#" content)) [
      | inl skipped ↦ ground (arith, skipped, h, append_nil (names r.root))
      | inr kept ↦
          elim (Bool-cases
            (has_text "\t" (prefix_of indent line) || has_prefix "\t" (suffix_from indent line))) [
              | inl tab ↦ absurd (ground (arith, kept, tab, h))
              | inr plain ↦ elim (Bool-cases (has_prefix "-" content)) [
                | inl item ↦ absurd (ground (arith, kept, plain, item, h))
                | inr no_item ↦ elim (Result-cases (split_entry content)) [
                  | inr (x, e) ↦ absurd (ground (arith, kept, plain, no_item, e, h))
                  | inl (entry, e) ↦ ground (
                    arith,
                    kept,
                    e,
                    names-place_entry indent entry r r'
                        (ground (arith, kept, plain, no_item, e, h)),
                  )
                ]
              ]
            ]
    ]

names-read_lines :
    (number : ℕ) (lines : List String) (r r' : Reading)
    → read_lines number lines r ≡ ok r'
    → names r'.root ≡ names r.root ++ filter_map margin_key lines
unfolding read_lines
names-read_lines number [] r r' h = ground (arith, h, append_nil (names r.root))
names-read_lines number (line ∷ lines) r r' h = elim (Result-cases (read_line line r)) [
  | inr (x, e) ↦ absurd (ground (arith, e, h))
  | inl (mid, e) ↦
      let later = names-read_lines (suc number) lines mid r' (ground (arith, e, h)) in
      elim (Option-cases (margin_key line)) [
        | inl none_here ↦
            ground
              (arith, none_here, later, names-read_line line r mid e, append_nil (names r.root))
        | inr (key, here) ↦ ground (
          arith,
          here,
          later,
          names-read_line line r mid e,
          append_listed (names r.root) (some key) (filter_map margin_key lines),
        )
      ]
]

-- When `parse_yaml_mapping` returns a mapping, its keys are, in order, all those that the lines at
-- the margin state; its sections hold together as many entries as there are indented lines; and
-- each key stands once in it, and each key of a section once in that section. So a text that
-- repeats a key, at the margin or in a section, is refused, not read by one of the two lines.
pub parse_yaml_mapping_keys :
    (text : String) (root : YamlMapping)
    → parse_yaml_mapping text ≡ ok root
    → (names root ≡ filter_map margin_key (lines_past false text))
      × (entry_count root ≡ length (filterb is_inner (lines_past false text)))
      × KeysOnce root
unfolding parse_yaml_mapping entry_count
parse_yaml_mapping_keys text root h =
    let lines = lines_past false text in
    elim (Result-cases (read_lines 1 lines nothing_read)) [
      | inr (x, e) ↦ absurd (ground (arith, e, h))
      | inl (r, e) ↦ (
        ground (arith, e, h, names-read_lines 1 lines nothing_read r e),
        ground (arith, e, h, entry_count-read_lines 1 lines nothing_read r e tt),
        parse_yaml_mapping-KeysOnce text root h,
      )
    ]
