-- ===== src/Config/Yaml/Keys.antt =====
-- The mapping that is read has each key once, in the root and in each section.
use cn_property_agent.Prelude.{
  ℕ, zero, suc, ◌≡◌, refl, ap, sym, subst, String, string_eq, false, Option, List, [], ◌∷◌, ◌++◌,
  arith, ok, ◌==◌, ◌||◌, Bool-cases, Option-cases, Result-cases, inl, inr, All, Distinct,
  Distinct-append_one, contains,
}
use cn_property_agent.Prelude.Text.{strip, rstrip}
use cn_property_agent.Prelude.Search.{has_prefix, has_text, suffix_from}
use cn_property_agent.Utils.{prefix_of}
use cn_property_agent.Config.Yaml.{
  YamlValue, scalar, section, YamlMapping, Reading, names, entries_under, add_under, indent_of,
  split_entry, top_line, section_line, other_indent, place_entry, read_line, read_lines, lines_past,
  nothing_read, parse_yaml_mapping,
}

pub names-append :
    {A : Type 0} (xs : List (String × A)) (key : String) (a : A)
    → names (xs ++ ((key, a) ∷ [])) ≡ names xs ++ (key ∷ [])
names-append [] key a = refl
names-append (x ∷ xs) key a = ap (λ l. x.0 ∷ l) (names-append xs key a)

abbrev pub HasDistinctKeys : String × YamlValue → Type 0
HasDistinctKeys (k, scalar v) = Unit
HasDistinctKeys (k, section entries) = Distinct (names entries)

-- Each key stands once in the root, and each once in its section.
abbrev pub KeysOnce : YamlMapping → Type 0
KeysOnce root = Distinct (names root) × All HasDistinctKeys root

pub names-add_under :
    (current key value : String) (root : YamlMapping)
    → names (add_under current key value root) ≡ names root
unfolding add_under
names-add_under current key value [] = refl
names-add_under current key value ((k, scalar v) ∷ rest) =
    ap (λ l. k ∷ l) (names-add_under current key value rest)
names-add_under current key value ((k, section entries) ∷ rest) = elim (Bool-cases (k == current)) [
  | inl here ↦ ground (arith, here)
  | inr there ↦ ground (arith, there, names-add_under current key value rest)
]

Distinct-one_more :
    (key value : String) (entries : List (String × String))
    → contains key (names entries) ≡ false
    → Distinct (names entries)
    → Distinct (names (entries ++ ((key, value) ∷ [])))
Distinct-one_more key value entries new d =
    subst Distinct (sym (names-append entries key value))
      (Distinct-append_one key (names entries) new d)

add_under-All :
    (current key value : String) (root : YamlMapping)
    → contains key (names (entries_under current root)) ≡ false
    → All HasDistinctKeys root
    → All HasDistinctKeys (add_under current key value root)
unfolding add_under entries_under
add_under-All current key value [] new h = tt
add_under-All current key value ((k, scalar v) ∷ rest) new (here, more) =
    (tt, add_under-All current key value rest new more)
add_under-All current key value ((k, section entries) ∷ rest) new (here, more) =
    elim (Bool-cases (k == current)) [
      | inl e ↦ rw e (Distinct-one_more key value entries (ground (arith, new, e)) here, more)
      | inr e ↦ rw e (here, add_under-All current key value rest (ground (arith, new, e)) more)
    ]

All-one_more :
    (root : YamlMapping) (entry : String × YamlValue)
    → HasDistinctKeys entry
    → All HasDistinctKeys root
    → All HasDistinctKeys (root ++ (entry ∷ []))
All-one_more [] entry new h = (new, tt)
All-one_more (x ∷ root) entry new (here, more) = (here, All-one_more root entry new more)

one_more-KeysOnce :
    (key : String) (v : YamlValue) (root : YamlMapping)
    → HasDistinctKeys (key, v)
    → contains key (names root) ≡ false
    → KeysOnce root
    → KeysOnce (root ++ ((key, v) ∷ []))
one_more-KeysOnce key v root own new (d, all) = (
  subst Distinct (sym (names-append root key v)) (Distinct-append_one key (names root) new d),
  All-one_more root (key, v) own all,
)

top_line-KeysOnce :
    (key : String) (value : Option String) (r r' : Reading)
    → top_line key value r ≡ ok r'
    → KeysOnce r.root
    → KeysOnce r'.root
unfolding top_line
top_line-KeysOnce key value r r' h once = elim (Bool-cases (contains key (names r.root))) [
  | inl old ↦ absurd (ground (arith, old, h))
  | inr new ↦ elim (Option-cases value) [
    | inl e ↦
        subst KeysOnce {x = r.root ++ ((key, section []) ∷ [])} (ground (arith, new, e, h))
          (one_more-KeysOnce key (section []) r.root tt new once)
    | inr (v, e) ↦
        subst KeysOnce {x = r.root ++ ((key, scalar v) ∷ [])} (ground (arith, new, e, h))
          (one_more-KeysOnce key (scalar v) r.root tt new once)
  ]
]

section_line-KeysOnce :
    (indent : ℕ) (key : String) (value : Option String) (r r' : Reading)
    → section_line indent key value r ≡ ok r'
    → KeysOnce r.root
    → KeysOnce r'.root
unfolding section_line
section_line-KeysOnce indent key value r r' h (d, all) = elim (Option-cases r.current) [
  | inl e ↦ absurd (ground (arith, e, h))
  | inr (current, e) ↦ elim (Bool-cases (other_indent r.section_indent indent)) [
    | inl other ↦ absurd (ground (arith, e, other, h))
    | inr same ↦ elim (Option-cases value) [
      | inl missing ↦ absurd (ground (arith, e, same, missing, h))
      | inr (v, given) ↦ elim (Bool-cases (contains key (names (entries_under current r.root)))) [
        | inl old ↦ absurd (ground (arith, e, same, given, old, h))
        | inr new ↦
            subst KeysOnce {x = add_under current key v r.root}
              (ground (arith, e, same, given, new, h))
              (
                subst Distinct (sym (names-add_under current key v r.root)) d,
                add_under-All current key v r.root new all,
              )
      ]
    ]
  ]
]

place_entry-KeysOnce :
    (indent : ℕ) (entry : String × Option String) (r r' : Reading)
    → place_entry indent entry r ≡ ok r'
    → KeysOnce r.root
    → KeysOnce r'.root
place_entry-KeysOnce zero (key, value) r r' h once = top_line-KeysOnce key value r r' h once
place_entry-KeysOnce (suc n) (key, value) r r' h once =
    section_line-KeysOnce (suc n) key value r r' h once

read_line-KeysOnce :
    (line : String) (r r' : Reading) → read_line line r ≡ ok r' → KeysOnce r.root → KeysOnce r'.root
unfolding read_line
read_line-KeysOnce raw_line r r' h once =
    let line = rstrip raw_line in
    let content = strip line in
    let indent = indent_of line in
    elim (Bool-cases (content == "" || has_prefix "#" content)) [
      | inl skipped ↦
          subst (λ x. KeysOnce x.root) {x = r} {y = r'} (ground (arith, skipped, h)) once
      | inr kept ↦
          elim (Bool-cases
            (has_text "\t" (prefix_of indent line) || has_prefix "\t" (suffix_from indent line))) [
              | inl tab ↦ absurd (ground (arith, kept, tab, h))
              | inr plain ↦ elim (Bool-cases (has_prefix "-" content)) [
                | inl item ↦ absurd (ground (arith, kept, plain, item, h))
                | inr no_item ↦ elim (Result-cases (split_entry content)) [
                  | inr (x, e) ↦ absurd (ground (arith, kept, plain, no_item, e, h))
                  | inl (entry, e) ↦
                      place_entry-KeysOnce indent entry r r'
                        (ground (arith, kept, plain, no_item, e, h)) once
                ]
              ]
            ]
    ]

read_lines-KeysOnce :
    (number : ℕ) (lines : List String) (r r' : Reading)
    → read_lines number lines r ≡ ok r'
    → KeysOnce r.root
    → KeysOnce r'.root
unfolding read_lines
read_lines-KeysOnce number [] r r' h once =
    subst (λ x. KeysOnce x.root) {x = r} {y = r'} (ground (arith, h)) once
read_lines-KeysOnce number (line ∷ lines) r r' h once = elim (Result-cases (read_line line r)) [
  | inr (x, e) ↦ absurd (ground (arith, e, h))
  | inl (mid, e) ↦
      read_lines-KeysOnce (suc number) lines mid r' (ground (arith, e, h))
        (read_line-KeysOnce line r mid e once)
]

pub parse_yaml_mapping-KeysOnce :
    (text : String) (root : YamlMapping) → parse_yaml_mapping text ≡ ok root → KeysOnce root
unfolding parse_yaml_mapping
parse_yaml_mapping-KeysOnce text root h =
    elim (Result-cases (read_lines 1 (lines_past false text) nothing_read)) [
      | inr (x, e) ↦ absurd (ground (arith, e, h))
      | inl (r, e) ↦
          subst KeysOnce {x = r.root} (ground (arith, e, h))
            (read_lines-KeysOnce 1 (lines_past false text) nothing_read r e (tt, tt))
    ]
