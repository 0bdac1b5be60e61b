-- ===== src/Config/Yaml/Entries.antt =====
-- The entries of the sections that are read are as many as the indented lines.
use cn_property_agent.Prelude.{
  ℕ, zero, suc, ◌+◌, ◌≡◌, refl, String, string_eq, Bool, true, false, Option, none, some, List, [],
  ◌∷◌, ◌++◌, arith, ok, ◌==◌, ◌||◌, Bool-cases, Option-cases, Result-cases, inl, inr, contains,
  subst, length, filterb, if◌then◌else◌, ==_refl,
}
use cn_property_agent.Prelude.Text.{strip, rstrip}
use cn_property_agent.Prelude.Search.{has_prefix, has_text, suffix_from}
use cn_property_agent.Utils.{prefix_of}
use cn_property_agent.Config.Yaml.{
  scalar, section, YamlMapping, Reading, names, entries_under, add_under, indent_of, split_entry,
  top_line, section_line, other_indent, place_entry, read_line, read_lines,
}

-- The entries of all sections together.
unfoldable pub entry_count : YamlMapping → ℕ
entry_count [] = 0
entry_count ((k, scalar v) ∷ rest) = entry_count rest
entry_count ((k, section entries) ∷ rest) = length entries + entry_count rest

abbrev indented : ℕ → Bool
indented zero = false
indented (suc n) = true

-- A line that is no blank one and no comment, and is indented.
unfoldable pub is_inner : String → Bool
unfolding rstrip strip indent_of
is_inner raw_line =
    let line = rstrip raw_line in
    let content = strip line in
    if content == "" || has_prefix "#" content then false else indented (indent_of line)

abbrev one_if : Bool → ℕ
one_if true = 1
one_if false = 0

pub has_section : String → YamlMapping → Bool
has_section key [] = false
has_section key ((k, scalar v) ∷ rest) = has_section key rest
has_section key ((k, section entries) ∷ rest) = (k == key) || has_section key rest

-- The section that the next indented line goes to is there.
abbrev IsOpen : Option String → YamlMapping → Type 0
IsOpen none root = Unit
IsOpen (some key) root = has_section key root ≡ true

length-one_more : {A : Type 0} (xs : List A) (x : A) → length (xs ++ (x ∷ [])) ≡ suc (length xs)
length-one_more [] x = refl
length-one_more (y ∷ xs) x = ground (arith, length-one_more xs x)

entry_count-scalar :
    (root : YamlMapping) (key v : String)
    → entry_count (root ++ ((key, scalar v) ∷ [])) ≡ entry_count root
unfolding entry_count
entry_count-scalar [] key v = refl
entry_count-scalar ((k, scalar w) ∷ rest) key v = entry_count-scalar rest key v
entry_count-scalar ((k, section es) ∷ rest) key v = ground (arith, entry_count-scalar rest key v)

entry_count-section :
    (root : YamlMapping) (key : String)
    → entry_count (root ++ ((key, section []) ∷ [])) ≡ entry_count root
unfolding entry_count
entry_count-section [] key = refl
entry_count-section ((k, scalar w) ∷ rest) key = entry_count-section rest key
entry_count-section ((k, section es) ∷ rest) key = ground (arith, entry_count-section rest key)

has_section-new :
    (root : YamlMapping) (key : String) → has_section key (root ++ ((key, section []) ∷ [])) ≡ true
unfolding has_section
has_section-new [] key = ground (arith, ==_refl key)
has_section-new ((k, scalar w) ∷ rest) key = has_section-new rest key
has_section-new ((k, section es) ∷ rest) key = ground (arith, has_section-new rest key)

entry_count-add_under :
    (current key v : String) (root : YamlMapping)
    → has_section current root ≡ true
    → (entry_count (add_under current key v root) ≡ suc (entry_count root))
      × (has_section current (add_under current key v root) ≡ true)
unfolding entry_count add_under has_section
entry_count-add_under current key v [] h = absurd (ground (arith, h))
entry_count-add_under current key v ((k, scalar w) ∷ rest) h =
    entry_count-add_under current key v rest h
entry_count-add_under current key v ((k, section es) ∷ rest) h = elim (Bool-cases (k == current)) [
  | inl e ↦ (ground (arith, e, length-one_more es (key, v)), ground (arith, e))
  | inr e ↦
      let (count, still) = entry_count-add_under current key v rest (ground (arith, e, h)) in
      (ground (arith, e, count), ground (arith, e, still))
]

-- What a step of the reader does to the entries.
abbrev Adds : ℕ → Reading → Reading → Type 0
Adds n r r' = (entry_count r'.root ≡ entry_count r.root + n) × IsOpen r'.current r'.root

Adds-top_line :
    (key : String) (value : Option String) (r r' : Reading)
    → top_line key value r ≡ ok r'
    → Adds 0 r r'
unfolding top_line
Adds-top_line key value r r' h = elim (Bool-cases (contains key (names r.root))) [
  | inl old ↦ absurd (ground (arith, old, h))
  | inr new ↦ elim (Option-cases value) [
    | inl e ↦
        subst (Adds 0 r)
          {x = record {
            root = r.root ++ ((key, section []) ∷ []);
            current = some key;
            section_indent = none;
          }}
          {y = r'} (ground (arith, new, e, h))
          (ground (arith, entry_count-section r.root key), has_section-new r.root key)
    | inr (v, e) ↦
        subst (Adds 0 r)
          {x = record {
            root = r.root ++ ((key, scalar v) ∷ []);
            current = none;
            section_indent = none;
          }}
          {y = r'} (ground (arith, new, e, h)) (ground (arith, entry_count-scalar r.root key v), tt)
  ]
]

Adds-section_line :
    (indent : ℕ) (key : String) (value : Option String) (r r' : Reading)
    → section_line indent key value r ≡ ok r'
    → IsOpen r.current r.root
    → Adds 1 r r'
unfolding section_line
Adds-section_line indent key value r r' h ready = elim (Option-cases r.current) [
  | inl e ↦ absurd (ground (arith, e, h))
  | inr (current, e) ↦ elim (Bool-cases (other_indent r.section_indent indent)) [
    | inl other ↦ absurd (ground (arith, e, other, h))
    | inr same ↦ elim (Option-cases value) [
      | inl e' ↦ absurd (ground (arith, e, same, e', h))
      | inr (v, e') ↦ elim (Bool-cases (contains key (names (entries_under current r.root)))) [
        | inl old ↦ absurd (ground (arith, e, same, e', old, h))
        | inr new ↦
            let there : has_section current r.root ≡ true = subst (λ c. IsOpen c r.root) e ready in
            let (count, still) = entry_count-add_under current key v r.root there in
            subst (Adds 1 r)
              {x = record {
                root = add_under current key v r.root;
                current = some current;
                section_indent = some indent;
              }}
              {y = r'} (ground (arith, e, same, e', new, h)) (ground (arith, count), still)
      ]
    ]
  ]
]

Adds-place_entry :
    (indent : ℕ) (entry : String × Option String) (r r' : Reading)
    → place_entry indent entry r ≡ ok r'
    → IsOpen r.current r.root
    → Adds (one_if (indented indent)) r r'
Adds-place_entry zero (key, value) r r' h ready = Adds-top_line key value r r' h
Adds-place_entry (suc n) (key, value) r r' h ready =
    Adds-section_line (suc n) key value r r' h ready

Adds-read_line :
    (line : String) (r r' : Reading)
    → read_line line r ≡ ok r'
    → IsOpen r.current r.root
    → Adds (one_if (is_inner line)) r r'
unfolding read_line is_inner
Adds-read_line raw_line r r' h ready =
    let line = rstrip raw_line in
    let content = strip line in
    let indent = indent_of line in
    elim (Bool-cases (content == "" || has_prefix "#" content)) [
      | inl skipped ↦
          rw skipped
            (subst (Adds 0 r) {x = r} {y = r'} (ground (arith, skipped, h)) (omega arith, ready))
      | inr kept ↦
          elim (Bool-cases
            (has_text "\t" (prefix_of indent line) || has_prefix "\t" (suffix_from indent line))) [
              | inl tab ↦ absurd (ground (arith, kept, tab, h))
              | inr plain ↦ elim (Bool-cases (has_prefix "-" content)) [
                | inl item ↦ absurd (ground (arith, kept, plain, item, h))
                | inr no_item ↦ elim (Result-cases (split_entry content)) [
                  | inr (x, e) ↦ absurd (ground (arith, kept, plain, no_item, e, h))
                  | inl (entry, e) ↦ rw kept (
                      Adds-place_entry indent entry r r'
                        (ground (arith, kept, plain, no_item, e, h)) ready)
                ]
              ]
            ]
    ]

pub entry_count-read_lines :
    (number : ℕ) (lines : List String) (r r' : Reading)
    → read_lines number lines r ≡ ok r'
    → IsOpen r.current r.root
    → entry_count r'.root ≡ entry_count r.root + length (filterb is_inner lines)
unfolding read_lines
entry_count-read_lines number [] r r' h ready = ground (arith, h)
entry_count-read_lines number (line ∷ lines) r r' h ready = elim (Result-cases (read_line line r)) [
  | inr (x, e) ↦ absurd (ground (arith, e, h))
  | inl (mid, e) ↦
      let (count, ready') = Adds-read_line line r mid e ready in
      let later = entry_count-read_lines (suc number) lines mid r' (ground (arith, e, h)) ready' in
      elim (Bool-cases (is_inner line)) [
        | inl inner ↦ ground (arith, inner, count, later)
        | inr outer ↦ ground (arith, outer, count, later)
      ]
]
