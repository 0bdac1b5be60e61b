-- ===== src/Providers/Lianjia/Cells.antt =====
-- providers/lianjia/: the fields of one extracted row, which both row parsers read alike. A table of
-- aliases is an argument; a key of a row stands for its `str`.
use cn_property_agent.Prelude.{
  String, string_eq, Option, none, some, List, [], ◌∷◌, map, Result, ok, err, ◌>>=◌, ◌==◌,
  if◌then◌else◌,
}
use cn_property_agent.Storage.Table.{find, upsert_all, overwrite}
use cn_property_agent.Providers.Parsing.{FieldParseError}
use cn_property_agent.Providers.Lianjia.Runtime.{Runtime}
use cn_property_agent.Providers.Lianjia.Numbers.{RawCell, missing, normalize_cell, normalize_key}
use cn_property_agent.Providers.Lianjia.Wording.{extract_layout}

-- A row: `none` for what is not a mapping.
abbrev pub Row : Type 0 → Type 0
Row F = Option (List (String × RawCell F))

abbrev pub Cells : Type 0 → Type 0
Cells F = List (String × RawCell F)

abbrev pub Aliases : Type 0
Aliases = List (String × List String)

-- `x or y` on optional texts
abbrev pub or_else : Option String → Option String → Option String
or_else none other = other
or_else (some s) other = if s == "" then other else some s

-- `FieldParseError(str(error), field=canonical, reason=error.reason)`
abbrev pub with_field : {A : Type 0} → String → Result FieldParseError A → Result FieldParseError A
with_field canonical (ok a) = ok a
with_field canonical (err e) = err (record e { field = some canonical })

-- The aliases of a field.
abbrev pub aliases_of : String → Aliases → List String
aliases_of canonical [] = []
aliases_of canonical ((name, aliases) ∷ rest) =
    if name == canonical then aliases else aliases_of canonical rest

module _ {F : Type 0} (rt : Runtime F) where
  abbrev entry_key : String × RawCell F → String
  entry_key entry = entry.0

  -- `_normalize_row_keys`, a dict comprehension: the last of the entries with one key stays.
  unfoldable pub normalize_row_keys : List (String × RawCell F) → Cells F
  unfolding normalize_key
  normalize_row_keys row =
      upsert_all entry_key overwrite (map (λ (k, v). (normalize_key rt k, v)) row) []

  abbrev first_cell : List String → Cells F → RawCell F
  first_cell [] cells = missing
  first_cell (k ∷ ks) cells = elim (find entry_key k cells) [
    | some entry ↦ entry.1
    | none ↦ first_cell ks cells
  ]

  module _ (aliases : Aliases) (cells : Cells F) where
    -- `_raw_value`, with the aliases of `_LOOKUP`
    unfoldable pub raw_value : String → RawCell F
    unfolding normalize_key
    raw_value canonical = first_cell (map (normalize_key rt) (aliases_of canonical aliases)) cells

    -- `_cell`
    unfoldable pub cell : String → Result FieldParseError (Option String)
    unfolding raw_value normalize_cell
    cell canonical = with_field canonical (normalize_cell rt (raw_value canonical))

    -- `_raw_text`
    unfoldable pub raw_text : String → Option String
    unfolding cell
    raw_text canonical = elim (cell canonical) [ ok text ↦ text | err e ↦ none ]

    -- `_convert`
    unfoldable pub convert :
        {A : Type 0}
        → String
        → (String → Option String → Result FieldParseError A)
        → Result FieldParseError (Option A)
    unfolding cell
    convert canonical converter = do
      text ← cell canonical
      elim text [ none ↦ ok none | some s ↦ (converter s (some canonical) >>= λ a. ok (some a)) ]

    -- `_layout`
    unfoldable pub layout : Result FieldParseError (Option String)
    unfolding cell extract_layout
    layout = do
      dedicated ← cell "房屋户型"
      title ← elim dedicated [ some s ↦ ok none | none ↦ cell "标题" ]
      ok (elim dedicated [
        | some s ↦ some s
        | none ↦ elim title [ none ↦ none | some s ↦ extract_layout rt s ]
      ])
