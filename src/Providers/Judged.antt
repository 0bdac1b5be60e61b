-- ===== src/Providers/Judged.antt =====
-- providers/parsing.py: what holds of a batch when it holds of each row.
use cn_property_agent.Prelude.{◌≡◌, refl, List, [], ◌∷◌, All}
use cn_property_agent.Providers.Parsing.{
  RowOutcome, parsed, refused, ParseRejection, build_parse_result,
}

module _ {P : Type 0} where
  -- A statement on each of the two outcomes of a row.
  abbrev pub Judged : (P → Type 0) → (ParseRejection → Type 0) → RowOutcome P → Type 0
  Judged good bad (parsed p) = good p
  Judged good bad (refused q) = bad q

  pub build-All :
      (good : P → Type 0) (bad : ParseRejection → Type 0) (outcomes : List (RowOutcome P))
      → All (Judged good bad) outcomes
      → All good (build_parse_result outcomes).records
        × All bad (build_parse_result outcomes).rejections
  unfolding build_parse_result
  build-All good bad [] h = (tt, tt)
  build-All good bad (parsed p ∷ rest) (here, more) =
      let (ps, qs) = build-All good bad rest more in ((here, ps), qs)
  build-All good bad (refused q ∷ rest) (here, more) =
      let (ps, qs) = build-All good bad rest more in (ps, (here, qs))

  pub judge :
      (good : P → Type 0) (bad : ParseRejection → Type 0) (outcome : RowOutcome P)
      → ((p : P) → outcome ≡ parsed p → good p)
      → ((q : ParseRejection) → outcome ≡ refused q → bad q)
      → Judged good bad outcome
  judge good bad (parsed p) on_parsed _ = on_parsed p refl
  judge good bad (refused q) _ on_refused = on_refused q refl

  pub weaken :
      (good : P → Type 0) (bad worse : ParseRejection → Type 0)
      → ((q : ParseRejection) → bad q → worse q)
      → (outcome : RowOutcome P) → Judged good bad outcome
      → Judged good worse outcome
  weaken good bad worse h (parsed p) j = j
  weaken good bad worse h (refused q) j = h q j
