-- ===== src/Analytics/Transactions/Invariance.antt =====
-- The transaction metrics depend on the records alone, not on their order.
use mathlib.Core.List.{Permᴰ}
use mathlib.Core.List.Permᴰ
use mathlib.Core.Path.{subst₂}
use cn_property_agent.Prelude.{
  ℕ, ◌≡◌, refl, ap, ◌∙◌, String, string_eq, true, Option, none, some, List, [], ◌∷◌, map, arith,
  subst, Result, ok, err, ◌>>=◌, filter_map, All, IfOk, Result-cases, Option-cases, false, inl, inr,
}
use cn_property_agent.Prelude.Int.{ℤ}
use cn_property_agent.Prelude.Sorting.{All-perm}
use cn_property_agent.Floats.{Floats, FloatOrder}
use cn_property_agent.Domain.Common.{Raised, positive}
use cn_property_agent.Domain.Transaction.{Transaction, valid_transaction}
use cn_property_agent.Analytics.Common.{CountArg, validate_minimum_sample_count, median_metric}
use cn_property_agent.Analytics.Common.Invariance.{
  length-perm, anyb-perm, filter_map-perm, maximum-perm, sorted_texts-perm, sorted_set-perm,
  IsNumber, median_metric-perm,
}
use cn_property_agent.Analytics.Transactions.{
  is_zero, negotiation_discount, discounts_of, cons_float, floats_of, is_foreign,
  compute_community_transaction_metrics,
}

module _ (F : Type 0) ⦃fl : Floats F⦄ where
  -- Two lists of floats that differ in order, or the same exception.
  abbrev SameFloats : Result Raised (List F) → Result Raised (List F) → Type 0
  SameFloats (ok xs) (ok ys) = Permᴰ xs ys
  SameFloats (err d) (err e) = d ≡ e
  SameFloats _ _ = ⊥

  SameFloats-refl : (a : Result Raised (List F)) → SameFloats a a
  SameFloats-refl (ok xs) = Permᴰ.refl xs
  SameFloats-refl (err e) = refl

  SameFloats-trans :
      (a b c : Result Raised (List F)) → SameFloats a b → SameFloats b c → SameFloats a c
  SameFloats-trans (ok a) (ok b) (ok c) p q = Permᴰ.trans p q
  SameFloats-trans (err a) (err b) (err c) p q = p ∙ q
  SameFloats-trans (ok a) (ok b) (err c) p q = absurd q
  SameFloats-trans (ok a) (err b) c p q = absurd p
  SameFloats-trans (err a) (ok b) c p q = absurd p
  SameFloats-trans (err a) (err b) (ok c) p q = absurd q

  cons_float-SameFloats :
      (o : Option F) (a b : Result Raised (List F))
      → SameFloats a b
      → SameFloats (cons_float o a) (cons_float o b)
  cons_float-SameFloats none a b p = refl
  cons_float-SameFloats (some x) (ok xs) (ok ys) p = Permᴰ.cons refl p
  cons_float-SameFloats (some x) (ok xs) (err e) p = absurd p
  cons_float-SameFloats (some x) (err d) (ok ys) p = absurd p
  cons_float-SameFloats (some x) (err d) (err e) p = p

  cons_float_swap :
      (o q : Option F) (a : Result Raised (List F))
      → SameFloats (cons_float o (cons_float q a)) (cons_float q (cons_float o a))
  cons_float_swap none none a = refl
  cons_float_swap none (some y) a = refl
  cons_float_swap (some x) none a = refl
  cons_float_swap (some x) (some y) (ok xs) = Permᴰ.swap refl refl
  cons_float_swap (some x) (some y) (err e) = refl

  -- The conversion of the days on market follows the order of the records.
  floats_of-perm : {xs ys : List ℤ} → Permᴰ xs ys → SameFloats (floats_of xs) (floats_of ys)
  unfolding floats_of
  floats_of-perm Permᴰ.nil = Permᴰ.nil
  floats_of-perm (Permᴰ.cons {a} {b} {l₁} {l₂} e p) =
      subst
        (λ z.
          SameFloats (cons_float (fl.of_int a) (floats_of l₁))
            (cons_float (fl.of_int z) (floats_of l₂)))
        e (cons_float-SameFloats (fl.of_int a) (floats_of l₁) (floats_of l₂) (floats_of-perm p))
  floats_of-perm (Permᴰ.swap {a} {b} {l = l} e f) =
      subst₂
        (λ y z.
          SameFloats (cons_float (fl.of_int a) (cons_float (fl.of_int b) (floats_of l)))
            (cons_float (fl.of_int y) (cons_float (fl.of_int z) (floats_of l))))
        f e (cons_float_swap (fl.of_int a) (fl.of_int b) (floats_of l))
  floats_of-perm (Permᴰ.trans {l₁} {l₂} {l₃} p q) =
      SameFloats-trans (floats_of l₁) (floats_of l₂) (floats_of l₃) (floats_of-perm p)
        (floats_of-perm q)

module _ {F : Type 0} ⦃fl : Floats F⦄ where
  abbrev pub IsValid : Transaction F → Type 0
  IsValid t = valid_transaction t ≡ true

  -- The discount of a record that has an initial listing price.
  abbrev pub discount_of : Transaction F → Option F
  discount_of t = elim t.initial_listing_price_cny [
    | none ↦ none
    | some initial ↦ some (fl.div (fl.sub initial t.deal_price_cny) initial)
  ]

module _ {F : Type 0} ⦃fl : Floats F⦄ (order : FloatOrder fl) where
  abbrev IsNumber' : F → Type 0
  IsNumber' = IsNumber order

  cons_float-IsNumber :
      (o : Option F) (r : Result Raised (List F))
      → ((x : F) → o ≡ some x → IsNumber' x)
      → IfOk (All IsNumber') r
      → IfOk (All IsNumber') (cons_float o r)
  cons_float-IsNumber none r h a = tt
  cons_float-IsNumber (some x) (ok xs) h a = (h x refl, a)
  cons_float-IsNumber (some x) (err e) h a = tt

  floats_of-IsNumber : (ds : List ℤ) → IfOk (All IsNumber') (floats_of ds)
  unfolding floats_of
  floats_of-IsNumber [] = tt
  floats_of-IsNumber (d ∷ ds) =
      cons_float-IsNumber (fl.of_int d) (floats_of ds) (order.of_int_number d)
        (floats_of-IsNumber ds)

  days-perm :
      (a b : Result Raised (List F)) (minimum : ℕ)
      → SameFloats F a b
      → IfOk (All IsNumber') a
      → (a >>= λ d. median_metric d minimum) ≡ (b >>= λ d. median_metric d minimum)
  days-perm (ok xs) (ok ys) minimum p h = median_metric-perm order minimum p h
  days-perm (ok xs) (err e) minimum p h = absurd p
  days-perm (err d) (ok ys) minimum p h = absurd p
  days-perm (err d) (err e) minimum p h = ap err p

  positive-IsNumber : (x : F) → positive x ≡ true → IsNumber' x
  positive-IsNumber x h = ground (arith, order.lt-eq fl.zero_f x, order.le_numbers fl.zero_f x)

  unit_prices-IsNumber :
      (ts : List (Transaction F))
      → All IsValid ts
      → All IsNumber' (map (λ t. t.unit_price_cny_sqm) ts)
  unfolding valid_transaction
  unit_prices-IsNumber [] h = tt
  unit_prices-IsNumber (t ∷ ts) h =
      (positive-IsNumber t.unit_price_cny_sqm (ground (arith, h.0)), unit_prices-IsNumber ts h.1)

  deal_prices-IsNumber :
      (ts : List (Transaction F)) → All IsValid ts → All IsNumber' (map (λ t. t.deal_price_cny) ts)
  unfolding valid_transaction
  deal_prices-IsNumber [] h = tt
  deal_prices-IsNumber (t ∷ ts) h =
      (positive-IsNumber t.deal_price_cny (ground (arith, h.0)), deal_prices-IsNumber ts h.1)

  positive-is_zero : (x : F) → positive x ≡ true → is_zero x ≡ false
  positive-is_zero x h = ground (arith, h, order.lt-eq fl.zero_f x)

  -- No valid record divides by zero.
  pub discounts_of_valid :
      (ts : List (Transaction F))
      → All IsValid ts
      → discounts_of ts ≡ ok (filter_map discount_of ts)
  unfolding discounts_of negotiation_discount valid_transaction
  discounts_of_valid [] h = refl
  discounts_of_valid (t ∷ ts) h = elim (Option-cases t.initial_listing_price_cny) [
    | inl e ↦ ground (arith, e, discounts_of_valid ts h.1)
    | inr (x, e) ↦
        ground (arith, e, discounts_of_valid ts h.1, positive-is_zero x (ground (arith, h.0, e)))
  ]

  discounts-perm :
      {xs ys : List (Transaction F)} (minimum : ℕ)
      → Permᴰ xs ys
      → All IsValid xs
      → All IsNumber' (filter_map discount_of xs)
      → (discounts_of xs >>= λ d. median_metric d minimum)
        ≡ (discounts_of ys >>= λ d. median_metric d minimum)
  discounts-perm {xs} {ys} minimum p valid discounts =
      rw (discounts_of_valid xs valid, discounts_of_valid ys (All-perm IsValid p valid))
        (median_metric-perm order minimum (filter_map-perm discount_of p) discounts)

  -- For floats with the order of IEEE numbers, valid records and discounts that are not NaN, the
  -- metrics of a rearrangement of the records are the same, or both calls raise the same
  -- exception.
  pub compute_community_transaction_metrics-perm :
      {xs ys : List (Transaction F)} (community_id : String) (count : CountArg)
      → Permᴰ xs ys
      → All IsValid xs
      → All IsNumber' (filter_map discount_of xs)
      → compute_community_transaction_metrics xs community_id count
        ≡ compute_community_transaction_metrics ys community_id count
  unfolding compute_community_transaction_metrics
  compute_community_transaction_metrics-perm {xs} {ys} community_id count p valid discounts =
      elim (Result-cases (validate_minimum_sample_count count)) [
        | inl (minimum, e) ↦ ground (
          arith,
          e,
          anyb-perm (is_foreign community_id) p,
          median_metric-perm order minimum
              (Permᴰ.map (λ (t : Transaction F). t.unit_price_cny_sqm) p)
              (unit_prices-IsNumber xs valid),
          median_metric-perm order minimum (Permᴰ.map (λ (t : Transaction F). t.deal_price_cny) p)
              (deal_prices-IsNumber xs valid),
          days-perm (floats_of (filter_map (λ t. t.days_on_market) xs))
              (floats_of (filter_map (λ t. t.days_on_market) ys)) minimum
              (floats_of-perm F (filter_map-perm (λ (t : Transaction F). t.days_on_market) p))
              (floats_of-IsNumber (filter_map (λ t. t.days_on_market) xs)),
          discounts-perm minimum p valid discounts,
          length-perm p,
          maximum-perm (Permᴰ.map (λ (t : Transaction F). t.deal_date) p),
          sorted_texts-perm (Permᴰ.map (λ (t : Transaction F). t.transaction_id) p),
          sorted_set-perm (Permᴰ.map (λ (t : Transaction F). t.source) p),
        )
        | inr (x, e) ↦ ground (arith, e)
      ]
