-- ===== src/Aggregator/Extremes.antt =====
-- The loop's maximum and minimum, for comparisons that may meet a NaN.
use mathlib.Core.List.{foldl}
use stream_rail.Common.{
  ◌<◌, ◌^◌, ◌≡◌, ◌≢◌, ap, ◌∙◌, ◌⊎◌, inl, inr, true, false, List, [], ◌∷◌, length, All, arith,
  Bool-cases,
}
use stream_rail.Rule.{Floats, Rule, agg_max, agg_min}
use stream_rail.Window.{Batch}
use stream_rail.Aggregator.{aggregate}
use stream_rail.Aggregator.Value.{selected, numbers, larger, smaller, aggregate-Describes}

-- What IEEE 754 says of `<` on float64: a NaN, which alone is not equal to itself, is neither less
-- nor greater than anything, and the other values are ordered.
pub record IsOrdered {F : Type 0} (fl : Floats F) : Type 0 where
  pub irrefl : (a : F) → fl.less a a ≡ false
  pub trans : (a b c : F) → fl.less a b ≡ true → fl.less b c ≡ true → fl.less a c ≡ true
  pub numbers_only : (a b : F) → fl.less a b ≡ true → (fl.equal a a ≡ true) × (fl.equal b b ≡ true)
  pub split :
      (a b c : F)
      → fl.less a c ≡ true
      → fl.equal b b ≡ true
      → (fl.less a b ≡ true) ⊎ (fl.less b c ≡ true)
  pub inf_number : (fl.equal fl.inf fl.inf ≡ true) × (fl.equal fl.neg_inf fl.neg_inf ≡ true)

module _ {F : Type 0} ⦃fl : Floats F⦄ (laws : IsOrdered fl) where
  not_less :
      (v m x : F)
      → fl.equal m m ≡ true
      → fl.less v (larger m x) ≡ false
      → (fl.less v m ≡ false) × (fl.less v x ≡ false)
  unfolding larger
  not_less v m x h e = ground (arith, laws.trans v m x, laws.split v m x)

  not_greater :
      (v m x : F)
      → fl.equal m m ≡ true
      → fl.less (smaller m x) v ≡ false
      → (fl.less m v ≡ false) × (fl.less x v ≡ false)
  unfolding smaller
  not_greater v m x h e = ground (arith, laws.trans x m v, laws.split x m v)

  larger_number : (m x : F) → fl.equal m m ≡ true → fl.equal (larger m x) (larger m x) ≡ true
  unfolding larger
  larger_number m x h = ground (arith, laws.numbers_only m x)

  smaller_number : (m x : F) → fl.equal m m ≡ true → fl.equal (smaller m x) (smaller m x) ≡ true
  unfolding smaller
  smaller_number m x h = ground (arith, laws.numbers_only x m)

  larger-bound :
      (m : F) (xs : List F)
      → fl.equal m m ≡ true
      → (fl.less (foldl larger m xs) m ≡ false)
        × All (λ f. fl.less (foldl larger m xs) f ≡ false) xs
  larger-bound m [] h = (laws.irrefl m, tt)
  larger-bound m (x ∷ xs) h =
      let ih = larger-bound (larger m x) xs (larger_number m x h) in
      let step = not_less (foldl larger (larger m x) xs) m x h ih.0 in (step.0, (step.1, ih.1))

  smaller-bound :
      (m : F) (xs : List F)
      → fl.equal m m ≡ true
      → (fl.less m (foldl smaller m xs) ≡ false)
        × All (λ f. fl.less f (foldl smaller m xs) ≡ false) xs
  smaller-bound m [] h = (laws.irrefl m, tt)
  smaller-bound m (x ∷ xs) h =
      let ih = smaller-bound (smaller m x) xs (smaller_number m x h) in
      let step = not_greater (foldl smaller (smaller m x) xs) m x h ih.0 in (step.0, (step.1, ih.1))

  -- The value is the first one or one of the list: it has what these have.
  larger-attained : (P : F → Type 0) (m : F) (xs : List F) → P m → All P xs → P (foldl larger m xs)
  larger-attained P m [] h a = h
  larger-attained P m (x ∷ xs) h a = larger-attained P (larger m x) xs picked a.1
    where
      picked : P (larger m x)
      picked = elim (Bool-cases (fl.less m x)) [
        | inl e ↦ unfold larger in rw e a.0
        | inr e ↦ unfold larger in rw e h
      ]

  -- MAX over a batch with at least one and fewer than 2 ^ 63 selected events, for floats that are
  -- ordered as IEEE 754 says: no number of the field is greater than the value, and the value is one
  -- of these numbers or the initial negative infinity.
  maximum_lem :
      (b : Batch F) (r : Rule F)
      → length (selected r b.events) < 2 ^ 63
      → r.agg_func ≡ agg_max
      → (aggregate b r).count ≢ 0
      → All
          (λ f. fl.less (aggregate b r).value f ≡ false)
          (numbers r.agg_field (selected r b.events))
        × ((P : F → Type 0)
            → P fl.neg_inf
            → All P (numbers r.agg_field (selected r b.events))
            → P (aggregate b r).value)
  maximum_lem b r small h some_event =
      rw ((aggregate-Describes b r small).maxima h some_event)
        ((larger-bound fl.neg_inf _ laws.inf_number.1).1, (λ P. larger-attained P fl.neg_inf _))

  -- MIN over a batch with at least one and fewer than 2 ^ 63 selected events, for floats that are
  -- ordered as IEEE 754 says: no number of the field is less than the value.
  minimum_lem :
      (b : Batch F) (r : Rule F)
      → length (selected r b.events) < 2 ^ 63
      → r.agg_func ≡ agg_min
      → (aggregate b r).count ≢ 0
      → All
          (λ f. fl.less f (aggregate b r).value ≡ false)
          (numbers r.agg_field (selected r b.events))
  minimum_lem b r small h some_event =
      rw ((aggregate-Describes b r small).minima h some_event)
        ((smaller-bound fl.inf _ laws.inf_number.0).1)

-- MAX over at least one and fewer than 2 ^ 63 selected events of which none holds a number in the
-- rule's field is negative infinity.
pub maximum_of_none :
    {F : Type 0} ⦃fl : Floats F⦄ (b : Batch F) (r : Rule F)
    → length (selected r b.events) < 2 ^ 63
    → r.agg_func ≡ agg_max
    → (aggregate b r).count ≢ 0
    → numbers r.agg_field (selected r b.events) ≡ []
    → (aggregate b r).value ≡ fl.neg_inf
maximum_of_none b r small h some_event none_left =
    (aggregate-Describes b r small).maxima h some_event ∙ ap (foldl larger _) none_left
