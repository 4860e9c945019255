-- ===== src/Aggregator/Value.antt =====
-- What the loop of Aggregate computes, against folds over the numbers of the selected events.
use mathlib.Core.List.{foldl}
use stream_rail.Common.{
  ℕ, ◌+◌, ◌%◌, ◌^◌, ◌≡◌, ◌≢◌, refl, ◌⊎◌, inl, inr, true, false, Option, none, some, List, [], ◌∷◌,
  ◌==◌, list_eq, nat_eq, list_beq, list_beq_iff, length, ◌<◌, keep, arith, if◌then◌else◌,
  Bool-cases, Str,
}
use stream_rail.Common.Int.{pos, signed64}
use stream_rail.Model.{Event}
use stream_rail.Rule.{
  Floats, Rule, matches, field_float, agg_sum, agg_avg, agg_max, agg_min, agg_count,
}
use stream_rail.Window.{Batch}
use stream_rail.Aggregator.{Aggregate, Totals, initial, absorb, round, rounds, aggregate}

signed64_small : (n : ℕ) → n < 2 ^ 63 → signed64 n ≡ pos n
unfolding signed64
signed64_small n h = ground arith

module _ {F : Type 0} ⦃fl : Floats F⦄ where
  max_func :
      (r : Rule F)
      → r.agg_func ≡ agg_max
      → ((r.agg_func == agg_sum) ≡ false)
        × ((r.agg_func == agg_avg) ≡ false)
        × ((r.agg_func == agg_max) ≡ true)
  unfolding list_beq
  max_func r h = rw h (refl, refl, refl)

  min_func :
      (r : Rule F)
      → r.agg_func ≡ agg_min
      → ((r.agg_func == agg_sum) ≡ false)
        × ((r.agg_func == agg_avg) ≡ false)
        × ((r.agg_func == agg_max) ≡ false)
        × ((r.agg_func == agg_min) ≡ true)
  unfolding list_beq
  min_func r h = rw h (refl, refl, refl, refl)

  avg_func :
      (r : Rule F)
      → r.agg_func ≡ agg_avg
      → ((r.agg_func == agg_sum) ≡ false)
        × ((r.agg_func == agg_max) ≡ false)
        × ((r.agg_func == agg_min) ≡ false)
        × ((r.agg_func == agg_avg) ≡ true)
  unfolding list_beq
  avg_func r h = rw h (refl, refl, refl, refl)

  count_func :
      (r : Rule F)
      → r.agg_func ≡ agg_count
      → ((r.agg_func == agg_sum) ≡ false)
        × ((r.agg_func == agg_max) ≡ false)
        × ((r.agg_func == agg_min) ≡ false)
        × ((r.agg_func == agg_avg) ≡ false)
  unfolding list_beq
  count_func r h = rw h (refl, refl, refl, refl)

  -- The events that pass the filter, and the numbers in their field, in order.
  unfoldable pub selected : Rule F → List (Event F) → List (Event F)
  selected r = keep (matches r)

  unfoldable pub numbers : Str → List (Event F) → List F
  numbers field [] = []
  numbers field (ev ∷ evs) = elim (field_float ev field) [
    | none ↦ numbers field evs
    | some f ↦ f ∷ numbers field evs
  ]

  unfoldable pub larger : F → F → F
  larger m f = if fl.less m f then f else m

  unfoldable pub smaller : F → F → F
  smaller m f = if fl.less f m then f else m

  count-absorb : (r : Rule F) (o : Option F) (t : Totals F) → (absorb r o t).count ≡ t.count
  unfolding absorb
  count-absorb r none t = refl
  count-absorb r (some f) t = ground arith

  count-round :
      (r : Rule F) (ev : Event F) (t : Totals F)
      → (round r ev t).count ≡ (if matches r ev then (t.count + 1) % 2 ^ 64 else t.count)
  count-round r ev t = elim (Bool-cases (matches r ev)) [
    | inl e ↦ unfold round in rw (e, round) (count-absorb r (field_float ev r.agg_field) _)
    | inr e ↦ unfold round in rw (e, round) refl
  ]

  count-rounds :
      (r : Rule F) (evs : List (Event F)) (t : Totals F)
      → t.count < 2 ^ 64
      → (rounds r evs t).count ≡ (t.count + length (selected r evs)) % 2 ^ 64
  unfolding rounds selected
  count-rounds r [] t h = omega arith
  count-rounds r (ev ∷ evs) t h =
      ground (arith, count-round r ev t, count-rounds r evs (round r ev t))

  sum-rounds :
      (r : Rule F) (evs : List (Event F)) (t : Totals F)
      → (r.agg_func ≡ agg_sum) ⊎ (r.agg_func ≡ agg_avg)
      → (rounds r evs t).sum ≡ foldl fl.plus t.sum (numbers r.agg_field (selected r evs))
  unfolding rounds selected numbers round
  sum-rounds r [] t h = refl
  sum-rounds r (ev ∷ evs) t h = ground (
    arith,
    list_beq_iff r.agg_func agg_sum,
    list_beq_iff r.agg_func agg_avg,
    sum-rounds r evs (round r ev t) h,
  )

  max-rounds :
      (r : Rule F) (evs : List (Event F)) (t : Totals F)
      → r.agg_func ≡ agg_max
      → (rounds r evs t).max ≡ foldl larger t.max (numbers r.agg_field (selected r evs))
  unfolding rounds selected numbers round larger
  max-rounds r [] t h = refl
  max-rounds r (ev ∷ evs) t h =
      ground
        (arith, list_beq_iff r.agg_func agg_max, max_func r h, max-rounds r evs (round r ev t) h)

  min-rounds :
      (r : Rule F) (evs : List (Event F)) (t : Totals F)
      → r.agg_func ≡ agg_min
      → (rounds r evs t).min ≡ foldl smaller t.min (numbers r.agg_field (selected r evs))
  unfolding rounds selected numbers round smaller
  min-rounds r [] t h = refl
  min-rounds r (ev ∷ evs) t h = ground (arith, min_func r h, min-rounds r evs (round r ev t) h)

  -- What Aggregate promises of a batch whose events are `evs`.
  pub record Describes (r : Rule F) (evs : List (Event F)) (a : Aggregate F) : Type 0 where
    pub counts : a.count ≡ length (selected r evs)
    pub sums :
        r.agg_func ≡ agg_sum
        → a.value ≡ foldl fl.plus (fl.of_int (pos 0)) (numbers r.agg_field (selected r evs))
    pub averages :
        r.agg_func ≡ agg_avg
        → a.count ≢ 0
        → a.value
          ≡ fl.divide
              (foldl fl.plus (fl.of_int (pos 0)) (numbers r.agg_field (selected r evs)))
              (fl.of_int (pos a.count))
    pub maxima :
        r.agg_func ≡ agg_max
        → a.count ≢ 0
        → a.value ≡ foldl larger fl.neg_inf (numbers r.agg_field (selected r evs))
    pub minima :
        r.agg_func ≡ agg_min
        → a.count ≢ 0
        → a.value ≡ foldl smaller fl.inf (numbers r.agg_field (selected r evs))
    pub count_value : r.agg_func ≡ agg_count → a.value ≡ fl.of_int (pos a.count)
    pub empties : a.count ≡ 0 → r.agg_func ≢ agg_sum → a.value ≡ fl.of_int (pos 0)

  -- Aggregate counts the events that pass the filter, fewer than 2 ^ 63 of them; its value is the
  -- sum, the average over all these events, the largest or the smallest of the numbers in the
  -- rule's field, or the count, as the rule's function says; without an event it is zero.
  pub aggregate-Describes :
      (b : Batch F) (r : Rule F)
      → length (selected r b.events) < 2 ^ 63
      → Describes r b.events (aggregate b r)
  unfolding aggregate
  aggregate-Describes b r small = record {
    counts = counted;
    sums =
        λ h. ground (arith, list_beq_iff r.agg_func agg_sum, sum-rounds r b.events initial (inl h));
    averages =
        λ h some_event. ground (arith, avg_func r h, signed, sum-rounds r b.events initial (inr h));
    maxima = λ h some_event. ground (arith, max_func r h, signed, max-rounds r b.events initial h);
    minima = λ h some_event. ground (arith, min_func r h, signed, min-rounds r b.events initial h);
    count_value = λ h. ground (arith, count_func r h, signed);
    empties = λ none_left other. ground (arith, list_beq_iff r.agg_func agg_sum, signed);
  }
    where
      t : Totals F
      t = rounds r b.events initial

      counted : t.count ≡ length (selected r b.events)
      counted = omega (arith, count-rounds r b.events initial (omega arith))

      signed : signed64 t.count ≡ pos t.count
      signed = signed64_small t.count (omega (arith, counted))
