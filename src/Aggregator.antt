-- ===== src/Aggregator.antt =====
-- internal/aggregator/agg.go: one number for the events of a batch under a rule.
pub mod Value
pub mod Extremes
use stream_rail.Common.{
  ℕ, ◌+◌, ◌%◌, ◌^◌, Bool, true, false, not, ◌||◌, Option, none, some, List, [], ◌∷◌, ◌==◌, list_eq,
  nat_eq, if◌then◌else◌,
}
use stream_rail.Common.Int.{ℤ, pos, ltb_ℤ, signed64}
use stream_rail.Clock.{Instant}
use stream_rail.Model.{Event}
use stream_rail.Rule.{Floats, Rule, matches, field_float, agg_sum, agg_avg, agg_max, agg_min}
use stream_rail.Window.{Key, Batch}

pub record Aggregate (F : Type 0) : Type 0 where
  pub key : Key
  pub window_end : Instant
  pub count : ℕ
  pub value : F
  pub corrected : Bool

-- The variables of the loop.
pub record Totals (F : Type 0) : Type 0 where
  pub count : ℕ
  pub sum : F
  pub max : F
  pub min : F

module _ {F : Type 0} ⦃fl : Floats F⦄ where
  abbrev pub initial : Totals F
  initial = record { count = 0; sum = fl.of_int (pos 0); max = fl.neg_inf; min = fl.inf }

  -- The switch of the loop, on the number that the field holds, if it holds one.
  unfoldable pub absorb : Rule F → Option F → Totals F → Totals F
  absorb r none t = t
  absorb r (some f) t =
      if r.agg_func == agg_sum || r.agg_func == agg_avg
      then record t { sum = fl.plus t.sum f }
      else if r.agg_func == agg_max
      then (if fl.less t.max f then record t { max = f } else t)
      else if r.agg_func == agg_min
      then (if fl.less f t.min then record t { min = f } else t)
      else t

  unfoldable pub round : Rule F → Event F → Totals F → Totals F
  unfolding absorb
  round r ev t =
      if not (matches r ev)
      then t
      else absorb r (field_float ev r.agg_field) (record t { count = (t.count + 1) % 2 ^ 64 })

  unfoldable pub rounds : Rule F → List (Event F) → Totals F → Totals F
  rounds r [] t = t
  rounds r (ev ∷ evs) t = rounds r evs (round r ev t)

  unfoldable pub value_of : Rule F → Totals F → F
  value_of r t =
      let some_event = ltb_ℤ (pos 0) (signed64 t.count) in
      if r.agg_func == agg_sum
      then t.sum
      else if r.agg_func == agg_max
      then (if some_event then t.max else fl.of_int (pos 0))
      else if r.agg_func == agg_min
      then (if some_event then t.min else fl.of_int (pos 0))
      else if r.agg_func == agg_avg
      then (if some_event
          then fl.divide t.sum (fl.of_int (signed64 t.count))
          else fl.of_int (pos 0))
      else fl.of_int (signed64 t.count)

  unfoldable pub aggregate : Batch F → Rule F → Aggregate F
  unfolding value_of
  aggregate b r =
      let t = rounds r b.events initial in
      record {
        key = b.key;
        window_end = b.window_end;
        count = t.count;
        value = value_of r t;
        corrected = b.corrected;
      }
