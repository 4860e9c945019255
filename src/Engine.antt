-- ===== src/Engine.antt =====
-- internal/engine/engine.go: streams of rules, the evaluation of batches, and the barrier behind
-- which an event is acknowledged.
pub mod Streams
pub mod Barrier
pub mod Setup
pub mod System
pub mod Dispatch
pub mod Pipeline
use stream_rail.Common.{
  ℕ, zero, suc, ◌+◌, ◌-◌, ◌%◌, ◌^◌, ◌≡◌, ◌↔◌, Bool, true, false, ◌&&◌, Option, none, some, List, [],
  ◌∷◌, ◌++◌, map, Str, codes, ◌==◌, list_eq, list_beq_iff, nat_eq, Eq, arith, if◌then◌else◌,
}
use stream_rail.Common.Int.{ℤ, pos, leb_ℤ, int_eq, int_beq_iff}
use stream_rail.Common.Assoc.{lookup, insert}
use stream_rail.Clock.{Duration, minute}
use stream_rail.Model.{Event}
use stream_rail.Rule.{Floats, Rule, join, group_key}
use stream_rail.Window.{Batch}
use stream_rail.Aggregator.{Aggregate, aggregate}
use stream_rail.Notifier.{Network, Notifier, Emission, emit}

abbrev pub default_window : Duration
default_window = pos 300_000_000_000

-- The default window of `New`.
unfoldable pub engine_window : Duration → Duration
engine_window d = if leb_ℤ d (pos 0) then default_window else d

pub record StreamKey : Type 0 where
  pub size : Duration
  pub slide : Duration
  pub group_by : Str

unfoldable pub stream_key_beq : StreamKey → StreamKey → Bool
stream_key_beq j k = j.size == k.size && (j.slide == k.slide && j.group_by == k.group_by)

pub stream_key_beq_iff : (j k : StreamKey) → (stream_key_beq j k ≡ true) ↔ (j ≡ k)
unfolding stream_key_beq
stream_key_beq_iff j k = (
  (λ h. ground (
    arith,
    int_beq_iff j.size k.size,
    int_beq_iff j.slide k.slide,
    list_beq_iff j.group_by k.group_by,
  )),
  (λ h. ground (
    arith,
    int_beq_iff j.size k.size,
    int_beq_iff j.slide k.slide,
    list_beq_iff j.group_by k.group_by,
  )),
)

instance abbrev pub stream_key_eq : Eq StreamKey
stream_key_eq = record { beq = stream_key_beq; beq_iff = stream_key_beq_iff }

unfoldable pub normalize_group_by : List Str → Str
normalize_group_by [] = codes "service"
normalize_group_by (field ∷ rest) = join (codes "|") (field ∷ rest)

-- groupFuncFor
unfoldable pub group_func_for : {F : Type 0} ⦃fl : Floats F⦄ → List Str → Event F → Str
group_func_for fields ev = group_key ev fields

module _ {F : Type 0} (window : Duration) where
  unfoldable pub stream_key : Rule F → StreamKey
  stream_key r = record {
    size = if leb_ℤ r.window_size (pos 0) then window else r.window_size;
    slide = r.window_slide;
    group_by = normalize_group_by r.group_by;
  }

  abbrev pub rules_at : Option (List (Rule F)) → List (Rule F)
  rules_at none = []
  rules_at (some rs) = rs

  -- The first loop of Run: the rules of each stream, over those of an earlier map.
  unfoldable pub by_group :
      List (Rule F) → List (StreamKey × List (Rule F)) → List (StreamKey × List (Rule F))
  by_group [] m = m
  by_group (r ∷ rs) m =
      by_group rs (insert (stream_key r) (rules_at (lookup (stream_key r) m) ++ r ∷ []) m)

  -- The second loop of Run: the fields by which a stream groups.
  unfoldable pub group_fields :
      List (Rule F) → List (StreamKey × List Str) → List (StreamKey × List Str)
  group_fields [] m = m
  group_fields (r ∷ rs) m = group_fields rs (elim (lookup (stream_key r) m) [
    | none ↦ insert (stream_key r) r.group_by m
    | some fields ↦ m
  ])

-- The counters that the engine moves.
pub record Counters : Type 0 where
  pub late_events : ℕ
  pub closed_normally : ℕ
  pub closed_corrected : ℕ

unfoldable pub count_batch : {F : Type 0} → Batch F → Counters → Counters
count_batch b c =
    if b.corrected
    then record c { late_events = c.late_events + 1; closed_corrected = c.closed_corrected + 1 }
    else record c { closed_normally = c.closed_normally + 1 }

module _ {F : Type 0} ⦃fl : Floats F⦄ ⦃net : Network F⦄ where
  notify : List (Notifier F) → Rule F → Aggregate F → List (Emission × Bool)
  notify [] r res = []
  notify (n ∷ ns) r res = emit n r res ∷ notify ns r res

  -- What the loop of Run does with the rules of a batch.
  unfoldable pub evaluate : List (Notifier F) → List (Rule F) → Batch F → List (Emission × Bool)
  unfolding notify
  evaluate ns [] b = []
  evaluate ns (r ∷ rs) b = notify ns r (aggregate b r) ++ evaluate ns rs b

-- ackBarrier: the counter `remaining` of type int32, as its bit pattern, and the calls of the
-- upstream acknowledgement so far. `has_ack` is false for a nil callback.
pub record AckBarrier : Type 0 where
  pub has_ack : Bool
  pub remaining : ℕ
  pub fired : ℕ

unfoldable pub ack_barrier : Bool → ℕ → AckBarrier
ack_barrier has_ack n = record { has_ack = has_ack; remaining = n % 2 ^ 32; fired = 0 }

-- One call of the returned function: atomic.AddInt32(&remaining, -1).
unfoldable pub call_done : AckBarrier → AckBarrier
call_done b =
    if b.has_ack
    then (let left = (b.remaining + 2 ^ 32 - 1) % 2 ^ 32 in
        if left == 0
        then record b { remaining = left; fired = b.fired + 1 }
        else record b { remaining = left })
    else b
