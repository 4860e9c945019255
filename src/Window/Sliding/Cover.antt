-- ===== src/Window/Sliding/Cover.antt =====
-- The rounds of the SlidingManager's `add` are the windows that contain the event.
use native.Mathlib.Decide.{dec_lt}
use stream_rail.Common.{ℕ, ◌+◌, ◌*◌, ◌≤◌, ◌<◌, ◌≡◌, ◌↔◌, ap, ◌∙◌, arith}
use stream_rail.Common.Int.{
  pos, ◌+ℤ◌, ◌-ℤ◌, ◌≤ℤ◌, ◌<ℤ◌, +ℤ_parts, -ℤ_parts, scale, scale_parts, wrap64_small, InInt64,
  int_laws,
}
use stream_rail.Clock.{Instant, add, truncate}
use stream_rail.Clock.Truncate.{truncate_bounds}
use stream_rail.Window.Sliding.{start_of}

mul-lt : (i c d : ℕ) → i < c → i * d + d ≤ c * d
mul-lt i c d h = grind arith

mul-le : (i c d : ℕ) → c ≤ i → c * d ≤ i * d
mul-le i c d h = grind arith

start_of_exact :
    (d : ℕ) (base : Instant) (i : ℕ)
    → InInt64 (pos 0 -ℤ scale i (pos d))
    → start_of (pos d) base i ≡ base -ℤ pos (i * d)
unfolding start_of add
start_of_exact d base i r =
    ap (◌+ℤ◌ base) (wrap64_small _ r)
    ∙ omega (int_laws, -ℤ_parts (pos 0) (scale i (pos d)), scale_parts i (pos d))

module _ (t base : Instant) (d : ℕ) (below : base ≤ℤ t) (above : t <ℤ base +ℤ pos d) where
  abbrev Contains : ℕ → ℕ → Type 0
  Contains count i = (base -ℤ pos (i * d) ≤ℤ t) × (t <ℤ base -ℤ pos (i * d) +ℤ pos (count * d))

  covered : (count i : ℕ) → i < count → Contains count i
  covered count i p = omega (
    arith,
    mul-lt i count d p,
    +ℤ_parts base (pos d),
    -ℤ_parts base (pos (i * d)),
    +ℤ_parts (base -ℤ pos (i * d)) (pos (count * d)),
  )

  inside : (count i : ℕ) → Contains count i → i < count
  inside count i c = elim (dec_lt i count) [
    | yes p ↦ p
    | no p ↦ absurd (
        omega (
          arith,
          mul-le i count d (omega arith),
          +ℤ_parts base (pos d),
          -ℤ_parts base (pos (i * d)),
          +ℤ_parts (base -ℤ pos (i * d)) (pos (count * d)),
        ))
  ]

-- A size of `count` slides. The window of round `i` contains the instant `t` exactly when `i` is
-- below `count`, while the offset of the round fits an int64.
pub start_of-contains :
    (t : Instant) (d count i : ℕ)
    → 0 < d
    → InInt64 (pos 0 -ℤ scale i (pos d))
    → let start = start_of (pos d) (truncate t (pos d)) i in
      ((start ≤ℤ t) × (t <ℤ start +ℤ pos (count * d))) ↔ (i < count)
start_of-contains t d count i h r = rw (start_of_exact d (truncate t (pos d)) i r) (
  inside t (truncate t (pos d)) d bounds.0 bounds.1 count i,
  covered t (truncate t (pos d)) d bounds.0 bounds.1 count i,
)
  where
    bounds : (truncate t (pos d) ≤ℤ t) × (t <ℤ truncate t (pos d) +ℤ pos d)
    bounds = truncate_bounds t (pos d) (omega arith)
