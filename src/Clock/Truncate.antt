-- ===== src/Clock/Truncate.antt =====
-- The window that `Truncate` finds for an instant.
use native.Mathlib.Nat.{div-add-mod, mod-lt, mod-eq_of_lt, add-mul-mod_self_left, mul-mod_right}
use stream_rail.Common.{ℕ, ◌+◌, ◌-◌, ◌*◌, ◌/◌, ◌<◌, ◌≡◌, arith}
use stream_rail.Common.Int.{
  ℤ, pos, negsuc, ◌+ℤ◌, ◌-ℤ◌, ◌≤ℤ◌, ◌<ℤ◌, +ℤ_parts, -ℤ_parts, floor_div, floor_mod, scale,
}
use stream_rail.Clock.{from_unix, unix, truncate}

pub floor_mod-lt : (a : ℤ) (d : ℕ) → 0 < d → floor_mod a d < d
unfolding floor_mod
floor_mod-lt (pos n) d h = mod-lt n h
floor_mod-lt (negsuc n) d h = omega (arith, mod-lt n h)

-- Truncation to a positive duration: the instant lies between the start that it gives and the end
-- one duration later, the start included and the end excluded.
pub truncate_bounds : (t d : ℤ) → pos 0 <ℤ d → (truncate t d ≤ℤ t) × (t <ℤ truncate t d +ℤ d)
unfolding truncate
truncate_bounds t (pos d) h = ground (
  arith,
  floor_mod-lt t d,
  -ℤ_parts t (pos (floor_mod t d)),
  +ℤ_parts (t -ℤ pos (floor_mod t d)) (pos d),
)
truncate_bounds t (negsuc d) h = absurd (omega arith)

pub unix-from_unix : (s : ℤ) → unix (from_unix s) ≡ s
unfolding unix from_unix floor_div scale ◌+ℤ◌ ◌-ℤ◌
unix-from_unix (pos n) = ground arith
unix-from_unix (negsuc n) = ground arith

-- Truncation goes to the grid.
pub truncate_pos : (n d : ℕ) → 0 < d → truncate (pos n) (pos d) ≡ pos (d * (n / d))
unfolding truncate floor_mod ◌-ℤ◌
truncate_pos n d h = ground (arith, div-add-mod n d)

truncate_negsuc : (n d : ℕ) → 0 < d → truncate (negsuc n) (pos d) ≡ negsuc (d - 1 + d * (n / d))
unfolding truncate floor_mod ◌-ℤ◌
truncate_negsuc n d h = ground (arith, div-add-mod n d, mod-lt n h)

pub truncate-on_grid : (t : ℤ) (d : ℕ) → 0 < d → floor_mod (truncate t (pos d)) d ≡ 0
truncate-on_grid (pos n) d h = rw (truncate_pos n d h) (unfold floor_mod in mul-mod_right d (n / d))
truncate-on_grid (negsuc n) d h = rw (truncate_negsuc n d h) (
    unfold floor_mod in
    omega (
      arith,
      add-mul-mod_self_left (d - 1) d (n / d),
      mod-eq_of_lt {n = d - 1} {m = d} (omega arith),
    ))
