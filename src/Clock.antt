-- ===== src/Clock.antt =====
-- What the program uses of package time: durations in nanoseconds, instants in nanoseconds since
-- the zero Time (year 1, UTC), `time.Unix`, `Time.Unix`, `Time.Add`, `Time.Truncate`, `Time.Before`.
-- Instants are unbounded integers: seconds beyond the int64 range of a Time are not modelled.
pub mod Truncate
use stream_rail.Common.{◌*◌, ◌^◌, Bool, if◌then◌else◌, ℕ}
use stream_rail.Common.Int.{ℤ, pos, pos_part, ◌+ℤ◌, ◌-ℤ◌, leb_ℤ, ltb_ℤ, floor_div, floor_mod, scale}

abbrev pub Duration : Type 0
Duration = ℤ

abbrev pub Instant : Type 0
Instant = ℤ

abbrev pub nanos : ℕ
nanos = 1_000_000_000

abbrev pub second : Duration
second = pos nanos

abbrev pub minute : Duration
minute = pos (60 * nanos)

-- Seconds from the zero Time to the Unix epoch.
abbrev pub epoch : ℤ
epoch = pos 62_135_596_800

-- time.Unix(s, 0)
unfoldable pub from_unix : ℤ → Instant
from_unix s = scale nanos (s +ℤ epoch)

-- t.Unix()
unfoldable pub unix : Instant → ℤ
unix t = floor_div t nanos -ℤ epoch

-- t.Add(d)
unfoldable pub add : Instant → Duration → Instant
add t d = t +ℤ d

-- t.Truncate(d): down to a multiple of `d` since the zero Time; `t` itself unless `d` is positive.
unfoldable pub truncate : Instant → Duration → Instant
truncate t d = if leb_ℤ d (pos 0) then t else t -ℤ pos (floor_mod t (pos_part d))

-- t.Before(u)
abbrev pub before : Instant → Instant → Bool
before t u = ltb_ℤ t u
