-- ===== src/Engine/Barrier.antt =====
-- The upstream acknowledgement fires once, after the last of the streams.
use stream_rail.Common.{
  ℕ, zero, suc, ◌+◌, ◌%◌, ◌^◌, ◌≤◌, ◌<◌, ◌≡◌, refl, true, leb, arith, if◌then◌else◌, ◌==◌, nat_eq,
}
use native.Mathlib.Numerals.{add-one}
use stream_rail.Engine.{AckBarrier, ack_barrier, call_done}

-- `calls` calls of the function that ackBarrier returned.
call_times : ℕ → AckBarrier → AckBarrier
call_times zero b = b
call_times (suc calls) b = call_done (call_times calls b)

pub record Counted (n calls : ℕ) (b : AckBarrier) : Type 0 where
  pub has_ack : b.has_ack ≡ true
  pub remaining : (b.remaining + calls) % 2 ^ 32 ≡ n % 2 ^ 32
  pub range : b.remaining < 2 ^ 32
  pub fired : b.fired ≡ (if leb n calls then 1 else 0)

pub call_done-Counted :
    (n calls : ℕ) (b : AckBarrier)
    → 0 < n
    → n < 2 ^ 31
    → suc calls < n + 2 ^ 31
    → Counted n calls b
    → Counted n (suc calls) (call_done b)
unfolding call_done
call_done-Counted n calls b h k l c = ground (arith, c)

call_times-Counted :
    (n calls : ℕ)
    → 0 < n
    → n < 2 ^ 31
    → calls < n + 2 ^ 31
    → Counted n calls (call_times calls (ack_barrier true n))
unfolding call_times ack_barrier
call_times-Counted n zero h k l = record {
  has_ack = refl;
  remaining = omega arith;
  range = omega arith;
  fired = ground arith;
}
call_times-Counted n (suc calls) h k l =
    call_done-Counted n calls _ h k l (call_times-Counted n calls h k (omega arith))

-- A barrier for `n` streams, at least one and fewer than 2 ^ 31: of the first `n` + 2 ^ 31 calls exactly the `n`-th fires the
-- acknowledgement.
call_times_fired :
    (n calls : ℕ)
    → 0 < n
    → n < 2 ^ 31
    → calls < n + 2 ^ 31
    → (call_times calls (ack_barrier true n)).fired ≡ (if leb n calls then 1 else 0)
call_times_fired n calls h k l = (call_times-Counted n calls h k l).fired

-- The life of one event behind its barrier: the copies that fanOut has delivered, those that the
-- managers have processed, and the barrier.
record Flight : Type 0 where
  pub delivered : ℕ
  pub processed : ℕ
  pub barrier : AckBarrier

-- The steps of fanOut and of the managers for `n` streams, in any interleaving. On shutdown they
-- just stop.
data FlightStep (n : ℕ) : Flight → Flight → Type 0 where
  deliver :
      (f : Flight) → f.delivered < n → FlightStep n f (record f { delivered = f.delivered + 1 })
  process :
      (f : Flight)
      → f.processed < f.delivered
      → FlightStep n f (record f { processed = f.processed + 1; barrier = call_done f.barrier })

data Flies (n : ℕ) : Flight → Type 0 where
  takeoff : Flies n (record { delivered = 0; processed = 0; barrier = ack_barrier true n })
  later : {f g : Flight} → Flies n f → FlightStep n f g → Flies n g

record OnCourse (n : ℕ) (f : Flight) : Type 0 where
  pub behind : f.processed ≤ f.delivered
  pub within : f.delivered ≤ n
  pub counted : Counted n f.processed f.barrier

FlightStep-OnCourse :
    {n : ℕ} {f g : Flight} → 0 < n → n < 2 ^ 31 → FlightStep n f g → OnCourse n f → OnCourse n g
FlightStep-OnCourse h k (deliver f lt) c = record {
  behind = omega (arith, c.behind);
  within = omega arith;
  counted = c.counted;
}
FlightStep-OnCourse {n} h k (process f lt) c = record {
  behind = omega arith;
  within = c.within;
  counted =
      rw (add-one f.processed)
        (call_done-Counted n f.processed f.barrier h k (omega (arith, c.within)) c.counted);
}

Flies-OnCourse : {n : ℕ} {f : Flight} → 0 < n → n < 2 ^ 31 → Flies n f → OnCourse n f
Flies-OnCourse {n} h k takeoff = record {
  behind = omega arith;
  within = omega arith;
  counted = unfold call_times in call_times-Counted n 0 h k (omega arith);
}
Flies-OnCourse h k (later r st) = FlightStep-OnCourse h k st (Flies-OnCourse h k r)

-- In every interleaving, for at least one and fewer than 2 ^ 31 streams, the upstream acknowledgement
-- of an event has fired once if all streams have processed their copies, and not at all before that.
acked_after_all :
    {n : ℕ} {f : Flight}
    → 0 < n
    → n < 2 ^ 31
    → Flies n f
    → (f.processed ≤ n) × (f.barrier.fired ≡ (if f.processed == n then 1 else 0))
acked_after_all {n} {f} h k r =
    (omega (arith, c.behind, c.within), ground (arith, c.behind, c.within, c.counted))
  where
    c : OnCourse n f
    c = Flies-OnCourse h k r
