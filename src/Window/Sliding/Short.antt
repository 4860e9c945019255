-- ===== src/Window/Sliding/Short.antt =====
-- A SlidingManager whose windows are shorter than its slide.
use native.Mathlib.Nat.{div-eq_of_lt}
use stream_rail.Common.{
  ℕ, ◌<◌, ◌≡◌, refl, Bool, Option, none, some, List, [], ◌∷◌, Str, arith, if◌then◌else◌,
}
use stream_rail.Common.Int.{pos, pos_part, quot}
use stream_rail.Common.Assoc.{lookup}
use stream_rail.Clock.{Instant}
use stream_rail.Model.{Event}
use stream_rail.Window.{Key, key_eq, Batch}
use stream_rail.Window.Sliding.{
  SlidingManager, new_sliding, advance_sliding, enter_all, add_sliding, close_sliding,
  close_expired_sliding,
}
use stream_rail.Window.Sliding.Once.{Action, arrives, ticks, perform, perform_all}

no_count : (size slide : ℕ) → size < slide → pos_part (quot (pos size) slide) ≡ 0
unfolding quot
no_count size slide h = div-eq_of_lt h

module _ {F : Type 0} where
  record IsIdle (out : Option (List (Batch F))) (m : SlidingManager F) : Type 0 where
    pub no_round : m.count ≡ 0
    pub no_window : m.windows ≡ []
    pub same_out : m.out ≡ out

  advance_sliding-IsIdle :
      {out : Option (List (Batch F))} (m : SlidingManager F) (ev : Event F)
      → IsIdle out m
      → IsIdle out (advance_sliding ev m)
  unfolding advance_sliding
  advance_sliding-IsIdle m ev h = record {
    no_round = ground (arith, h.no_round);
    no_window = ground (arith, h.no_window);
    same_out = ground (arith, h.same_out);
  }

  add_sliding-IsIdle :
      {out : Option (List (Batch F))} (m : SlidingManager F) (ev : Event F)
      → IsIdle out m
      → IsIdle out (add_sliding m ev)
  unfolding add_sliding
  add_sliding-IsIdle m ev h =
      let advanced = advance_sliding-IsIdle m ev h in
      unfold enter_all in rw (advanced.no_round, enter_all) advanced

  close_expired_sliding_lem :
      (now : Instant) (ks : List Key) (sends : ℕ) (m : SlidingManager F)
      → m.windows ≡ []
      → close_expired_sliding now ks (sends, m) ≡ m
  unfolding close_expired_sliding close_sliding lookup
  close_expired_sliding_lem now [] sends m h = refl
  close_expired_sliding_lem now (k ∷ ks) sends m h =
      ground (arith, h, close_expired_sliding_lem now ks sends m h)

  perform-IsIdle :
      {out : Option (List (Batch F))} (a : Action F) (m : SlidingManager F)
      → IsIdle out m
      → IsIdle out (perform a m)
  unfolding perform
  perform-IsIdle (arrives ev) m h = add_sliding-IsIdle m ev h
  perform-IsIdle (ticks now ks sends) m h =
      rw (close_expired_sliding_lem now ks sends m h.no_window) h

  perform_all-IsIdle :
      {out : Option (List (Batch F))} (actions : List (Action F)) (m : SlidingManager F)
      → IsIdle out m
      → IsIdle out (perform_all actions m)
  unfolding perform_all
  perform_all-IsIdle [] m h = h
  perform_all-IsIdle (a ∷ later) m h = perform_all-IsIdle later (perform a m) (perform-IsIdle a m h)

  -- A SlidingManager whose size is below its slide drops every event: whatever arrives and whenever
  -- it ticks, it has no window and sends no batch.
  pub short_windows_silent :
      (size slide : ℕ) (has_out : Bool) (group_by : Option (Event F → Str))
      (actions : List (Action F))
      → size < slide
      → let m = perform_all actions (new_sliding (pos size) (pos slide) has_out group_by) in
        (m.windows ≡ []) × (m.out ≡ (if has_out then some [] else none))
  unfolding new_sliding
  short_windows_silent size slide has_out group_by actions h = (idle.no_window, idle.same_out)
    where
      idle :
          IsIdle
            (if has_out then some [] else none)
            (perform_all actions (new_sliding (pos size) (pos slide) has_out group_by))
      idle =
          perform_all-IsIdle actions _
            (record { no_round = no_count size slide h; no_window = refl; same_out = refl })
