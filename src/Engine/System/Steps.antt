-- ===== src/Engine/System/Steps.antt =====
-- What stays true in every interleaving of fanOut and the managers.
use mathlib.Core.Path.{subst}
use stream_rail.Common.{
  ℕ, ◌^◌, ◌<◌, refl, sym, ap, ◌∙◌, List, [], ◌∷◌, nat_eq, ltb, arith, inl, inr, Bool-cases,
  Option-cases,
}
use stream_rail.Window.{Store}
use stream_rail.Engine.Barrier.{Counted}
use stream_rail.Engine.Setup.{Stage}
use stream_rail.Engine.System.{
  Station, System, Action, accept, deliver, work, tick, close_stage, perform, perform_all,
  initial_system,
}
use stream_rail.Engine.System.Counts.{occurrences}
use stream_rail.Engine.System.Copies.{acks_same, copies, update_other, index_cases, copies_at}
use stream_rail.Engine.System.Sound.{Sound, open_barrier-Sound, send_child-Sound}
use stream_rail.Engine.System.Taken.{take_child-Sound}

module _ {F S : Type 0} where
  module _ (n : ℕ) (pos_n : 0 < n) (small : n < 2 ^ 31) where
    perform-Sound :
        (stores : ℕ → Store F S) (a : Action F) (s : System F S)
        → Sound n s
        → Sound n (perform stores n a s)
    unfolding perform
    perform-Sound stores (accept has_ack ev) s v = elim (Option-cases s.pending) [
      | inl e ↦
          subst (Sound n) (ground (arith, e)) (open_barrier-Sound n pos_n small has_ack ev s e v)
      | inr (p, e) ↦ subst (Sound n) (ground (arith, e)) v
    ]
    perform-Sound stores deliver s v = elim (Option-cases s.pending) [
      | inl e ↦ subst (Sound n) (ground (arith, e)) v
      | inr ((child, i), e) ↦
          subst (Sound n) (ground (arith, e)) (send_child-Sound n pos_n small child i s e v)
    ]
    perform-Sound stores (work i) s v = elim (Bool-cases (ltb i n)) [
      | inl there ↦ subst (Sound n) (ground (arith, there)) (
          take_child-Sound n pos_n small (stores i) i (s.stations i).queue s (ground (arith, there))
            refl v)
      | inr not_there ↦ subst (Sound n) (ground (arith, not_there)) v
    ]
    perform-Sound stores (tick i now order gc_order sends) s v =
        let old = s.stations i in
        let st : Station F S = record old {
          stage = close_stage (stores i) now order gc_order sends old.stage;
        } in
        record {
          copied = λ k j lt. elim (index_cases j i) [
            | inl is ↦
                copies_at i j k st s.stations is
                ∙ sym (ap (λ a. copies (s.stations a) k) is)
                ∙ v.copied k j lt
            | inr other ↦
                ap (λ z. copies z k) (update_other i j st s.stations other) ∙ v.copied k j lt
          ];
          sends = v.sends;
          counted = λ k lt has.
              subst (λ c. Counted n c (s.barriers k)) (sym (acks_same n i k st s.stations refl))
                (v.counted k lt has);
        }

    pub perform_all-Sound :
        (stores : ℕ → Store F S) (actions : List (Action F)) (s : System F S)
        → Sound n s
        → Sound n (perform_all stores n actions s)
    unfolding perform_all
    perform_all-Sound stores [] s v = v
    perform_all-Sound stores (a ∷ actions) s v =
        perform_all-Sound stores actions (perform stores n a s) (perform-Sound stores a s v)

    pub initial-Sound : (stages : ℕ → Stage F S) → Sound n (initial_system stages)
    unfolding initial_system occurrences
    initial-Sound stages = record {
      copied = λ k j lt. ground arith;
      sends = tt;
      counted = λ k lt has. absurd (omega (arith, lt));
    }
