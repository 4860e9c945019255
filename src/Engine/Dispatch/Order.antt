-- ===== src/Engine/Dispatch/Order.antt =====
-- No batch is lost, doubled or overtaken by a later one of its stream between its manager and the
-- evaluation of it.
use mathlib.Core.Option
use mathlib.Core.Path.{subst}
use mathlib.Core.List.{append_assoc, append-nil}
use stream_rail.Common.{
  ℕ, ◌≡◌, refl, sym, ap, ◌∙◌, Option, none, some, List, [], ◌∷◌, ◌++◌, ◌==◌, nat_eq, ltb, length,
  arith, All, All-append, beq_refl, inl, inr, Bool-cases, Option-cases,
}
use stream_rail.Rule.{Floats, Rule}
use stream_rail.Window.{Batch}
use stream_rail.Notifier.{Network, Notifier}
use stream_rail.Engine.{Counters, count_batch}
use stream_rail.Engine.System.{update}
use stream_rail.Engine.Dispatch.{
  TaggedBatch, Lane, Dispatch, Move, send, fetch, pass, take, buffer, send_out, fetch_from, pass_on,
  take_next, move, move_all, quiet,
}
use stream_rail.Engine.Dispatch.Lists.{
  at_lane, of_stream, of_stream-append, of_stream-tagged, untagged, held_list, under_way, regroup,
  shifted, count_all, count_all-append, evaluate_all, evaluate_all-append,
}
use stream_rail.Engine.Dispatch.Room.{HasRoom, quiet-HasRoom, move_all-HasRoom}

module _ {F : Type 0} where
  module _ ⦃fl : Floats F⦄ ⦃net : Network F⦄ (notifiers : List (Notifier F))
      (rules : ℕ → List (Rule F)) where
    abbrev OwnRules : ℕ × TaggedBatch F → Type 0
    OwnRules (i, t) = t.rules ≡ rules i

    module _ (start : Option Counters) where
      -- `done` are the batches that Run has taken, in their order.
      pub record Ordered (done : List (ℕ × Batch F)) (d : Dispatch F) : Type 0 where
        pub emitted : d.emitted ≡ evaluate_all notifiers rules done
        pub counters : d.counters ≡ Option.map (count_all done) start
        pub flow : (i : ℕ) → (d.lanes i).sent ≡ of_stream i done ++ under_way d i
        pub tagged : All OwnRules d.inbox

      pub quiet-Ordered : Ordered [] (quiet start)
      unfolding quiet evaluate_all of_stream
      quiet-Ordered = record {
        emitted = refl;
        counters = elim (Option-cases start) [
          | inl e ↦ rw e refl
          | inr (c, e) ↦ unfold count_all in rw e refl
        ];
        flow = λ i. refl;
        tagged = tt;
      }

      -- A new lane for one stream.
      flow-update :
          (done : List (ℕ × Batch F)) (d : Dispatch F) (i : ℕ) (lane : Lane F)
          → Ordered done d
          → lane.sent
            ≡ of_stream i done
              ++ (of_stream i (untagged d.inbox) ++ (held_list lane.held ++ lane.queue))
          → Ordered done (record d { lanes = update i lane d.lanes })
      flow-update done d i lane o e = record {
        emitted = o.emitted;
        counters = o.counters;
        flow =
            at_lane
              (λ j l.
                l.sent
                ≡ of_stream j done
                  ++ (of_stream j (untagged d.inbox) ++ (held_list l.held ++ l.queue)))
              i lane d.lanes e (λ j other. o.flow j);
        tagged = o.tagged;
      }

      counted :
          (done : List (ℕ × Batch F)) (i : ℕ) (b : Batch F) (counters : Option Counters)
          → counters ≡ Option.map (count_all done) start
          → Option.map (count_batch b) counters ≡ Option.map (count_all (done ++ (i, b) ∷ [])) start
      counted done i b counters e = elim (Option-cases start) [
        | inl none_at ↦ rw (e, none_at) refl
        | inr (c, at) ↦ rw (e, at) (ap some (sym (count_all-append done i b c)))
      ]

      send_out-Ordered :
          (done : List (ℕ × Batch F)) (i : ℕ) (b : Batch F) (d : Dispatch F)
          → Ordered done d
          → Ordered done (send_out i b d)
      unfolding send_out
      send_out-Ordered done i b d o = elim (Bool-cases (ltb (length (d.lanes i).queue) buffer)) [
        | inr full ↦ rw full o
        | inl room ↦ rw room (
            flow-update done d i _ o (
              ap (λ l. l ++ b ∷ []) (o.flow i)
              ∙ regroup (of_stream i done) (of_stream i (untagged d.inbox))
                  (held_list (d.lanes i).held) (d.lanes i).queue (b ∷ [])))
      ]

      fetch_from-Ordered :
          (done : List (ℕ × Batch F)) (i : ℕ) (d : Dispatch F) (held : Option (Batch F))
          (queue : List (Batch F))
          → (d.lanes i).held ≡ held
          → (d.lanes i).queue ≡ queue
          → Ordered done d
          → Ordered done (fetch_from i held queue d)
      unfolding fetch_from
      fetch_from-Ordered done i d (some b) queue h q o = o
      fetch_from-Ordered done i d none [] h q o = o
      fetch_from-Ordered done i d none (b ∷ queue) h q o =
          flow-update done d i _ o (rw (o.flow i, h, q) refl)

      pass_on-Ordered :
          (done : List (ℕ × Batch F)) (i : ℕ) (held : Option (Batch F)) (d : Dispatch F)
          → (d.lanes i).held ≡ held
          → Ordered done d
          → Ordered done (pass_on rules i held d)
      unfolding pass_on
      pass_on-Ordered done i none d h o = o
      pass_on-Ordered done i (some b) d h o = elim (Bool-cases (ltb (length d.inbox) buffer)) [
        | inr full ↦ rw full o
        | inl room ↦ rw room (record {
          emitted = o.emitted;
          counters = o.counters;
          flow =
              at_lane
                (λ j l.
                  l.sent
                  ≡ of_stream j done
                    ++ (of_stream j (untagged (d.inbox ++ (i, tagged_batch) ∷ []))
                        ++ (held_list l.held ++ l.queue)))
                i _ d.lanes
                (rw (o.flow i, h, of_stream-tagged i i tagged_batch d.inbox, beq_refl i)
                  (ap (λ l. of_stream i done ++ l)
                    (sym
                      (append_assoc (of_stream i (untagged d.inbox)) (b ∷ []) (d.lanes i).queue))))
                (λ j other.
                  rw (of_stream-tagged j i tagged_batch d.inbox)
                    (ground (arith, other, o.flow j, append-nil (of_stream j (untagged d.inbox)))));
          tagged = All-append OwnRules d.inbox _ o.tagged (refl, tt);
        })
      ]
        where
          tagged_batch : TaggedBatch F
          tagged_batch = record { batch = b; rules = rules i }

      take_next-Ordered :
          (done : List (ℕ × Batch F)) (inbox : List (ℕ × TaggedBatch F)) (d : Dispatch F)
          → d.inbox ≡ inbox
          → Ordered done d
          → (more : List (ℕ × Batch F)) × Ordered (done ++ more) (take_next notifiers inbox d)
      unfolding take_next
      take_next-Ordered done [] d e o = ([], rw (append-nil done) o)
      take_next-Ordered done ((i, t) ∷ rest) d e o = (
        (i, t.batch) ∷ [],
        record {
          emitted = rw (o.emitted, evaluate_all-append notifiers rules done i t.batch, own) refl;
          counters = counted done i t.batch d.counters o.counters;
          flow = λ j.
              o.flow j
              ∙ rw (e, of_stream-append j done ((i, t.batch) ∷ []))
                  (unfold of_stream in
                    shifted (i == j) t.batch (of_stream j done) (of_stream j (untagged rest))
                      (held_list (d.lanes j).held ++ (d.lanes j).queue));
          tagged = tags.1;
        },
      )
        where
          tags : All OwnRules ((i, t) ∷ rest)
          tags = subst (All OwnRules) e o.tagged

          own : t.rules ≡ rules i
          own = tags.0

      pub move-Ordered :
          (done : List (ℕ × Batch F)) (m : Move F) (d : Dispatch F)
          → Ordered done d
          → (more : List (ℕ × Batch F)) × Ordered (done ++ more) (move notifiers rules m d)
      unfolding move
      move-Ordered done (send i b) d o = ([], rw (append-nil done) (send_out-Ordered done i b d o))
      move-Ordered done (fetch i) d o =
          ([], rw (append-nil done) (fetch_from-Ordered done i d _ _ refl refl o))
      move-Ordered done (pass i) d o =
          ([], rw (append-nil done) (pass_on-Ordered done i _ d refl o))
      move-Ordered done take d o = take_next-Ordered done d.inbox d refl o

      pub move_all-Ordered :
          (ms : List (Move F)) (done : List (ℕ × Batch F)) (d : Dispatch F)
          → Ordered done d
          → (more : List (ℕ × Batch F)) × Ordered (done ++ more) (move_all notifiers rules ms d)
      unfolding move_all
      move_all-Ordered [] done d o = ([], rw (append-nil done) o)
      move_all-Ordered (m ∷ ms) done d o =
          let (first, p) = move-Ordered done m d o in
          let (more, q) = move_all-Ordered ms (done ++ first) (move notifiers rules m d) p in
          (first ++ more, rw (sym (append_assoc done first more)) q)

      -- From empty channels, in any interleaving of the managers, the goroutines that forward and the
      -- loop of Run: there are batches, each with its stream, such that what was emitted is the
      -- evaluation of each under the rules of its stream, in their order, the counters are theirs, and
      -- the batches that a stream's manager has sent are those of the stream among them, in the order of
      -- the sending, and after these the ones under way. No channel holds more than its capacity.
      pub dispatched_in_order :
          (ms : List (Move F))
          → let d = move_all notifiers rules ms (quiet start) in
            HasRoom d × ((done : List (ℕ × Batch F)) × Ordered done d)
      dispatched_in_order ms = (
        move_all-HasRoom notifiers rules ms (quiet start) (quiet-HasRoom start),
        move_all-Ordered ms [] (quiet start) quiet-Ordered,
      )
