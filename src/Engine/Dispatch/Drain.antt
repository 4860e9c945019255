-- ===== src/Engine/Dispatch/Drain.antt =====
-- From every state the goroutines of Run can go on until each batch that was sent is evaluated.
use mathlib.Core.List.{append-nil}
use mathlib.Core.Path.{subst}
use stream_rail.Common.{
  ℕ, zero, suc, ◌<◌, ◌≡◌, ◌≢◌, refl, sym, ap, ◌∙◌, true, Option, none, some, List, [], ◌∷◌, ◌++◌,
  arith, All, All-append, inl, inr,
}
use stream_rail.Rule.{Floats, Rule}
use stream_rail.Window.{Batch}
use stream_rail.Notifier.{Network, Notifier}
use stream_rail.Engine.{Counters}
use stream_rail.Engine.System.Copies.{update_self, update_other, index_cases}
use stream_rail.Engine.Dispatch.{
  TaggedBatch, Dispatch, Move, fetch, pass, take, fetch_from, pass_on, take_next, move, move_all,
  quiet,
}
use stream_rail.Engine.Dispatch.Sent.{is_inner}
use stream_rail.Engine.Dispatch.Lists.{of_stream, evaluate_all}
use stream_rail.Engine.Dispatch.Order.{Ordered, move_all-Ordered, dispatched_in_order}

module _ {F : Type 0} where
  abbrev pub Inner : List (Move F) → Type 0
  Inner ms = All (λ m. is_inner m ≡ true) ms

  -- Only the stream `i` has another lane, and it has sent what it had.
  record Beside (i : ℕ) (d e : Dispatch F) : Type 0 where
    pub sent : (e.lanes i).sent ≡ (d.lanes i).sent
    pub others : (j : ℕ) → j ≢ i → e.lanes j ≡ d.lanes j

  Beside-trans : {i : ℕ} {c d e : Dispatch F} → Beside i c d → Beside i d e → Beside i c e
  Beside-trans a b = record {
    sent = b.sent ∙ a.sent;
    others = λ j other. b.others j other ∙ a.others j other;
  }

  Beside-same : {i : ℕ} {d e : Dispatch F} → e.lanes ≡ d.lanes → Beside i d e
  Beside-same {i} e = record { sent = ap (λ l. (l i).sent) e; others = λ j other. ap (λ l. l j) e }

  module _ ⦃fl : Floats F⦄ ⦃net : Network F⦄ (notifiers : List (Notifier F))
      (rules : ℕ → List (Rule F)) where
    take_lem :
        (d : Dispatch F) (i : ℕ) (t : TaggedBatch F) (rest : List (ℕ × TaggedBatch F))
        → d.inbox ≡ (i, t) ∷ rest
        → ((move notifiers rules take d).inbox ≡ rest)
          × ((move notifiers rules take d).lanes ≡ d.lanes)
    unfolding move take_next
    take_lem d i t rest e = rw e (refl, refl)

    fetch_lem :
        (d : Dispatch F) (i : ℕ) (b : Batch F) (q : List (Batch F))
        → (d.lanes i).held ≡ none
        → (d.lanes i).queue ≡ b ∷ q
        → let e = move notifiers rules (fetch i) d in
          (e.inbox ≡ d.inbox) × ((e.lanes i).held ≡ some b) × ((e.lanes i).queue ≡ q) × Beside i d e
    unfolding move fetch_from
    fetch_lem d i b q h e =
        rw (h, e)
          (
            refl,
            ap (λ l. l.held) (update_self i _ d.lanes),
            ap (λ l. l.queue) (update_self i _ d.lanes),
            record {
              sent = ap (λ l. l.sent) (update_self i _ d.lanes);
              others = λ j other. update_other i j _ d.lanes other;
            },
          )

    pass_lem :
        (d : Dispatch F) (i : ℕ) (b : Batch F)
        → (d.lanes i).held ≡ some b
        → d.inbox ≡ []
        → let e = move notifiers rules (pass i) d in
          (e.inbox ≡ (i, record { batch = b; rules = rules i }) ∷ [])
          × ((e.lanes i).held ≡ none)
          × ((e.lanes i).queue ≡ (d.lanes i).queue)
          × Beside i d e
    unfolding move pass_on
    pass_lem d i b h e =
        rw (h, e)
          (
            refl,
            ap (λ l. l.held) (update_self i _ d.lanes),
            ap (λ l. l.queue) (update_self i _ d.lanes),
            record {
              sent = ap (λ l. l.sent) (update_self i _ d.lanes);
              others = λ j other. update_other i j _ d.lanes other;
            },
          )

    move_all-append :
        (xs ys : List (Move F)) (d : Dispatch F)
        → move_all notifiers rules (xs ++ ys) d
          ≡ move_all notifiers rules ys (move_all notifiers rules xs d)
    unfolding move_all
    move_all-append [] ys d = refl
    move_all-append (m ∷ xs) ys d = move_all-append xs ys (move notifiers rules m d)

    -- Run can go on from one state to the other with no new batch.
    pub record Reaches (d e : Dispatch F) : Type 0 where
      pub moves : List (Move F)
      pub inner : Inner moves
      pub arrives : move_all notifiers rules moves d ≡ e

    Reaches-trans : {c d e : Dispatch F} → Reaches c d → Reaches d e → Reaches c e
    Reaches-trans {c} f g = record {
      moves = f.moves ++ g.moves;
      inner = All-append (λ m. is_inner m ≡ true) f.moves g.moves f.inner g.inner;
      arrives =
          move_all-append f.moves g.moves c
          ∙ ap (move_all notifiers rules g.moves) f.arrives
          ∙ g.arrives;
    }

    Reaches-self : {d : Dispatch F} → Reaches d d
    unfolding move_all
    Reaches-self = record { moves = []; inner = tt; arrives = refl }

    Reaches-move :
        (m : Move F) (d : Dispatch F) → is_inner m ≡ true → Reaches d (move notifiers rules m d)
    unfolding move_all
    Reaches-move m d h = record { moves = m ∷ []; inner = (h, tt); arrives = refl }

    pub taken :
        (inbox : List (ℕ × TaggedBatch F)) (d : Dispatch F)
        → d.inbox ≡ inbox
        → (e : Dispatch F) × Reaches d e × (e.inbox ≡ []) × (e.lanes ≡ d.lanes)
    taken [] d e = (d, Reaches-self, e, refl)
    taken ((i, t) ∷ rest) d e =
        let (gone, same) = take_lem d i t rest e in
        let (last, reach, empty, lanes) = taken rest (move notifiers rules take d) gone in
        (last, Reaches-trans (Reaches-move take d refl) reach, empty, lanes ∙ same)

    -- The batch that a goroutine holds is passed on and taken.
    flushed :
        (i : ℕ) (held : Option (Batch F)) (d : Dispatch F)
        → (d.lanes i).held ≡ held
        → d.inbox ≡ []
        → (e : Dispatch F) × Reaches d e
          × (e.inbox ≡ [])
          × ((e.lanes i).held ≡ none)
          × ((e.lanes i).queue ≡ (d.lanes i).queue)
          × Beside i d e
    flushed i none d h e = (d, Reaches-self, e, h, refl, Beside-same refl)
    flushed i (some b) d h e =
        let c = move notifiers rules (pass i) d in
        let (arrived, free, queue, beside) = pass_lem d i b h e in
        let (gone, same) = take_lem c i _ [] arrived in
        (
          move notifiers rules take c,
          Reaches-trans (Reaches-move (pass i) d refl) (Reaches-move take c refl),
          gone,
          ap (λ l. (l i).held) same ∙ free,
          ap (λ l. (l i).queue) same ∙ queue,
          Beside-trans beside (Beside-same same),
        )

    abbrev pub IsClear : ℕ → Dispatch F → Type 0
    IsClear i d = ((d.lanes i).held ≡ none) × ((d.lanes i).queue ≡ [])

    cleared :
        (i : ℕ) (q : List (Batch F)) (d : Dispatch F)
        → (d.lanes i).held ≡ none
        → (d.lanes i).queue ≡ q
        → d.inbox ≡ []
        → (e : Dispatch F) × Reaches d e × (e.inbox ≡ []) × IsClear i e × Beside i d e
    cleared i [] d h e empty = (d, Reaches-self, empty, (h, e), Beside-same refl)
    cleared i (b ∷ q) d h e empty =
        let c = move notifiers rules (fetch i) d in
        let (inbox, full, queue, beside) = fetch_lem d i b q h e in
        let (next, reach, gone, free, same, beside2) = flushed i (some b) c full (inbox ∙ empty) in
        let (last, reach2, gone2, clear, beside3) = cleared i q next free (same ∙ queue) gone in
        (
          last,
          Reaches-trans (Reaches-move (fetch i) d refl) (Reaches-trans reach reach2),
          gone2,
          clear,
          Beside-trans beside (Beside-trans beside2 beside3),
        )

    -- The streams below `n` one after the other.
    pub all_cleared :
        (n : ℕ) (d : Dispatch F)
        → d.inbox ≡ []
        → (e : Dispatch F) × Reaches d e
          × (e.inbox ≡ [])
          × ((j : ℕ) → j < n → IsClear j e)
          × ((j : ℕ) → (e.lanes j).sent ≡ (d.lanes j).sent)
    all_cleared zero d empty =
        (d, Reaches-self, empty, (λ j lt. absurd (omega (arith, lt))), (λ j. refl))
    all_cleared (suc n) d empty =
        let (a, reach, empty_a, clear_a, sent_a) = all_cleared n d empty in
        let (b, reach_b, empty_b, free, same, beside) = flushed n (a.lanes n).held a refl empty_a in
        let (c, reach_c, empty_c, clear, beside_c) =
          cleared n (b.lanes n).queue b free refl empty_b in
        let both = Beside-trans beside beside_c in
        (
          c,
          Reaches-trans reach (Reaches-trans reach_b reach_c),
          empty_c,
          (λ j lt. elim (index_cases j n) [
            | inl is ↦ subst (λ z. IsClear z c) (sym is) clear
            | inr other ↦
                subst (λ l. (l.held ≡ none) × (l.queue ≡ [])) (sym (both.others j other))
                  (clear_a j (omega (arith, lt, other)))
          ]),
          (λ j. elim (index_cases j n) [
            | inl is ↦ rw is (both.sent ∙ sent_a n)
            | inr other ↦ ap (λ l. l.sent) (both.others j other) ∙ sent_a j
          ]),
        )

    -- After any interleaving from empty channels, for the streams below `n`: Run can go on, without
    -- another batch of a manager, to a state where each batch that the managers of these streams have
    -- sent is evaluated under the rules of its stream: what was emitted is the evaluation of a list of
    -- batches, and what a stream has sent are the batches of that stream in the list, in their order.
    pub every_batch_evaluated :
        (start : Option Counters) (ms : List (Move F)) (n : ℕ)
        → let d = move_all notifiers rules ms (quiet start) in
          (e : Dispatch F) × Reaches d e
          × ((done : List (ℕ × Batch F)) × (e.emitted ≡ evaluate_all notifiers rules done)
              × ((j : ℕ) → j < n → (d.lanes j).sent ≡ of_stream j done))
    every_batch_evaluated start ms n =
        let d = move_all notifiers rules ms (quiet start) in
        let (_, (first, ordered)) = dispatched_in_order notifiers rules start ms in
        let (c, reach, empty, same) = taken d.inbox d refl in
        let (e, reach2, gone, clear, sent) = all_cleared n c empty in
        let whole = Reaches-trans reach reach2 in
        let (more, last) = move_all-Ordered notifiers rules start whole.moves first d ordered in
        let o = subst (Ordered notifiers rules start (first ++ more)) whole.arrives last in
        (
          e,
          whole,
          (
            first ++ more,
            o.emitted,
            (λ j lt.
                ap (λ l. (l j).sent) (sym same)
                ∙ sym (sent j)
                ∙ o.flow j
                ∙ rw (gone, (clear j lt).0, (clear j lt).1) (unfold of_stream in append-nil _)),
          ),
        )
