-- ===== src/Engine/System/Live.antt =====
-- From every state that the system reaches it can go on until an event is acknowledged.
use mathlib.Core.Path.{subst}
use stream_rail.Common.{
  ℕ, zero, suc, ◌+◌, ◌-◌, ◌<◌, ◌≤◌, ◌≡◌, ◌≢◌, refl, sym, ap, ◌∙◌, true, none, some, List, [], ◌∷◌,
  ◌++◌, ◌==◌, nat_eq, ltb, arith, if◌then◌else◌, inl, inr, Option-cases, length, Bool, false, All,
  All-append,
}
use stream_rail.Window.{Store}
use stream_rail.Engine.{call_done}
use stream_rail.Engine.System.{
  Child, System, Action, accept, deliver, work, tick, update, send_child, take_child, perform,
  perform_all, queue_size,
}
use stream_rail.Engine.System.Copies.{update_self, update_other, has_ack-call_done, index_cases}

-- A delivery of fanOut, or a receipt of one of the managers.
abbrev pub is_plain : {F : Type 0} → ℕ → Action F → Bool
is_plain n (accept has_ack ev) = false
is_plain n deliver = true
is_plain n (work i) = ltb i n
is_plain n (tick i now order gc_order sends) = false

abbrev pub Plain : {F : Type 0} → ℕ → List (Action F) → Type 0
Plain n actions = All (λ a. is_plain n a ≡ true) actions

Plain-append :
    {F : Type 0} (n : ℕ) (xs ys : List (Action F)) → Plain n xs → Plain n ys → Plain n (xs ++ ys)
Plain-append n xs ys p q = All-append (λ a. is_plain n a ≡ true) xs ys p q

module _ {F S : Type 0} (stores : ℕ → Store F S) (n : ℕ) where
  pub perform_all-append :
      (xs ys : List (Action F)) (s : System F S)
      → perform_all stores n (xs ++ ys) s ≡ perform_all stores n ys (perform_all stores n xs s)
  unfolding perform_all
  perform_all-append [] ys s = refl
  perform_all-append (a ∷ xs) ys s = perform_all-append xs ys (perform stores n a s)

  -- What the managers leave alone.
  record Kept (s t : System F S) : Type 0 where
    pub accepted : t.accepted ≡ s.accepted
    pub pending : t.pending ≡ s.pending
    pub has_ack : (k : ℕ) → (t.barriers k).has_ack ≡ (s.barriers k).has_ack

  Kept-trans : {s t u : System F S} → Kept s t → Kept t u → Kept s u
  Kept-trans a b = record {
    accepted = b.accepted ∙ a.accepted;
    pending = b.pending ∙ a.pending;
    has_ack = λ k. b.has_ack k ∙ a.has_ack k;
  }

  -- A manager takes what its channel has.
  works : ℕ → List (Child F) → List (Action F)
  works i [] = []
  works i (c ∷ q) = work i ∷ works i q

  works-Plain : (i : ℕ) (q : List (Child F)) → i < n → Plain n (works i q)
  unfolding works
  works-Plain i [] lt = tt
  works-Plain i (c ∷ q) lt = (ground (arith, lt), works-Plain i q lt)

  has_ack-taken :
      (s : System F S) (number k : ℕ)
      → (update number (call_done (s.barriers number)) s.barriers k).has_ack
        ≡ (s.barriers k).has_ack
  has_ack-taken s number k = elim (index_cases k number) [
    | inl same ↦
        ap (λ z. (update number (call_done (s.barriers number)) s.barriers z).has_ack) same
        ∙ ap (λ b. b.has_ack) (update_self number (call_done (s.barriers number)) s.barriers)
        ∙ has_ack-call_done (s.barriers number)
        ∙ sym (ap (λ z. (s.barriers z).has_ack) same)
    | inr other ↦
        ap (λ b. b.has_ack) (update_other number k (call_done (s.barriers number)) s.barriers other)
  ]

  abbrev Empties : ℕ → System F S → System F S → Type 0
  Empties i s t =
      Kept s t
      × ((t.stations i).queue ≡ [])
      × ((j : ℕ) → j ≢ i → (t.stations j).queue ≡ (s.stations j).queue)

  drained :
      (i : ℕ) (q : List (Child F)) (s : System F S)
      → i < n
      → (s.stations i).queue ≡ q
      → Empties i s (perform_all stores n (works i q) s)
  unfolding works perform_all
  drained i [] s lt e =
      (record { accepted = refl; pending = refl; has_ack = λ k. refl }, e, (λ j other. refl))
  drained i (child ∷ rest) s lt e =
      let t = take_child (stores i) i (child ∷ rest) s in
      let step : perform stores n (work i) s ≡ t =
        unfold perform in ground (arith, lt, ap (λ q. take_child (stores i) i q s) e) in
      let kept : Kept s t =
        unfold take_child in
        record { accepted = refl; pending = refl; has_ack = λ k. has_ack-taken s child.number k } in
      let now : (t.stations i).queue ≡ rest =
        unfold take_child in ap (λ st. st.queue) (update_self i _ s.stations) in
      let ih = drained i rest t lt now in
      let same : (j : ℕ) → j ≢ i → (t.stations j).queue ≡ (s.stations j).queue =
        unfold take_child in λ j other. ap (λ st. st.queue) (update_other i j _ s.stations other) in
      subst (λ z. Empties i s (perform_all stores n (works i rest) z)) (sym step)
        (Kept-trans kept ih.0, ih.1, (λ j other. ih.2 j other ∙ same j other))

  abbrev pub Idle : ℕ → System F S → Type 0
  Idle m t = (j : ℕ) → j < m → (t.stations j).queue ≡ []

  -- The first `m` managers empty their channels.
  drained_all :
      (m : ℕ) (s : System F S)
      → m ≤ n
      → (actions : List (Action F)) × Plain n actions
        × Kept s (perform_all stores n actions s)
        × Idle m (perform_all stores n actions s)
  unfolding perform_all
  drained_all zero s le = (
    [],
    tt,
    record { accepted = refl; pending = refl; has_ack = λ k. refl },
    (λ j lt. absurd (omega (arith, lt))),
  )
  drained_all (suc m) s le =
      let (first, plain, kept, idle) = drained_all m s (omega arith) in
      let t = perform_all stores n first s in
      let q = (t.stations m).queue in
      let next = drained m q t (omega arith) refl in
      let both : perform_all stores n (first ++ works m q) s ≡ perform_all stores n (works m q) t =
        perform_all-append first (works m q) s in
      (
        first ++ works m q,
        Plain-append n first (works m q) plain (works-Plain m q (omega arith)),
        subst (Kept s) (sym both) (Kept-trans kept next.0),
        subst (Idle (suc m)) (sym both) (λ j lt. elim (index_cases j m) [
          | inl same ↦
              ap (λ a. ((perform_all stores n (works m q) t).stations a).queue) same ∙ next.1
          | inr other ↦ next.2 j other ∙ idle j (omega (arith, lt, other))
        ]),
      )

  -- What fanOut leaves alone.
  pub record Delivers (s t : System F S) : Type 0 where
    pub accepted : t.accepted ≡ s.accepted
    pub has_ack : (k : ℕ) → (t.barriers k).has_ack ≡ (s.barriers k).has_ack

  -- The system after a delivery to the stream `i`.
  after_delivery : Child F → ℕ → System F S → System F S
  after_delivery child i s =
      let st = s.stations i in
      record s {
        pending = if i + 1 == n then none else some (child, i + 1);
        stations = update i (record st { queue = st.queue ++ child ∷ [] }) s.stations;
      }

  deliver_step :
      (child : Child F) (i : ℕ) (s : System F S)
      → s.pending ≡ some (child, i)
      → (s.stations i).queue ≡ []
      → perform stores n deliver s ≡ after_delivery child i s
  unfolding perform send_child after_delivery
  deliver_step child i s e empty =
      let room : ltb (length (s.stations i).queue) queue_size ≡ true =
        ground (arith, ap length empty) in
      ground (arith, e, room)

  -- fanOut sends the pending child to the streams that are left, whose channels are empty.
  delivered :
      (gap i : ℕ) (child : Child F) (s : System F S)
      → i + suc gap ≡ n
      → s.pending ≡ some (child, i)
      → ((j : ℕ) → i ≤ j → j < n → (s.stations j).queue ≡ [])
      → (actions : List (Action F)) × Plain n actions
        × Delivers s (perform_all stores n actions s)
        × ((perform_all stores n actions s).pending ≡ none)
  unfolding perform_all after_delivery
  delivered zero i child s sum e empty =
      let step = deliver_step child i s e (empty i (omega arith) (omega (arith, sum))) in
      (
        deliver ∷ [],
        (refl, tt),
        subst (Delivers s) (sym step) (record { accepted = refl; has_ack = λ k. refl }),
        ap (λ t. t.pending) step ∙ ground (arith, sum),
      )
  delivered (suc gap) i child s sum e empty =
      let step = deliver_step child i s e (empty i (omega arith) (omega (arith, sum))) in
      let t = after_delivery child i s in
      let next : t.pending ≡ some (child, i + 1) = ground (arith, sum) in
      let (actions, plain, sends, idle) =
        delivered gap (i + 1) child t (omega (arith, sum)) next (λ j le lt.
          ap (λ st. st.queue) (update_other i j _ s.stations (λ is. omega (arith, is, le)))
          ∙ empty j (omega (arith, le)) lt) in
      (
        deliver ∷ actions,
        (refl, plain),
        subst (λ z. Delivers s (perform_all stores n actions z)) (sym step)
            (record { accepted = sends.accepted; has_ack = sends.has_ack }),
        ap (λ z. (perform_all stores n actions z).pending) step ∙ idle,
      )

  -- The system comes to rest: nothing is pending, and all channels are empty.
  pub rests :
      (s : System F S)
      → ((child : Child F) (i : ℕ) → s.pending ≡ some (child, i) → i < n)
      → (actions : List (Action F)) × Plain n actions
        × Delivers s (perform_all stores n actions s)
        × ((perform_all stores n actions s).pending ≡ none)
        × Idle n (perform_all stores n actions s)
  rests s bound =
      let (first, plain, kept, idle) = drained_all n s (omega arith) in
      let t = perform_all stores n first s in
      elim (Option-cases s.pending) [
        | inl e ↦ (
          first,
          plain,
          record { accepted = kept.accepted; has_ack = kept.has_ack },
          kept.pending ∙ e,
          idle,
        )
        | inr ((child, i), e) ↦
            let lt = bound child i e in
            let (second, plain2, sends, done) =
              delivered (n - suc i) i child t (omega (arith, lt)) (kept.pending ∙ e)
                (λ j le within. idle j within) in
            let u = perform_all stores n second t in
            let (third, plain3, kept', idle') = drained_all n u (omega arith) in
            let whole : perform_all stores n (first ++ (second ++ third)) s
                ≡ perform_all stores n third u =
              perform_all-append first (second ++ third) s ∙ perform_all-append second third t in
            (
              first ++ (second ++ third),
              Plain-append n first (second ++ third) plain
                  (Plain-append n second third plain2 plain3),
              record {
                accepted =
                    ap (λ z. z.accepted) whole ∙ kept'.accepted ∙ sends.accepted ∙ kept.accepted;
                has_ack = λ k.
                    ap (λ z. (z.barriers k).has_ack) whole
                    ∙ kept'.has_ack k
                    ∙ sends.has_ack k
                    ∙ kept.has_ack k;
              },
              ap (λ z. z.pending) whole ∙ kept'.pending ∙ done,
              subst (Idle n) (sym whole) idle',
            )
      ]
