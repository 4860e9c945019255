-- ===== src/Engine/System/Acked.antt =====
-- An event is acknowledged upstream after every stream has taken it.
use mathlib.Core.Path.{subst}
use stream_rail.Common.{
  ℕ, ◌^◌, ◌<◌, ◌≤◌, ◌≡◌, ◌∙◌, ap, true, none, some, map, List, ◌++◌, nat_eq, arith, ◌↔◌,
}
use stream_rail.Window.{Store}
use stream_rail.Engine.Setup.{Stage}
use stream_rail.Engine.System.{Child, System, Action, perform_all, initial_system}
use stream_rail.Engine.System.Counts.{occurrences, sum-le, sum_full, sum_ones}
use stream_rail.Engine.System.Sound.{Sound, acked-le}
use stream_rail.Engine.System.Copies.{Sends, sent, copies, number_of}
use stream_rail.Engine.System.Live.{Plain, rests, perform_all-append}
use stream_rail.Engine.System.Steps.{perform_all-Sound, initial-Sound}

module _ {F S : Type 0} where
  -- The system that Run starts, after the actions.
  abbrev pub reached : (ℕ → Store F S) → ℕ → (ℕ → Stage F S) → List (Action F) → System F S
  reached stores n stages actions = perform_all stores n actions (initial_system stages)

  -- For at least one and fewer than 2 ^ 31 streams, after any sequence of actions of fanOut and of the
  -- managers: each stream has taken and acknowledged an event at most once, and the upstream
  -- acknowledgement of an accepted event that has one was called at most once, and it was called if and
  -- only if every stream has taken the event.
  pub acked_by_all :
      (stores : ℕ → Store F S) (n : ℕ) (stages : ℕ → Stage F S) (actions : List (Action F)) (k : ℕ)
      → 0 < n
      → n < 2 ^ 31
      → k < (reached stores n stages actions).accepted
      → ((reached stores n stages actions).barriers k).has_ack ≡ true
      → let s = reached stores n stages actions in
        ((j : ℕ) → j < n → occurrences k (s.stations j).acked ≤ 1)
        × ((s.barriers k).fired ≤ 1)
        × (((s.barriers k).fired ≡ 1) ↔ ((j : ℕ) → j < n → occurrences k (s.stations j).acked ≡ 1))
  acked_by_all stores n stages actions k pos_n small before has =
      let s = reached stores n stages actions in
      let v =
        perform_all-Sound n pos_n small stores actions _ (initial-Sound n pos_n small stages) in
      let once = acked-le n pos_n small s v k in
      let fired = (v.counted k before has).fired in
      let bound = sum-le n (λ j. occurrences k (s.stations j).acked) once in
      (
        once,
        ground (arith, fired),
        (
          (λ h.
              sum_full n (λ j. occurrences k (s.stations j).acked) once
                (ground (arith, fired, h, bound))),
          (λ h. ground (arith, fired, sum_ones n (λ j. occurrences k (s.stations j).acked) h)),
        ),
      )

  pending_bound :
      (n : ℕ) (s : System F S)
      → Sound n s
      → (child : Child F) (i : ℕ) → s.pending ≡ some (child, i)
      → i < n
  pending_bound n s v child i e = (subst (λ p. Sends n p s.accepted) e v.sends).1

  -- Managers whose sends never wait: the system can go on, with deliveries and receipts, until an
  -- accepted event is acknowledged once.
  pub eventually_fired :
      (stores : ℕ → Store F S) (n : ℕ) (stages : ℕ → Stage F S) (actions : List (Action F)) (k : ℕ)
      → 0 < n
      → n < 2 ^ 31
      → k < (reached stores n stages actions).accepted
      → ((reached stores n stages actions).barriers k).has_ack ≡ true
      → (more : List (Action F)) × Plain n more
        × (((reached stores n stages (actions ++ more)).barriers k).fired ≡ 1)
        × ((reached stores n stages (actions ++ more)).accepted
            ≡ (reached stores n stages actions).accepted)
  eventually_fired stores n stages actions k pos_n small before has =
      let s = reached stores n stages actions in
      let v =
        perform_all-Sound n pos_n small stores actions _ (initial-Sound n pos_n small stages) in
      let (more, plain, sends, done, idle) = rests stores n s (pending_bound n s v) in
      let t = perform_all stores n more s in
      let w = perform_all-Sound n pos_n small stores more s v in
      let known : k < t.accepted = omega (arith, before, sends.accepted) in
      let taken : (j : ℕ) → j < n → occurrences k (t.stations j).acked ≡ 1 = λ j lt.
        let held : copies (t.stations j) k ≡ sent {F = F} none t.accepted k j =
          w.copied k j lt ∙ ap (λ p. sent p t.accepted k j) done in
        let nothing = ap (λ q. occurrences k (map number_of q)) (idle j lt) in
        unfold occurrences in ground (arith, held, nothing, known) in
      let full = sum_ones n (λ j. occurrences k (t.stations j).acked) taken in
      let fired = (w.counted k known (sends.has_ack k ∙ has)).fired in
      (
        more,
        plain,
        ap (λ z. (z.barriers k).fired)
              (perform_all-append stores n actions more (initial_system stages))
            ∙ ground (arith, fired, full),
        ap (λ z. z.accepted) (perform_all-append stores n actions more (initial_system stages))
            ∙ sends.accepted,
      )
