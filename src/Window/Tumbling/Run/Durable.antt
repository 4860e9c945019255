-- ===== src/Window/Tumbling/Run/Durable.antt =====
-- The loop of Run keeps the store equal to what the manager holds.
use mathlib.Core.Path.{subst}
use stream_rail.Common.{ℕ, ◌≡◌, refl, ◌∙◌, true, List, [], ◌∷◌, Str, All, some}
use stream_rail.Clock.{Duration, Instant, truncate, from_unix}
use stream_rail.Model.{Event}
use stream_rail.Window.{Key, Store}
use stream_rail.Window.Contract.{Table}
use stream_rail.Window.Tumbling.{
  Manager, key_for, advance, place, add_event, restore, append_open, append_closed, emit_blocking,
  retain, close_expired,
}
use stream_rail.Window.Tumbling.Cases.{advance_cases, place_cases, close_expired_keeps}
use stream_rail.Window.Tumbling.Durable.{
  Mirrors, IsDurable, add_event-IsDurable, close_expired-IsDurable,
}
use stream_rail.Window.Tumbling.Restart.{started, Resumes, restore-Resumes}
use stream_rail.Window.Tumbling.Run.{
  Signal, done, receive, in_closed, tick, Loop, Exit, running, cancelled, finished, react, take,
  run,
}

-- The key of an event's window, for a size and a grouping.
abbrev pub window_key : {F : Type 0} → Duration → (Event F → Str) → Event F → Key
window_key size group_by ev = record {
  rule_name = [];
  group_key = group_by ev;
  window_start = truncate (from_unix ev.timestamp) size;
}

module _ {F S : Type 0} (size lateness : Duration) (group_by : Event F → Str) where
  -- What a manager was set up with.
  pub record HasSetup (m : Manager F S) : Type 0 where
    pub same_size : m.size ≡ size
    pub same_lateness : m.lateness ≡ lateness
    pub same_group : m.group_by ≡ group_by

  copied :
      {m : Manager F S}
      → HasSetup m
      → (n : Manager F S) → n.size ≡ m.size
      → n.lateness ≡ m.lateness
      → n.group_by ≡ m.group_by
      → HasSetup n
  copied h n p q r = record {
    same_size = p ∙ h.same_size;
    same_lateness = q ∙ h.same_lateness;
    same_group = r ∙ h.same_group;
  }

  key_for-HasSetup :
      (m : Manager F S) (ev : Event F) → HasSetup m → key_for m ev ≡ window_key size group_by ev
  unfolding key_for
  key_for-HasSetup m ev h = rw (h.same_size, h.same_group) refl

  module _ ⦃ops : Store F S⦄ where
    pub advance-HasSetup : (m : Manager F S) (ev : Event F) → HasSetup m → HasSetup (advance ev m)
    advance-HasSetup m ev h = advance_cases HasSetup ev m (λ _. copied h _ refl refl refl) (λ _. h)

    place-HasSetup :
        (k : Key) (m : Manager F S) (ev : Event F) → HasSetup m → HasSetup (place k ev m)
    unfolding append_open append_closed emit_blocking
    place-HasSetup k m ev h =
        place_cases HasSetup k ev m (λ _ _. copied h _ refl refl refl)
          (λ _ _ _. copied h _ refl refl refl) (λ _ _ _. copied h _ refl refl refl)
          (λ _ _ _. copied h _ refl refl refl)

    add_event-HasSetup : (m : Manager F S) (ev : Event F) → HasSetup m → HasSetup (add_event m ev)
    unfolding add_event
    add_event-HasSetup m ev h =
        place-HasSetup (key_for (advance ev m) ev) (advance ev m) ev (advance-HasSetup m ev h)

    close_expired-HasSetup :
        (sends : ℕ) (now : Instant) (order gc_order : List Key) (m : Manager F S)
        → HasSetup m
        → HasSetup (close_expired sends now order gc_order m)
    close_expired-HasSetup sends now order gc_order m h =
        close_expired_keeps HasSetup sends now order gc_order m
          (λ wm k b sent n e x o g. unfold retain in copied g _ refl refl refl)
          (λ wm k b n e x g. copied g _ refl refl refl) h

module _ {F S : Type 0} {ops : Store F S} (table : Table ops) (size lateness : Duration)
    (group_by : Event F → Str) where
  open table use {KeyOk, EventOk}

  -- A signal whose event the store can hold.
  abbrev pub CanHold : {A : Type 0} → Signal F A → Type 0
  CanHold (receive env) = KeyOk (window_key size group_by env.event) × EventOk env.event
  CanHold _ = Unit

  abbrev pub Persists : Manager F S → Type 0
  Persists m = IsDurable table m × HasSetup size lateness group_by m

  module _ {A : Type 0} where
    react-Persists :
        (s : Signal F A) (l : Loop F S A)
        → CanHold s
        → Persists l.manager
        → Persists (react ⦃ops = ops⦄ s l).manager
    unfolding react
    react-Persists done l h p = p
    react-Persists in_closed l h p = p
    react-Persists (receive env) l h p = (
      add_event-IsDurable table l.manager env.event
          (rw (key_for-HasSetup size lateness group_by l.manager env.event p.1) h.0) h.1 p.0,
      add_event-HasSetup size lateness group_by ⦃ops = ops⦄ l.manager env.event p.1,
    )
    react-Persists (tick now order gc_order sends) l h p = (
      close_expired-IsDurable table sends now order gc_order l.manager p.0,
      close_expired-HasSetup size lateness group_by ⦃ops = ops⦄ sends now order gc_order l.manager
          p.1,
    )

    take-Persists :
        (e : Exit) (s : Signal F A) (l : Loop F S A)
        → CanHold s
        → Persists l.manager
        → Persists (take ⦃ops = ops⦄ e s l).manager
    unfolding take
    take-Persists running s l h p = react-Persists s l h p
    take-Persists cancelled s l h p = p
    take-Persists finished s l h p = p

    -- Whatever the loop takes, if the store can hold the events, it mirrors the manager after it.
    pub run-Persists :
        (ss : List (Signal F A)) (l : Loop F S A)
        → All CanHold ss
        → Persists l.manager
        → Persists (run ⦃ops = ops⦄ ss l).manager
    unfolding run
    run-Persists [] l h p = p
    run-Persists (s ∷ ss) l h p =
        run-Persists ss (take ⦃ops = ops⦄ l.exit s l) h.1 (take-Persists l.exit s l h.0 p)

-- A manager set up alike, that restores the state which mirrors the one before.
pub restarted-Resumes :
    {F S : Type 0} {ops : Store F S} (table : Table ops) (size lateness : Duration)
    (group_by : Event F → Str) (m : Manager F S) (s : S)
    → Mirrors table m s
    → HasSetup size lateness group_by m
    → Resumes m (restore ⦃ops = ops⦄ (started size lateness true (some group_by) s))
restarted-Resumes {ops = ops} table size lateness group_by m s h g =
    subst (λ z. Resumes m (restore ⦃ops = ops⦄ (started z lateness true (some group_by) s)))
      g.same_size
      (subst (λ z. Resumes m (restore ⦃ops = ops⦄ (started m.size z true (some group_by) s)))
        g.same_lateness
        (subst (λ z. Resumes m (restore ⦃ops = ops⦄ (started m.size m.lateness true (some z) s)))
          g.same_group (restore-Resumes table m s true h)))
