-- ===== src/Window/Sliding/Entered.antt =====
-- An event of a sliding Manager comes into every window that a round of `add` takes it into.
use mathlib.Core.List.{Mem, mem-append_right, mem-cons_self}
use mathlib.Core.Path.{subst}
use stream_rail.Common.{
  ℕ, zero, suc, ◌+◌, ◌<◌, ◌≤◌, ◌≡◌, ◌≢◌, refl, sym, ap, ◌∙◌, ◌==◌, true, false, some, arith,
  if◌then◌else◌, inl, inr, Bool-cases, Option-cases,
}
use stream_rail.Common.Assoc.{lookup, insert, lookup-insert, lookup-insert_self}
use stream_rail.Model.{Event}
use stream_rail.Window.{Key, key_eq, key_beq_iff, Bucket, appended, new_bucket}
use stream_rail.Window.Sliding.{
  SlidingManager, advance_sliding, sliding_key, sliding_end, enter, takes, enter_all, add_sliding,
}

module _ {F : Type 0} (ev : Event F) where
  -- The event is in the open window of a key.
  pub record Has (k : Key) (m : SlidingManager F) : Type 0 where
    pub bucket : Bucket F
    pub there : lookup k m.windows ≡ some bucket
    pub within : Mem ev bucket.events

  appended-within : (b : Bucket F) → Mem ev (appended b ev).events
  unfolding appended
  appended-within b = mem-append_right b.events mem-cons_self

  -- A bucket for a key that has the event, and what another one of the key had.
  insert-Has :
      (k j : Key) (b : Bucket F) (m : SlidingManager F)
      → Mem ev b.events
      → Has j m
      → Has j (record m { windows = insert k b m.windows })
  insert-Has k j b m own h = elim (Bool-cases (k == j)) [
    | inl same ↦ record {
      bucket = b;
      there = ground (arith, lookup-insert k j b m.windows, same);
      within = own;
    }
    | inr other ↦ record {
      bucket = h.bucket;
      there = ground (arith, lookup-insert k j b m.windows, other, h.there);
      within = h.within;
    }
  ]

  enter-Has_own : (k : Key) (m : SlidingManager F) → Has k (enter k ev m)
  unfolding enter
  enter-Has_own k m = elim (Option-cases (lookup k m.windows)) [
    | inl e ↦
        rw (e, enter)
          (record {
            bucket = _;
            there = lookup-insert_self k _ m.windows;
            within = appended-within (new_bucket F k false);
          })
    | inr (b, e) ↦
        rw (e, enter)
          (record {
            bucket = _;
            there = lookup-insert_self k _ m.windows;
            within = appended-within b;
          })
  ]

  enter-Has : (k j : Key) (m : SlidingManager F) → Has j m → Has j (enter k ev m)
  unfolding enter
  enter-Has k j m h = elim (Option-cases (lookup k m.windows)) [
    | inl e ↦ rw (e, enter) (insert-Has k j _ m (appended-within (new_bucket F k false)) h)
    | inr (b, e) ↦ rw (e, enter) (insert-Has k j _ m (appended-within b) h)
  ]

  -- One round.
  turn : Key → SlidingManager F → SlidingManager F
  turn k m = if takes m k then enter k ev m else m

  turn-Has : (k j : Key) (m : SlidingManager F) → Has j m → Has j (turn k m)
  unfolding turn
  turn-Has k j m h = elim (Bool-cases (takes m k)) [
    | inl e ↦ rw e (enter-Has k j m h)
    | inr e ↦ rw e h
  ]

  -- A round leaves the keys of the others, and whether they take the event.
  sliding_key-turn :
      (k : Key) (m : SlidingManager F) (i : ℕ) → sliding_key (turn k m) ev i ≡ sliding_key m ev i
  unfolding turn enter sliding_key
  sliding_key-turn k m i = ground arith

  takes-turn : (k j : Key) (m : SlidingManager F) → takes (turn k m) j ≡ takes m j
  unfolding turn enter takes sliding_end
  takes-turn k j m = ground arith

  enter_all-Has :
      (rounds i : ℕ) (j : Key) (m : SlidingManager F) → Has j m → Has j (enter_all rounds i ev m)
  unfolding enter_all turn
  enter_all-Has zero i j m h = h
  enter_all-Has (suc rounds) i j m h =
      enter_all-Has rounds (suc i) j _ (turn-Has (sliding_key m ev i) j m h)

  enter_all-enters :
      (rounds i n j : ℕ) (m : SlidingManager F)
      → n < rounds
      → j ≡ n + i
      → takes m (sliding_key m ev j) ≡ true
      → Has (sliding_key m ev j) (enter_all rounds i ev m)
  unfolding enter_all turn
  enter_all-enters zero i n j m lt e h = absurd (omega (arith, lt))
  enter_all-enters (suc rounds) i zero j m lt e h =
      let now : j ≡ i = omega (arith, e) in
      let k = sliding_key m ev i in
      let taken : takes m k ≡ true = ap (λ z. takes m (sliding_key m ev z)) (sym now) ∙ h in
      let same : turn k m ≡ enter k ev m = rw taken refl in
      rw now
        (enter_all-Has rounds (suc i) k (turn k m) (subst (Has k) (sym same) (enter-Has_own k m)))
  enter_all-enters (suc rounds) i (suc n) j m lt e h =
      let next = turn (sliding_key m ev i) m in
      let key : sliding_key next ev j ≡ sliding_key m ev j =
        sliding_key-turn (sliding_key m ev i) m j in
      let taken : takes next (sliding_key next ev j) ≡ true =
        ap (takes next) key ∙ takes-turn (sliding_key m ev i) (sliding_key m ev j) m ∙ h in
      subst (λ k. Has k (enter_all rounds (suc i) ev next)) key
        (enter_all-enters rounds (suc i) n j next (omega (arith, lt)) (omega (arith, e)) taken)

  inserted_other :
      (k j : Key) (b : Bucket F) (m : SlidingManager F)
      → k ≢ j
      → lookup j (insert k b m.windows) ≡ lookup j m.windows
  inserted_other k j b m apart =
      ground (arith, lookup-insert k j b m.windows, key_beq_iff k j, apart)

  enter_other :
      (k j : Key) (m : SlidingManager F)
      → k ≢ j
      → lookup j (enter k ev m).windows ≡ lookup j m.windows
  unfolding enter
  enter_other k j m apart = elim (Option-cases (lookup k m.windows)) [
    | inl e ↦ rw (e, enter) (inserted_other k j _ m apart)
    | inr (b, e) ↦ rw (e, enter) (inserted_other k j _ m apart)
  ]

  turn_other :
      (k j : Key) (m : SlidingManager F)
      → (takes m k ≡ true → k ≢ j)
      → lookup j (turn k m).windows ≡ lookup j m.windows
  unfolding turn
  turn_other k j m apart = elim (Bool-cases (takes m k)) [
    | inl e ↦ rw e (enter_other k j m (apart e))
    | inr e ↦ rw e refl
  ]

  enter_all_other :
      (rounds i : ℕ) (j : Key) (m : SlidingManager F)
      → ((r : ℕ)
          → i ≤ r
          → r < rounds + i
          → takes m (sliding_key m ev r) ≡ true
          → sliding_key m ev r ≢ j)
      → lookup j (enter_all rounds i ev m).windows ≡ lookup j m.windows
  unfolding enter_all turn
  enter_all_other zero i j m apart = refl
  enter_all_other (suc rounds) i j m apart =
      let k = sliding_key m ev i in
      enter_all_other rounds (suc i) j (turn k m) (λ r ge lt t e.
        let key : sliding_key (turn k m) ev r ≡ sliding_key m ev r = sliding_key-turn k m r in
        apart r (omega (arith, ge)) (omega (arith, lt))
          (sym (takes-turn k (sliding_key m ev r) m) ∙ ap (takes (turn k m)) (sym key) ∙ t)
          (sym key ∙ e))
      ∙ turn_other k j m (λ t. apart i (omega arith) (omega arith) t)

  -- After `add`, the event is in the open window of each of the `count` rounds whose window has not
  -- passed by the new watermark and is not closed, whatever was open before; and under every other
  -- key there is what was there before.
  pub add_sliding-Has :
      (m : SlidingManager F)
      → ((i : ℕ)
          → i < m.count
          → takes (advance_sliding ev m) (sliding_key m ev i) ≡ true
          → Has (sliding_key m ev i) (add_sliding m ev))
        × ((j : Key)
            → ((i : ℕ)
                → i < m.count
                → takes (advance_sliding ev m) (sliding_key m ev i) ≡ true
                → sliding_key m ev i ≢ j)
            → lookup j (add_sliding m ev).windows ≡ lookup j m.windows)
  unfolding add_sliding
  add_sliding-Has m = (
    (λ i lt h.
        subst (λ k. Has k (enter_all next.count 0 ev next)) (key i)
          (enter_all-enters next.count 0 i i next (omega (arith, lt, rounds)) (omega arith)
            (ap (takes next) (key i) ∙ h))),
    (λ j apart.
        enter_all_other next.count 0 j next (λ r ge lt t e.
          apart r (omega (arith, lt, rounds)) (ap (takes next) (sym (key r)) ∙ t) (sym (key r) ∙ e))
        ∙ same j),
  )
    where
      next : SlidingManager F
      next = advance_sliding ev m

      key : (i : ℕ) → sliding_key next ev i ≡ sliding_key m ev i
      key i = unfold advance_sliding sliding_key in ground arith

      rounds : next.count ≡ m.count
      rounds = unfold advance_sliding in ground arith

      same : (j : Key) → lookup j next.windows ≡ lookup j m.windows
      same j = unfold advance_sliding in ground arith
