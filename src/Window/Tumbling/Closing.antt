-- ===== src/Window/Tumbling/Closing.antt =====
-- What a tick sends: the batch of each window that is due, once, and of no other.
use mathlib.Core.List.{append_assoc, append-nil}
use stream_rail.Common.{
  ℕ, zero, suc, ◌≤◌, ◌≡◌, refl, ap, ◌⊎◌, Bool, true, false, ◌&&◌, ◌||◌, Option, none, some, List,
  [], ◌∷◌, ◌++◌, ◌==◌, arith, length, if◌then◌else◌, Bool-cases, Option-cases, inl, inr,
}
use stream_rail.Common.Int.{ℤ}
use stream_rail.Common.Assoc.{lookup, lookup-insert, lookup-delete}
use stream_rail.Clock.{Instant}
use stream_rail.Window.{Key, key_eq, key_beq_iff, Bucket, Batch, Store}
use stream_rail.Window.Tumbling.{
  Manager, is_expired, retain, batch_of, send_batch, close_window, close_windows,
}

-- Whether a loop visits a key, and whether it visits each key once.
unfoldable pub visits : List Key → Key → Bool
visits [] k = false
visits (j ∷ ks) k = j == k || visits ks k

abbrev pub Once : List Key → Type 0
Once [] = Unit
Once (k ∷ ks) = (visits ks k ≡ false) × Once ks

module _ {F S : Type 0} where
  -- The batch of one window, and those of the windows that a loop visits, if they are expired.
  unfoldable pub due_at : ℤ → Instant → Manager F S → Key → List (Batch F)
  due_at wm now m k = elim (lookup k m.windows) [
    | none ↦ []
    | some b ↦ if is_expired m wm now k then batch_of m b false ∷ [] else []
  ]

  unfoldable pub due : ℤ → Instant → Manager F S → List Key → List (Batch F)
  due wm now m [] = []
  due wm now m (k ∷ ks) = due_at wm now m k ++ due wm now m ks

  -- The open windows that stay, and the closed ones with those that join them.
  unfoldable pub staying : ℤ → Instant → Manager F S → Bool → Key → Option (Bucket F)
  staying wm now m visited k = if visited && is_expired m wm now k then none else lookup k m.windows

  unfoldable pub joined : ℤ → Instant → Manager F S → Bool → Key → Option (Bucket F)
  joined wm now m visited k =
      if visited && is_expired m wm now k
      then elim (lookup k m.windows) [
        | none ↦ lookup k m.closed
        | some b ↦ some (record b { closed = true })
      ]
      else lookup k m.closed

module _ {F S : Type 0} ⦃ops : Store F S⦄ (wm : ℤ) (now : Instant) where
  -- The manager after the batch of one window.
  abbrev closed_one : Key → Bucket F → List (Batch F) → Manager F S → Manager F S
  closed_one k b sent m = retain k b (record m { out = some (sent ++ batch_of m b false ∷ []) })

  pub record Flushed (ks : List Key) (sent : List (Batch F)) (m n : Manager F S) : Type 0 where
    pub sends : n.out ≡ some (sent ++ due wm now m ks)
    pub opens : (k : Key) → lookup k n.windows ≡ staying wm now m (visits ks k) k
    pub closes : (k : Key) → lookup k n.closed ≡ joined wm now m (visits ks k) k

  due-closed_one :
      (k : Key) (b : Bucket F) (sent : List (Batch F)) (m : Manager F S) (ks : List Key)
      → visits ks k ≡ false
      → due wm now (closed_one k b sent m) ks ≡ due wm now m ks
  unfolding due due_at visits retain is_expired batch_of
  due-closed_one k b sent m [] h = refl
  due-closed_one k b sent m (j ∷ ks) h = ground (
    arith,
    key_beq_iff j k,
    key_beq_iff k j,
    lookup-delete k j m.windows,
    due-closed_one k b sent m ks,
  )

  Flushed-skip :
      (k : Key) (ks : List Key) (sent : List (Batch F)) (m n : Manager F S)
      → (lookup k m.windows ≡ none) ⊎ (is_expired m wm now k ≡ false)
      → Flushed ks sent m n
      → Flushed (k ∷ ks) sent m n
  unfolding due due_at visits staying joined
  Flushed-skip k ks sent m n idle f = record {
    sends = ground (arith, f.sends);
    opens = λ j. ground (arith, f.opens j, key_beq_iff k j);
    closes = λ j. ground (arith, f.closes j, key_beq_iff k j);
  }

  due-expired :
      (k : Key) (b : Bucket F) (ks : List Key) (m : Manager F S)
      → lookup k m.windows ≡ some b
      → is_expired m wm now k ≡ true
      → due wm now m (k ∷ ks) ≡ batch_of m b false ∷ due wm now m ks
  unfolding due due_at
  due-expired k b ks m e t = ground arith

  Flushed-send :
      (k : Key) (b : Bucket F) (ks : List Key) (sent : List (Batch F)) (m n : Manager F S)
      → lookup k m.windows ≡ some b
      → is_expired m wm now k ≡ true
      → visits ks k ≡ false
      → Flushed ks (sent ++ batch_of m b false ∷ []) (closed_one k b sent m) n
      → Flushed (k ∷ ks) sent m n
  Flushed-send k b ks sent m n e t fresh f = record {
    sends =
        rw (f.sends, due-closed_one k b sent m ks fresh, due-expired k b ks m e t)
          (ap some (append_assoc sent _ _));
    opens = λ j.
        unfold staying visits retain is_expired in
        ground (arith, f.opens j, key_beq_iff k j, lookup-delete k j m.windows);
    closes = λ j.
        unfold joined visits retain is_expired in
        ground (
          arith,
          f.closes j,
          key_beq_iff k j,
          lookup-delete k j m.windows,
          lookup-insert k j (record b { closed = true }) m.closed,
        );
  }

  close_window-skip :
      (k : Key) (sends : ℕ) (m : Manager F S)
      → (lookup k m.windows ≡ none) ⊎ (is_expired m wm now k ≡ false)
      → close_window wm now k (sends, m) ≡ some (sends, m)
  unfolding close_window
  close_window-skip k sends m (inl e) = rw (e, close_window)
  close_window-skip k sends m (inr t) = elim (Option-cases (lookup k m.windows)) [
    | inl e ↦ rw (e, close_window)
    | inr (b, e) ↦ rw (e, close_window, t)
  ]

  close_window-send :
      (k : Key) (b : Bucket F) (sends : ℕ) (sent : List (Batch F)) (m : Manager F S)
      → m.out ≡ some sent
      → lookup k m.windows ≡ some b
      → is_expired m wm now k ≡ true
      → close_window wm now k (suc sends, m) ≡ some (sends, closed_one k b sent m)
  unfolding close_window
  close_window-send k b sends sent m o e t =
      rw (e, close_window, t) (unfold send_batch in rw (o, send_batch))

  -- What a window asks of the loop.
  Fate : Manager F S → Key → Type 0
  Fate m k =
      ((lookup k m.windows ≡ none) ⊎ (is_expired m wm now k ≡ false))
      ⊎ ((b : Bucket F) × (lookup k m.windows ≡ some b) × (is_expired m wm now k ≡ true))

  fate : (m : Manager F S) (k : Key) → Fate m k
  unfolding Fate
  fate m k = elim (Option-cases (lookup k m.windows)) [
    | inl e ↦ inl (inl e)
    | inr (b, e) ↦ elim (Bool-cases (is_expired m wm now k)) [
      | inl t ↦ inr (b, e, t)
      | inr t ↦ inl (inr t)
    ]
  ]

  -- One tick's loop over the open windows, which visits no key twice and whose sends all go through.
  -- It comes to its end; it sends the batches of the expired windows among those that it visits,
  -- once each, in the order of the visit and behind what was sent before; it moves exactly these
  -- windows to the closed ones.
  pub close_windows-Flushed :
      (ks : List Key) (sends : ℕ) (sent : List (Batch F)) (m : Manager F S)
      → m.out ≡ some sent
      → length ks ≤ sends
      → Once ks
      → Flushed ks sent m (close_windows wm now ks (sends, m)).0
        × ((close_windows wm now ks (sends, m)).1 ≡ true)
  unfolding close_windows due visits staying joined Fate
  close_windows-Flushed [] sends sent m o room once = (
    record { sends = ground (arith, append-nil sent); opens = λ k. refl; closes = λ k. refl },
    refl,
  )
  close_windows-Flushed (k ∷ ks) zero sent m o room once = absurd (omega arith)
  close_windows-Flushed (k ∷ ks) (suc n) sent m o room once = elim (fate m k) [
    | inl idle ↦
        let rest = close_windows-Flushed ks (suc n) sent m o (omega arith) once.1 in
        rw (close_window-skip k (suc n) m idle, close_windows)
          (Flushed-skip k ks sent m _ idle rest.0, rest.1)
    | inr (b, e, t) ↦
        let rest =
          close_windows-Flushed ks n (sent ++ batch_of m b false ∷ []) (closed_one k b sent m)
            (unfold retain in refl) (omega arith) once.1 in
        rw (close_window-send k b n sent m o e t, close_windows)
          (Flushed-send k b ks sent m _ e t once.0 rest.0, rest.1)
  ]
