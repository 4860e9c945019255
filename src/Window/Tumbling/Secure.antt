-- ===== src/Window/Tumbling/Secure.antt =====
-- Where the events are that a tumbling Manager has taken: in an open window, which the store has too,
-- or in a batch that was sent.
use mathlib.Core.List.{Mem, mem-append_left, mem-append_right, mem-cons_self}
use mathlib.Core.Path.{subst}
use stream_rail.Common.{
  ℕ, ◌≡◌, ◌⊎◌, inl, inr, refl, sym, ap, ◌∙◌, true, false, some, List, [], ◌∷◌, ◌++◌, ◌==◌, arith,
  All, Bool-cases, All-map,
}
use stream_rail.Common.Assoc.{
  lookup, insert, delete, lookup-insert, lookup-delete, lookup-insert_self,
}
use stream_rail.Clock.{Instant}
use stream_rail.Model.{Event}
use stream_rail.Window.{Key, key_eq, key_beq_iff, Bucket, Batch, Store, appended, new_bucket}
use stream_rail.Window.Tumbling.{
  Manager, key_for, advance, append_open, append_closed, add_event, emit_blocking, batch_of, retain,
  send, close_expired,
}
use stream_rail.Window.Tumbling.Cases.{advance_cases, place_cases, close_expired_keeps}

module _ {F : Type 0} where
  -- In an open bucket, or in a batch sent before or by this manager.
  abbrev pub Secure : List (Key × Bucket F) → List (Batch F) → List (Batch F) → Event F → Type 0
  Secure windows before sent ev =
      ((k : Key) × (b : Bucket F) × (lookup k windows ≡ some b) × Mem ev b.events)
      ⊎ ((batch : Batch F) × (Mem batch before ⊎ Mem batch sent) × Mem ev batch.events)

  -- Only what the keys have counts.
  pub Secure-same :
      (ws us : List (Key × Bucket F)) (before sent : List (Batch F)) (ev : Event F)
      → ((k : Key) → lookup k us ≡ lookup k ws)
      → Secure ws before sent ev
      → Secure us before sent ev
  Secure-same ws us before sent ev same (inl (k, b, at, here)) = inl (k, b, same k ∙ at, here)
  Secure-same ws us before sent ev same (inr out) = inr out

  -- What this manager sent comes before the next one.
  pub Secure-next :
      (ws : List (Key × Bucket F)) (before sent : List (Batch F)) (ev : Event F)
      → Secure ws before sent ev
      → Secure ws (before ++ sent) [] ev
  Secure-next ws before sent ev (inl held) = inl held
  Secure-next ws before sent ev (inr (b, inl old, here)) =
      inr (b, inl (mem-append_left sent old), here)
  Secure-next ws before sent ev (inr (b, inr new, here)) =
      inr (b, inl (mem-append_right before new), here)

  -- The bucket of a key gets more events.
  Secure-insert :
      (windows : List (Key × Bucket F)) (before sent : List (Batch F)) (ev : Event F) (k : Key)
      (b : Bucket F)
      → ((c : Bucket F) → lookup k windows ≡ some c → Mem ev c.events → Mem ev b.events)
      → Secure windows before sent ev
      → Secure (insert k b windows) before sent ev
  Secure-insert windows before sent ev k b more (inr out) = inr out
  Secure-insert windows before sent ev k b more (inl (j, c, at, here)) =
      elim (Bool-cases (k == j)) [
        | inl same ↦
            let is : k ≡ j = (key_beq_iff k j).0 same in
            inl (
              k,
              b,
              lookup-insert_self k b windows,
              more c (ap (λ i. lookup i windows) is ∙ at) here,
            )
        | inr other ↦ inl (j, c, ground (arith, lookup-insert k j b windows, other, at), here)
      ]

  -- One more batch is sent.
  Secure-sent :
      (windows : List (Key × Bucket F)) (before sent : List (Batch F)) (ev : Event F)
      (batch : Batch F)
      → Secure windows before sent ev
      → Secure windows before (sent ++ batch ∷ []) ev
  Secure-sent windows before sent ev batch (inl open_bucket) = inl open_bucket
  Secure-sent windows before sent ev batch (inr (b, inl old, here)) = inr (b, inl old, here)
  Secure-sent windows before sent ev batch (inr (b, inr new, here)) =
      inr (b, inr (mem-append_left (batch ∷ []) new), here)

  -- A window leaves with its batch.
  Secure-closed :
      (windows : List (Key × Bucket F)) (before sent : List (Batch F)) (ev : Event F) (k : Key)
      (b : Bucket F) (batch : Batch F)
      → lookup k windows ≡ some b
      → batch.events ≡ b.events
      → Secure windows before sent ev
      → Secure (delete k windows) before (sent ++ batch ∷ []) ev
  Secure-closed windows before sent ev k b batch at same (inr out) =
      Secure-sent (delete k windows) before sent ev batch (inr out)
  Secure-closed windows before sent ev k b batch at same (inl (j, c, there, here)) =
      elim (Bool-cases (k == j)) [
        | inl e ↦
            let is : k ≡ j = (key_beq_iff k j).0 e in
            let bucket : some c ≡ some b = sym there ∙ ap (λ i. lookup i windows) (sym is) ∙ at in
            let events : c.events ≡ batch.events = ground (arith, bucket, same) in
            inr (batch, inr (mem-append_right sent mem-cons_self), subst (Mem ev) events here)
        | inr other ↦ inl (j, c, ground (arith, lookup-delete k j windows, other, there), here)
      ]

module _ {F S : Type 0} where
  -- A manager with a channel, and the events that are safe.
  pub record Tracked (before : List (Batch F)) (evs : List (Event F)) (m : Manager F S)
      : Type 0 where
    pub sent : List (Batch F)
    pub channel : m.out ≡ some sent
    pub secure : All (Secure m.windows before sent) evs

module _ {F S : Type 0} ⦃ops : Store F S⦄ {before : List (Batch F)} {evs : List (Event F)} where
  pub advance-Tracked :
      (ev : Event F) (m : Manager F S) → Tracked before evs m → Tracked before evs (advance ev m)
  advance-Tracked ev m t =
      advance_cases (Tracked before evs) ev m
        (λ _. record { sent = t.sent; channel = t.channel; secure = t.secure }) (λ _. t)

  module _ (m : Manager F S) (t : Tracked before evs m) (k : Key) (ev : Event F) where
    append_open-Tracked :
        (b : Bucket F)
        → ((c : Bucket F) → lookup k m.windows ≡ some c → c ≡ b)
        → Tracked before (ev ∷ evs) (append_open k (appended b ev) m)
    unfolding append_open appended
    append_open-Tracked b held = record {
      sent = t.sent;
      channel = t.channel;
      secure = (
        inl (
          k,
          appended b ev,
          lookup-insert_self k (appended b ev) m.windows,
          mem-append_right b.events mem-cons_self,
        ),
        All-map
            (λ e h.
              Secure-insert m.windows before t.sent e k (appended b ev)
                (λ c at here.
                  mem-append_left (ev ∷ []) (subst (λ z. Mem e z.events) (held c at) here))
                h)
            evs t.secure,
      );
    }

    append_closed-Tracked :
        (b : Bucket F)
        → Tracked before
            (ev ∷ evs)
            (emit_blocking (append_closed k (appended b ev) m) (appended b ev) true)
    unfolding append_closed emit_blocking appended batch_of
    append_closed-Tracked b =
        let batch = batch_of m (appended b ev) true in
        record {
          sent = t.sent ++ batch ∷ [];
          channel = ap (send batch) t.channel;
          secure = (
            inr (
              batch,
              inr (mem-append_right t.sent mem-cons_self),
              mem-append_right b.events mem-cons_self,
            ),
            All-map (λ e h. Secure-sent m.windows before t.sent e batch h) evs t.secure,
          );
        }

  pub add_event-Tracked :
      (ev : Event F) (m : Manager F S)
      → Tracked before evs m
      → Tracked before (ev ∷ evs) (add_event m ev)
  unfolding add_event
  add_event-Tracked ev m t =
      let n = advance ev m in
      let u = advance-Tracked ev m t in
      let k = key_for n ev in
      place_cases (Tracked before (ev ∷ evs)) k ev n
        (λ b at. append_open-Tracked n u k ev b (λ c there. ground (arith, at, there)))
        (λ b _ _. append_closed-Tracked n u k ev b)
        (λ _ _ _. append_closed-Tracked n u k ev (new_bucket F k true))
        (λ free _ _. append_open-Tracked n u k ev (new_bucket F k false) (λ c there. cc))

  pub close_expired-Tracked :
      (sends : ℕ) (now : Instant) (order gc_order : List Key) (m : Manager F S)
      → Tracked before evs m
      → Tracked before evs (close_expired sends now order gc_order m)
  close_expired-Tracked sends now order gc_order m t =
      close_expired_keeps (Tracked before evs) sends now order gc_order m
        (λ wm k b sent n at _ out u.
          let batch = batch_of n b false in
          (unfold retain batch_of in
            record {
              sent = sent ++ batch ∷ [];
              channel = refl;
              secure =
                  All-map (λ e h. Secure-closed n.windows before sent e k b batch at refl h) evs
                    (subst (λ l. All (Secure n.windows before l) evs)
                      (ground (arith, u.channel, out)) u.secure);
            }))
        (λ wm k b n _ _ u. record { sent = u.sent; channel = u.channel; secure = u.secure }) t
