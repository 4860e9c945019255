-- ===== src/Window/Sliding/Once.antt =====
-- The SlidingManager sends each window at most once, in any run.
use mathlib.Core.Path.{subst}
use stream_rail.Common.{
  ℕ, zero, suc, ◌≡◌, refl, ap, Bool, true, false, Option, none, some, List, [], ◌∷◌, ◌++◌, arith,
  Bool-cases, Option-cases, inl, inr, Str,
}
use stream_rail.Common.Int.{ltb_ℤ}
use stream_rail.Common.Assoc.{lookup, insert, lookup-insert, lookup-delete}
use stream_rail.Clock.{Duration, Instant}
use stream_rail.Model.{Event}
use stream_rail.Window.{Key, key_eq, key_beq_iff, Bucket, Batch, appended}
use stream_rail.Window.Tumbling.Closing.{visits, Once}
use stream_rail.Window.Sliding.{
  SlidingManager, new_sliding, advance_sliding, sliding_key, enter, takes, enter_all, add_sliding,
  is_over, send_sliding, close_sliding, close_expired_sliding, is_done,
}

-- The keys of the batches that have been sent, the last one first.
abbrev pub sent_keys : {F : Type 0} → List (Batch F) → List Key → List Key
sent_keys [] acc = acc
sent_keys (b ∷ bs) acc = sent_keys bs (b.key ∷ acc)

abbrev pub keys_of : {F : Type 0} → Option (List (Batch F)) → List Key
keys_of none = []
keys_of (some sent) = sent_keys sent []

abbrev pub keys_out : {F : Type 0} → SlidingManager F → List Key
keys_out m = keys_of m.out

module _ {F : Type 0} where
  pub record IsFresh (m : SlidingManager F) : Type 0 where
    pub once : Once (keys_out m)
    pub recorded :
        (k : Key) → visits (keys_out m) k ≡ true → is_done (lookup k m.closed_keys) ≡ true
    pub not_open : (k : Key) → is_done (lookup k m.closed_keys) ≡ true → lookup k m.windows ≡ none
    pub own_key : (k : Key) (b : Bucket F) → lookup k m.windows ≡ some b → b.key ≡ k

  sent_keys-append :
      (bs : List (Batch F)) (b : Batch F) (acc : List Key)
      → sent_keys (bs ++ b ∷ []) acc ≡ b.key ∷ sent_keys bs acc
  sent_keys-append [] b acc = refl
  sent_keys-append (c ∷ bs) b acc = sent_keys-append bs b (c.key ∷ acc)

  advance-IsFresh :
      (ev : Event F) (m : SlidingManager F) → IsFresh m → IsFresh (advance_sliding ev m)
  advance-IsFresh ev m v = elim (Bool-cases (ltb_ℤ m.max_ts ev.timestamp)) [
    | inl e ↦
        unfold advance_sliding in
        rw (e, advance_sliding)
          (record {
            once = v.once;
            recorded = v.recorded;
            not_open = v.not_open;
            own_key = v.own_key;
          })
    | inr e ↦ unfold advance_sliding in rw (e, advance_sliding) v
  ]

  insert-IsFresh :
      (k : Key) (b : Bucket F) (m : SlidingManager F)
      → is_done (lookup k m.closed_keys) ≡ false
      → b.key ≡ k
      → IsFresh m
      → IsFresh (record m { windows = insert k b m.windows })
  insert-IsFresh k b m d o v = record {
    once = v.once;
    recorded = v.recorded;
    not_open =
        λ j e. ground (arith, lookup-insert k j b m.windows, key_beq_iff k j, v.not_open j e, d);
    own_key =
        λ j c e. ground (arith, lookup-insert k j b m.windows, key_beq_iff k j, v.own_key j c, o);
  }

  enter-IsFresh :
      (k : Key) (ev : Event F) (m : SlidingManager F)
      → is_done (lookup k m.closed_keys) ≡ false
      → IsFresh m
      → IsFresh (enter k ev m)
  enter-IsFresh k ev m d v = elim (Option-cases (lookup k m.windows)) [
    | inl e ↦ unfold enter appended in rw (e, enter) (insert-IsFresh k _ m d refl v)
    | inr (b, e) ↦
        unfold enter appended in rw (e, enter) (insert-IsFresh k _ m d (v.own_key k b e) v)
  ]

  takes-not_done :
      (m : SlidingManager F) (k : Key) → takes m k ≡ true → is_done (lookup k m.closed_keys) ≡ false
  unfolding takes
  takes-not_done m k t = ground arith

  enter_all-IsFresh :
      (rounds i : ℕ) (ev : Event F) (m : SlidingManager F)
      → IsFresh m
      → IsFresh (enter_all rounds i ev m)
  unfolding enter_all
  enter_all-IsFresh zero i ev m v = v
  enter_all-IsFresh (suc rounds) i ev m v = elim (Bool-cases (takes m (sliding_key m ev i))) [
    | inl t ↦ rw t (
        enter_all-IsFresh rounds (suc i) ev (enter (sliding_key m ev i) ev m)
          (enter-IsFresh _ ev m (takes-not_done m _ t) v))
    | inr t ↦ rw t (enter_all-IsFresh rounds (suc i) ev m v)
  ]

  not_sent :
      (m : SlidingManager F) (k : Key) (b : Bucket F)
      → IsFresh m
      → lookup k m.windows ≡ some b
      → visits (keys_out m) k ≡ false
  not_sent m k b v e = elim (Bool-cases (visits (keys_out m) k)) [
    | inl t ↦ cc (v.not_open k (v.recorded k t))
    | inr t ↦ t
  ]

  abbrev Kept : Option (ℕ × SlidingManager F) → Type 0
  Kept none = Unit
  Kept (some (sends, m)) = IsFresh m

  send_sliding-Kept :
      (sends : ℕ) (k : Key) (b : Bucket F) (m : SlidingManager F)
      → lookup k m.windows ≡ some b
      → IsFresh m
      → Kept (send_sliding sends k b m)
  unfolding send_sliding visits
  send_sliding-Kept zero k b m e v = tt
  send_sliding-Kept (suc sends) k b m e v = elim (Option-cases m.out) [
    | inl o ↦ rw o tt
    | inr (sent, o) ↦
        rw (o, send_sliding)
          (record {
            once = rw (sent_keys-append sent _ []) (
              rw (v.own_key k b e, ← known sent o) (not_sent m k b v e),
              subst Once (known sent o) v.once,
            );
            recorded =
                λ j t. recorded sent o j (rw (sent_keys-append sent _ [], ← known sent o) at t);
            not_open = λ j t. ground (
              arith,
              lookup-insert k j tt m.closed_keys,
              lookup-delete k j m.windows,
              v.not_open j,
            );
            own_key = λ j c f. ground (arith, lookup-delete k j m.windows, v.own_key j c);
          })
  ]
    where
      known : (sent : List (Batch F)) → m.out ≡ some sent → keys_out m ≡ sent_keys sent []
      known sent o = ap keys_of o

      recorded :
          (sent : List (Batch F))
          → m.out ≡ some sent
          → (j : Key) → visits (b.key ∷ keys_out m) j ≡ true
          → is_done (lookup j (insert k tt m.closed_keys)) ≡ true
      recorded sent o j t = ground (
        arith,
        lookup-insert k j tt m.closed_keys,
        v.recorded j,
        v.own_key k b e,
        key_beq_iff b.key j,
        key_beq_iff k j,
      )

  close_sliding-Kept :
      (now : Instant) (k : Key) (sends : ℕ) (m : SlidingManager F)
      → IsFresh m
      → Kept (close_sliding now k (sends, m))
  unfolding close_sliding
  close_sliding-Kept now k sends m v = elim (Option-cases (lookup k m.windows)) [
    | inl e ↦ rw (e, close_sliding) v
    | inr (b, e) ↦
        rw (e, close_sliding)
          (elim (Bool-cases (is_over m now k)) [
            | inl t ↦ rw t (send_sliding-Kept sends k b m e v)
            | inr t ↦ rw t v
          ])
  ]

  close_expired-IsFresh :
      (now : Instant) (order : List Key) (sends : ℕ) (m : SlidingManager F)
      → IsFresh m
      → IsFresh (close_expired_sliding now order (sends, m))
  unfolding close_expired_sliding
  close_expired-IsFresh now [] sends m v = v
  close_expired-IsFresh now (k ∷ ks) sends m v =
      elim (Option-cases (close_sliding now k (sends, m))) [
        | inl e ↦ rw (e, close_expired_sliding) v
        | inr ((n, m'), e) ↦
            rw (e, close_expired_sliding)
              (close_expired-IsFresh now ks n m'
                (subst Kept e (close_sliding-Kept now k sends m v)))
      ]

  add_sliding-IsFresh :
      (m : SlidingManager F) (ev : Event F) → IsFresh m → IsFresh (add_sliding m ev)
  add_sliding-IsFresh m ev v =
      unfold add_sliding in
      enter_all-IsFresh (advance_sliding ev m).count 0 ev (advance_sliding ev m)
        (advance-IsFresh ev m v)

pub data Action (F : Type 0) : Type 0 where
  arrives : Event F → Action F
  ticks : Instant → List Key → ℕ → Action F

module _ {F : Type 0} where
  -- What the loop of SlidingManager.Run does with a signal.
  unfoldable pub perform : Action F → SlidingManager F → SlidingManager F
  perform (arrives ev) m = add_sliding m ev
  perform (ticks now order sends) m = close_expired_sliding now order (sends, m)

  unfoldable pub perform_all : List (Action F) → SlidingManager F → SlidingManager F
  unfolding perform
  perform_all [] m = m
  perform_all (a ∷ rest) m = perform_all rest (perform a m)

  perform-IsFresh : (a : Action F) (m : SlidingManager F) → IsFresh m → IsFresh (perform a m)
  unfolding perform
  perform-IsFresh (arrives ev) m v = add_sliding-IsFresh m ev v
  perform-IsFresh (ticks now order sends) m v = close_expired-IsFresh now order sends m v

  perform_all-IsFresh :
      (as' : List (Action F)) (m : SlidingManager F) → IsFresh m → IsFresh (perform_all as' m)
  unfolding perform_all
  perform_all-IsFresh [] m v = v
  perform_all-IsFresh (a ∷ rest) m v =
      perform_all-IsFresh rest (perform a m) (perform-IsFresh a m v)

  new_sliding-IsFresh :
      (size slide : Duration) (has_out : Bool) (group_by : Option (Event F → Str))
      → IsFresh (new_sliding size slide has_out group_by)
  unfolding new_sliding lookup visits
  new_sliding-IsFresh size slide true group_by = record {
    once = tt;
    recorded = λ k e. e;
    not_open = λ k e. refl;
    own_key = λ k b e. cc;
  }
  new_sliding-IsFresh size slide false group_by = record {
    once = tt;
    recorded = λ k e. e;
    not_open = λ k e. refl;
    own_key = λ k b e. cc;
  }

  -- Whatever events arrive and whenever the ticks come, late events included, the batches that a
  -- SlidingManager sends are of different windows, and none of these is open or opened again.
  pub perform_all-Once :
      (size slide : Duration) (has_out : Bool) (group_by : Option (Event F → Str))
      (actions : List (Action F))
      → let m = perform_all actions (new_sliding size slide has_out group_by) in
        Once (keys_out m) × ((k : Key) → visits (keys_out m) k ≡ true → lookup k m.windows ≡ none)
  perform_all-Once size slide has_out group_by actions =
      (v.once, λ k e. v.not_open k (v.recorded k e))
    where
      v : IsFresh (perform_all actions (new_sliding size slide has_out group_by))
      v = perform_all-IsFresh actions _ (new_sliding-IsFresh size slide has_out group_by)
