-- ===== src/Engine/System/Copies.antt =====
-- Which streams should have an event, and how often they have it.
use mathlib.Core.Path.{subst}
use stream_rail.Common.{
  inl, inr, ◌<◌, ◌∙◌, ℕ, ◌+◌, ◌<◌, ◌≤◌, ◌≡◌, ◌≢◌, refl, sym, ap, ◌∙◌, Bool, true, Option, none,
  some, List, [], ◌∷◌, ◌++◌, ◌==◌, nat_eq, ltb, arith, if◌then◌else◌, inl, inr, ◌⊎◌, Bool-cases,
  map,
}
use stream_rail.Engine.{AckBarrier, ack_barrier, call_done}
use stream_rail.Engine.Barrier.{Counted}
use stream_rail.Engine.System.{Child, Station, update}
use stream_rail.Engine.System.Counts.{sum, sum_same, sum_changed, occurrences, occurrences-append}

pub update_self : {A : Type 0} (i : ℕ) (new : A) (f : ℕ → A) → update i new f i ≡ new
unfolding update
update_self i new f = ground arith

pub update_other : {A : Type 0} (i j : ℕ) (new : A) (f : ℕ → A) → j ≢ i → update i new f j ≡ f j
unfolding update
update_other i j new f h = ground (arith, h)

pub fresh-Counted : (n : ℕ) → 0 < n → Counted n 0 (ack_barrier true n)
unfolding ack_barrier
fresh-Counted n pos_n = record {
  has_ack = refl;
  remaining = omega arith;
  range = omega arith;
  fired = ground arith;
}

pub has_ack-call_done : (b : AckBarrier) → (call_done b).has_ack ≡ b.has_ack
unfolding call_done
has_ack-call_done b = ground arith

pub index_cases : (j i : ℕ) → (j ≡ i) ⊎ (j ≢ i)
index_cases j i = elim (Bool-cases (j == i)) [
  | inl same ↦ inl (ground (arith, same))
  | inr other ↦ inr (ground (arith, other))
]

abbrev pub one : Bool → ℕ
one b = if b then 1 else 0

module _ {F : Type 0} where
  abbrev pub number_of : Child F → ℕ
  number_of child = child.number

  -- How often a stream should have the event `k`: once if fanOut has sent it there.
  abbrev pub sent : Option (Child F × ℕ) → ℕ → ℕ → ℕ → ℕ
  sent none accepted k j = one (ltb k accepted)
  sent (some (child, i)) accepted k j =
      if child.number == k then one (ltb j i) else one (ltb k accepted)

  abbrev pub Sends : ℕ → Option (Child F × ℕ) → ℕ → Type 0
  Sends n none accepted = Unit
  Sends n (some (child, i)) accepted = (child.number + 1 ≡ accepted) × (i < n)

  pub sent-le : (p : Option (Child F × ℕ)) (accepted k j : ℕ) → sent p accepted k j ≤ 1
  sent-le none accepted k j = ground arith
  sent-le (some (child, i)) accepted k j = ground arith

  pub sent_later :
      (n : ℕ) (p : Option (Child F × ℕ)) (accepted k j : ℕ)
      → Sends n p accepted
      → accepted ≤ k
      → sent p accepted k j ≡ 0
  sent_later n none accepted k j h new = ground arith
  sent_later n (some (child, i)) accepted k j h new = ground (arith, h)

  numbers_grown :
      (k : ℕ) (q : List (Child F)) (child : Child F)
      → occurrences k (map number_of (q ++ child ∷ []))
        ≡ occurrences k (map number_of q) + one (child.number == k)
  unfolding occurrences
  numbers_grown k [] child = omega arith
  numbers_grown k (c ∷ q) child = omega (arith, numbers_grown k q child)

  -- After a delivery to the stream `i`, of `n`.
  abbrev pub following : ℕ → Child F → ℕ → Option (Child F × ℕ)
  following n child i = if i + 1 == n then none else some (child, i + 1)

  pub following-Sends :
      (n : ℕ) (child : Child F) (i accepted : ℕ)
      → Sends n (some (child, i)) accepted
      → Sends n (following n child i) accepted
  following-Sends n child i accepted w = elim (Bool-cases (i + 1 == n)) [
    | inl last ↦
        let done : following n child i ≡ none = ground (arith, last) in
        subst (λ p. Sends n p accepted) (sym done) tt
    | inr more ↦
        let within : i + 1 < n = ground (arith, w.1, more) in
        let next : following n child i ≡ some (child, i + 1) = ground (arith, more) in
        subst (λ p. Sends n p accepted) (sym next) (w.0, within)
  ]

  pub sent-following :
      (n : ℕ) (child : Child F) (i accepted k j : ℕ)
      → Sends n (some (child, i)) accepted
      → j < n
      → sent (following n child i) accepted k j
        ≡ sent (some (child, i)) accepted k j + (if j == i then one (child.number == k) else 0)
  sent-following n child i accepted k j w lt = elim (Bool-cases (i + 1 == n)) [
    | inl last ↦ ground (arith, last, w, lt)
    | inr more ↦ ground (arith, more, w, lt)
  ]

module _ {F S : Type 0} where
  -- How often a stream has the event `k`, in its channel or acknowledged.
  abbrev pub copies : Station F S → ℕ → ℕ
  copies st k = occurrences k st.acked + occurrences k (map number_of st.queue)

  pub copies_at :
      (i j k : ℕ) (st : Station F S) (stations : ℕ → Station F S)
      → j ≡ i
      → copies (update i st stations j) k ≡ copies st k
  copies_at i j k st stations is =
      ap (λ a. copies (update i st stations a) k) is
      ∙ ap (λ z. copies z k) (update_self i st stations)

  pub copies_grown :
      (k : ℕ) (old st : Station F S) (child : Child F)
      → st.acked ≡ old.acked
      → st.queue ≡ old.queue ++ child ∷ []
      → copies st k ≡ copies old k + one (child.number == k)
  copies_grown k old st child same grown = omega (
    arith,
    ap (occurrences k) same,
    ap (λ q. occurrences k (map number_of q)) grown,
    numbers_grown k old.queue child,
  )

  pub copies_taken :
      (k : ℕ) (old st : Station F S) (child : Child F) (rest : List (Child F))
      → old.queue ≡ child ∷ rest
      → st.queue ≡ rest
      → st.acked ≡ old.acked ++ child.number ∷ []
      → copies st k ≡ copies old k
  unfolding occurrences
  copies_taken k old st child rest was now added =
      let added_once =
        ap (occurrences k) added ∙ occurrences-append k old.acked (child.number ∷ []) in
      let queued = ap (λ q. occurrences k (map number_of q)) was in
      let left = ap (λ q. occurrences k (map number_of q)) now in
      omega (arith, added_once, queued, left)

  -- The acknowledgements of `k`, over the streams.
  abbrev pub acks : ℕ → (ℕ → Station F S) → ℕ → ℕ
  acks n stations k = sum n (λ j. occurrences k (stations j).acked)

  module _ (n : ℕ) where
    pub acks_same :
        (i k : ℕ) (st : Station F S) (stations : ℕ → Station F S)
        → st.acked ≡ (stations i).acked
        → acks n (update i st stations) k ≡ acks n stations k
    unfolding update
    acks_same i k st stations e = sum_same n _ _ (λ j lt. elim (index_cases j i) [
      | inl same ↦ ground (arith, same, ap (occurrences k) e)
      | inr other ↦ ground (arith, other)
    ])

    pub acks-taken :
        (i k number : ℕ) (st : Station F S) (stations : ℕ → Station F S)
        → i < n
        → st.acked ≡ (stations i).acked ++ number ∷ []
        → acks n (update i st stations) k ≡ acks n stations k + one (number == k)
    unfolding occurrences
    acks-taken i k number st stations lt e =
        let more : occurrences k st.acked ≡ occurrences k (stations i).acked + one (number == k) =
          ap (occurrences k) e
          ∙ occurrences-append k (stations i).acked (number ∷ [])
          ∙ omega arith in
        let changed =
          sum_changed n i (λ j. occurrences k (stations j).acked)
            (λ j. occurrences k (update i st stations j).acked) lt
            (λ j other. ap (λ z. occurrences k z.acked) (update_other i j st stations other)) in
        let there = ap (λ z. occurrences k z.acked) (update_self i st stations) in
        omega (arith, more, changed, there)
