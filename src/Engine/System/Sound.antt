-- ===== src/Engine/System/Sound.antt =====
-- What holds between the actions of fanOut and the managers, and that fanOut keeps it.
use mathlib.Core.Path.{subst}
use stream_rail.Common.{
  ℕ, ◌^◌, ◌<◌, ◌≤◌, ◌≡◌, refl, sym, ap, ◌∙◌, Bool, true, none, some, [], ◌∷◌, ◌++◌, nat_eq, ltb,
  arith, inl, inr, Bool-cases, length,
}
use stream_rail.Model.{Event}
use stream_rail.Engine.{ack_barrier}
use stream_rail.Engine.Barrier.{Counted}
use stream_rail.Engine.System.{Child, Station, System, update, open_barrier, send_child, queue_size}
use stream_rail.Engine.System.Counts.{occurrences, sum_zero}
use stream_rail.Engine.System.Copies.{
  acks, acks_same, sent, Sends, following, copies, update_self, update_other, fresh-Counted,
  index_cases, sent-le, sent_later, following-Sends, sent-following, copies_at, copies_grown,
}

module _ {F S : Type 0} where
  pub record Sound (n : ℕ) (s : System F S) : Type 0 where
    pub copied : (k j : ℕ) → j < n → copies (s.stations j) k ≡ sent s.pending s.accepted k j
    pub sends : Sends n s.pending s.accepted
    pub counted :
        (k : ℕ)
        → k < s.accepted
        → (s.barriers k).has_ack ≡ true
        → Counted n (acks n s.stations k) (s.barriers k)

  module _ (n : ℕ) (pos_n : 0 < n) (small : n < 2 ^ 31) where
    pub acked-le :
        (s : System F S) → Sound n s → (k j : ℕ) → j < n → occurrences k (s.stations j).acked ≤ 1
    acked-le s v k j lt = omega (arith, v.copied k j lt, sent-le s.pending s.accepted k j)

    -- No stream has an event that was not accepted.
    unknown :
        (s : System F S)
        → Sound n s
        → (k j : ℕ) → j < n
        → s.accepted ≤ k
        → copies (s.stations j) k ≡ 0
    unknown s v k j lt new = v.copied k j lt ∙ sent_later n s.pending s.accepted k j v.sends new

    pub open_barrier-Sound :
        (has_ack : Bool) (ev : Event F) (s : System F S)
        → s.pending ≡ none
        → Sound n s
        → Sound n (open_barrier n has_ack ev s)
    unfolding open_barrier ack_barrier
    open_barrier-Sound has_ack ev s e v = record {
      copied = λ k j lt.
          let held : copies (s.stations j) k ≡ sent {F = F} none s.accepted k j =
            v.copied k j lt ∙ ap (λ p. sent p s.accepted k j) e in
          ground (arith, held);
      sends = (refl, pos_n);
      counted = λ k lt has. elim (index_cases k s.accepted) [
        | inl same ↦
            let now : update s.accepted (ack_barrier has_ack n) s.barriers k
                ≡ ack_barrier has_ack n =
              ap (λ i. update s.accepted (ack_barrier has_ack n) s.barriers i) same
              ∙ update_self s.accepted (ack_barrier has_ack n) s.barriers in
            let given : has_ack ≡ true = sym (ap (λ b. b.has_ack) now) ∙ has in
            let nothing : acks n s.stations k ≡ 0 =
              sum_zero n _
                (λ j before. omega (arith, unknown s v k j before (omega (arith, same)))) in
            subst (Counted n (acks n s.stations k)) (sym (now ∙ ap (λ b. ack_barrier b n) given))
              (subst (λ c. Counted n c (ack_barrier true n)) (sym nothing) (fresh-Counted n pos_n))
        | inr other ↦
            let old = update_other s.accepted k (ack_barrier has_ack n) s.barriers other in
            subst (Counted n (acks n s.stations k)) (sym old)
              (v.counted k (omega (arith, other)) (sym (ap (λ b. b.has_ack) old) ∙ has))
      ];
    }

    -- One more child in the channel of the stream `i`.
    sent_on :
        (child : Child F) (i : ℕ) (s : System F S) (st : Station F S)
        → Sound n s
        → s.pending ≡ some (child, i)
        → st.acked ≡ (s.stations i).acked
        → st.queue ≡ (s.stations i).queue ++ child ∷ []
        → Sound n (record s { pending = following n child i; stations = update i st s.stations })
    sent_on child i s st v e same grown =
        let w = subst (λ p. Sends n p s.accepted) e v.sends in
        record {
          copied = λ k j lt.
              let held = v.copied k j lt ∙ ap (λ p. sent p s.accepted k j) e in
              let should = sent-following n child i s.accepted k j w lt in
              elim (index_cases j i) [
                | inl is ↦
                    let now =
                      copies_at i j k st s.stations is
                      ∙ copies_grown k (s.stations i) st child same grown in
                    ground (arith, now, ap (λ a. copies (s.stations a) k) is, held, should, is)
                | inr other ↦
                    let now = ap (λ z. copies z k) (update_other i j st s.stations other) in
                    ground (arith, now, held, should, other)
              ];
          sends = following-Sends n child i s.accepted w;
          counted = λ k lt has.
              subst (λ c. Counted n c (s.barriers k)) (sym (acks_same n i k st s.stations same))
                (v.counted k lt has);
        }

    pub send_child-Sound :
        (child : Child F) (i : ℕ) (s : System F S)
        → s.pending ≡ some (child, i)
        → Sound n s
        → Sound n (send_child n child i s)
    unfolding send_child
    send_child-Sound child i s e v =
        let st : Station F S = record (s.stations i) {
          queue = (s.stations i).queue ++ child ∷ [];
        } in
        elim (Bool-cases (ltb (length (s.stations i).queue) queue_size)) [
          | inl room ↦ subst (Sound n) (ground (arith, room)) (sent_on child i s st v e refl refl)
          | inr full ↦ subst (Sound n) (ground (arith, full)) v
        ]
