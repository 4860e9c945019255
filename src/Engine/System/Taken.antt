-- ===== src/Engine/System/Taken.antt =====
-- A manager takes an envelope: what stays true.
use mathlib.Core.Path.{subst}
use stream_rail.Common.{
  ℕ, suc, ◌^◌, ◌<◌, ◌≤◌, ◌≡◌, refl, sym, ap, ◌∙◌, true, List, [], ◌∷◌, ◌++◌, nat_eq, arith, inl,
  inr,
}
use stream_rail.Window.{Store}
use stream_rail.Engine.{call_done}
use stream_rail.Engine.Barrier.{Counted, call_done-Counted}
use stream_rail.Engine.System.{Child, Station, System, update, take_child, receive_event}
use stream_rail.Engine.System.Counts.{sum-le}
use stream_rail.Engine.System.Copies.{
  acks, acks-taken, copies, update_self, update_other, has_ack-call_done, index_cases, copies_at,
  copies_taken,
}
use stream_rail.Engine.System.Sound.{Sound, acked-le}

module _ {F S : Type 0} where
  module _ (n : ℕ) (pos_n : 0 < n) (small : n < 2 ^ 31) where
    own-Counted :
        (i number : ℕ) (s : System F S) (st : Station F S)
        → i < n
        → st.acked ≡ (s.stations i).acked ++ number ∷ []
        → Sound n s
        → number < s.accepted
        → (update number (call_done (s.barriers number)) s.barriers number).has_ack ≡ true
        → Counted n
            (acks n (update i st s.stations) number)
            (update number (call_done (s.barriers number)) s.barriers number)
    own-Counted i number s st lt added v before has =
        let after = call_done (s.barriers number) in
        let now = update_self number after s.barriers in
        let given : (s.barriers number).has_ack ≡ true =
          sym (has_ack-call_done (s.barriers number)) ∙ sym (ap (λ b. b.has_ack) now) ∙ has in
        let calls = acks n s.stations number in
        let bound : calls ≤ n =
          sum-le n _ (λ j within. acked-le n pos_n small s v number j within) in
        let count : acks n (update i st s.stations) number ≡ suc calls =
          acks-taken n i number number st s.stations lt added ∙ ground arith in
        subst (Counted n (acks n (update i st s.stations) number)) (sym now) (
          subst (λ c. Counted n c after) (sym count)
            (call_done-Counted n calls (s.barriers number) pos_n small (omega (arith, bound))
              (v.counted number before given)))

    taken-Counted :
        (i number : ℕ) (s : System F S) (st : Station F S)
        → i < n
        → st.acked ≡ (s.stations i).acked ++ number ∷ []
        → Sound n s
        → (k : ℕ) → k < s.accepted
        → (update number (call_done (s.barriers number)) s.barriers k).has_ack ≡ true
        → Counted n
            (acks n (update i st s.stations) k)
            (update number (call_done (s.barriers number)) s.barriers k)
    taken-Counted i number s st lt added v k before has = elim (index_cases k number) [
      | inl same ↦
          let after = call_done (s.barriers number) in
          subst
            (λ z. Counted n (acks n (update i st s.stations) z) (update number after s.barriers z))
            (sym same)
            (own-Counted i number s st lt added v (omega (arith, before, same))
              (sym (ap (λ z. (update number after s.barriers z).has_ack) same) ∙ has))
      | inr other ↦
          let old = update_other number k (call_done (s.barriers number)) s.barriers other in
          let count : acks n (update i st s.stations) k ≡ acks n s.stations k =
            acks-taken n i k number st s.stations lt added ∙ ground (arith, other) in
          subst (Counted n (acks n (update i st s.stations) k)) (sym old) (
            subst (λ c. Counted n c (s.barriers k)) (sym count)
              (v.counted k before (sym (ap (λ b. b.has_ack) old) ∙ has)))
    ]

    pub take_child-Sound :
        (ops : Store F S) (i : ℕ) (q : List (Child F)) (s : System F S)
        → i < n
        → (s.stations i).queue ≡ q
        → Sound n s
        → Sound n (take_child ops i q s)
    unfolding take_child
    take_child-Sound ops i [] s lt e v = v
    take_child-Sound ops i (child ∷ rest) s lt e v =
        let st : Station F S = record {
          queue = rest;
          stage = receive_event ops child.event (s.stations i).stage;
          acked = (s.stations i).acked ++ child.number ∷ [];
        } in
        record {
          copied = λ k j within. elim (index_cases j i) [
            | inl is ↦
                copies_at i j k st s.stations is
                ∙ copies_taken k (s.stations i) st child rest e refl refl
                ∙ sym (ap (λ a. copies (s.stations a) k) is)
                ∙ v.copied k j within
            | inr other ↦
                ap (λ z. copies z k) (update_other i j st s.stations other) ∙ v.copied k j within
          ];
          sends = v.sends;
          counted = λ k before has. taken-Counted i child.number s st lt refl v k before has;
        }
