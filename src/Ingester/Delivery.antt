-- ===== src/Ingester/Delivery.antt =====
-- What becomes of each message and each request.
use mathlib.Core.Option
use mathlib.Core.List.{append_assoc}
use stream_rail.Common.{
  ℕ, ◌+◌, ◌≤◌, ◌<◌, ◌↔◌, codes, ◌==◌, ◌≡◌, ◌≢◌, refl, Bool, true, false, none, some, Option, ltb,
  [], ◌∷◌, ◌++◌, Str, list_eq, list_beq_iff, nat_eq, length, length-append, arith, Bool-cases, inl,
  inr,
}
use stream_rail.Model.{Event}
use stream_rail.Window.{Result, ok, err}
use stream_rail.Ingester.{
  HttpIngester, Response, method_not_allowed, invalid_json, channel_full, inc, offer, accepted,
  serve_http, Deduper, Msg, acked, terminated, refused, reply, forward, AckCall, NatsIngester,
  msg_id, is_duplicate, handle, call,
}

inc_lem : (c : Option ℕ) → inc c ≡ Option.map (λ c. c + 1) c
inc_lem none = refl
inc_lem (some c) = refl

not_post : (method : Str) → (method == codes "POST") ≡ false → method ≢ codes "POST"
not_post method e h = ground (arith, e, list_beq_iff method (codes "POST"), h)

module _ {F A : Type 0} where
  abbrev pub Bounded : HttpIngester F A → Type 0
  Bounded h = length h.ch.items ≤ h.ch.capacity

  -- A request with the answer and the state after it.
  pub record Answered (method : Str) (body : Result Str (Event F)) (h n : HttpIngester F A)
      (answer : Response) : Type 0 where
    pub bounded : Bounded n
    pub taken :
        answer ≡ accepted
        → (ev : Event F) × (method ≡ codes "POST")
          × (body ≡ ok ev)
          × (length h.ch.items < h.ch.capacity)
          × (n.ch ≡ record {
            capacity = h.ch.capacity;
            items = h.ch.items ++ record { id = []; event = ev; ack = none } ∷ [];
          })
          × (n.events_counter ≡ Option.map (λ c. c + 1) h.events_counter)
    pub left : answer ≢ accepted → n ≡ h
    pub wrong_method : (answer ≡ method_not_allowed) ↔ (method ≢ codes "POST")
    pub wrong_body :
        (e : Str) → (answer ≡ invalid_json e) ↔ ((method ≡ codes "POST") × (body ≡ err e))
    pub no_room : (answer ≡ channel_full) ↔ (
        (ev : Event F) × (method ≡ codes "POST")
        × (body ≡ ok ev)
        × (length h.ch.items ≡ h.ch.capacity))

  kept :
      (method : Str) (body : Result Str (Event F)) (h : HttpIngester F A)
      → Bounded h
      → method ≢ codes "POST"
      → Answered method body h h method_not_allowed
  kept method body h b other = record {
    bounded = b;
    taken = λ h. cc;
    left = λ _. refl;
    wrong_method = ((λ _. other), (λ _. refl));
    wrong_body = λ e. ((λ h. cc), (λ h. absurd (other h.0)));
    no_room = ((λ h. cc), (λ h. absurd (other h.1)));
  }

  malformed :
      (method : Str) (e : Str) (h : HttpIngester F A)
      → Bounded h
      → method ≡ codes "POST"
      → Answered method (err e) h h (invalid_json e)
  malformed method e h b posts = record {
    bounded = b;
    taken = λ h. cc;
    left = λ _. refl;
    wrong_method = ((λ h. cc), (λ h. absurd (h posts)));
    wrong_body = λ d. ((λ h. (posts, cc)), (λ h. cc));
    no_room = ((λ h. cc), (λ h. cc (h.2)));
  }

  offered :
      (method : Str) (ev : Event F) (h : HttpIngester F A)
      → Bounded h
      → method ≡ codes "POST"
      → let r = offer ev h in Answered method (ok ev) h r.0 r.1
  unfolding offer
  offered method ev h b posts = elim (Bool-cases (ltb (length h.ch.items) h.ch.capacity)) [
    | inl e ↦
        rw (e, offer)
          (record {
            bounded = ground (
              arith,
              e,
              length-append h.ch.items (record { id = []; event = ev; ack = none } ∷ []),
            );
            taken = λ _. (ev, posts, refl, ground (arith, e), refl, inc_lem h.events_counter);
            left = λ h. absurd (h refl);
            wrong_method = ((λ h. cc), (λ h. absurd (h posts)));
            wrong_body = λ e. ((λ h. cc), (λ h. cc (h.1)));
            no_room = ((λ h. cc), (λ h. ground (arith, e, h.3)));
          })
    | inr e ↦
        rw (e, offer)
          (record {
            bounded = b;
            taken = λ h. cc;
            left = λ _. refl;
            wrong_method = ((λ h. cc), (λ h. absurd (h posts)));
            wrong_body = λ e. ((λ h. cc), (λ h. cc (h.1)));
            no_room = ((λ _. (ev, posts, refl, ground (arith, e, b))), (λ _. refl));
          })
  ]

  -- A request to a channel within its capacity leaves it so. It is answered 202 only if it is a POST
  -- whose body is an event and the channel has room, and then exactly this event, without an
  -- identifier and without an acknowledgement, stands at the channel's end, and it is counted if
  -- there is a counter; any other answer has changed nothing. It is answered that the method is not
  -- allowed exactly if it is not a POST, with the decoder's error exactly if a POST's body has it,
  -- and that the channel is full exactly if it is a POST with an event and there is no room.
  pub serve_http-accepted :
      (method : Str) (body : Result Str (Event F)) (h : HttpIngester F A)
      → Bounded h
      → let r = serve_http method body h in Answered method body h r.0 r.1
  unfolding serve_http
  serve_http-accepted method (ok ev) h b = elim (Bool-cases (method == codes "POST")) [
    | inl e ↦ rw (e, serve_http) (offered method ev h b ((list_beq_iff method (codes "POST")).0 e))
    | inr e ↦ rw (e, serve_http) (kept method (ok ev) h b (not_post method e))
  ]
  serve_http-accepted method (err d) h b = elim (Bool-cases (method == codes "POST")) [
    | inl e ↦ rw (e, serve_http) (malformed method d h b ((list_beq_iff method (codes "POST")).0 e))
    | inr e ↦ rw (e, serve_http) (kept method (err d) h b (not_post method e))
  ]

-- The messages that were answered, and the envelopes in the channel.
abbrev pub outcomes : {F D : Type 0} → NatsIngester F D → ℕ
outcomes n = length n.replies + length n.event_ch.items

module _ {F D : Type 0} ⦃dd : Deduper D⦄ (decode : Str → Result Str (Event F)) where
  decoded :
      (sent : Bool) (msg : Msg) (n : NatsIngester F D) (r : Result Str (Event F))
      → let n' : NatsIngester F D = elim r [
        | err e ↦ reply (terminated msg.number) n
        | ok ev ↦ forward sent (msg_id msg) msg.number ev n
      ] in
        (outcomes n' ≡ outcomes n + 1) × (n'.deduper ≡ n.deduper)
  unfolding forward
  decoded sent msg n (err e) = ground (arith, length-append n.replies (terminated msg.number ∷ []))
  decoded true msg n (ok ev) = ground (
    arith,
    length-append n.event_ch.items (
        record {
          id = msg_id msg;
          event = ev;
          ack = some (record { id = msg_id msg; number = msg.number });
        }
        ∷ []),
  )
  decoded false msg n (ok ev) = ground (arith, length-append n.replies (refused msg.number ∷ []))

  -- Each message is answered at once or goes into the channel, never both and never neither; the
  -- store of the seen identifiers is not written before the acknowledgement.
  handle-one_outcome :
      (sent : Bool) (msg : Msg) (n : NatsIngester F D)
      → (outcomes (handle decode sent msg n) ≡ outcomes n + 1)
        × ((handle decode sent msg n).deduper ≡ n.deduper)
  handle-one_outcome sent msg n = elim (Bool-cases (is_duplicate (msg_id msg) n)) [
    | inl twice ↦
        unfold handle in
        rw (twice, handle) (ground (arith, length-append n.replies (acked msg.number ∷ [])))
    | inr once ↦ unfold handle in rw (once, handle) (decoded sent msg n (decode msg.payload))
  ]

  -- After the acknowledgement of a message with an identifier, while the store still has it, a
  -- redelivery is acknowledged, and does not enter the channel again.
  pub handle-call :
      (a : AckCall) (d : D) (sent : Bool) (msg : Msg) (n : NatsIngester F D)
      → n.deduper ≡ some d
      → a.id ≢ []
      → msg_id msg ≡ a.id
      → dd.seen a.id (dd.mark a.id n.dedupe_ttl d) ≡ true
      → let after = handle decode sent msg (call a n) in
        (after.event_ch ≡ n.event_ch)
        × (after.replies ≡ n.replies ++ acked a.number ∷ acked msg.number ∷ [])
  handle-call a d sent msg n e named same kept =
      unfold handle in rw (duplicate, handle) (unfold call in (refl, append_assoc n.replies _ _))
    where
      marked : (call a n).deduper ≡ some (dd.mark a.id n.dedupe_ttl d)
      marked = unfold call in ground (arith, e, named, list_beq_iff a.id [])

      duplicate : is_duplicate (msg_id msg) (call a n) ≡ true
      duplicate =
          unfold is_duplicate in ground (arith, marked, same, kept, named, list_beq_iff a.id [])
