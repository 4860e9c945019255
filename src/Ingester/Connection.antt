-- ===== src/Ingester/Connection.antt =====
-- internal/ingester/nats.go: Start and Stop. The NATS client is a parameter on a state `W`; a
-- connection and a subscription are numbers that it gives.
use stream_rail.Common.{
  ℕ, ◌≡◌, refl, ◌∙◌, Bool, true, false, Option, none, some, Str, codes, ◌++◌, ◌==◌, nat_eq,
  beq_refl, nat_beq_iff, arith, if◌then◌else◌,
}
use stream_rail.Window.{Result, ok, err}
use stream_rail.Ingester.{StreamInfo, found, not_found, failed, ensure_stream}

-- The calls of the client: the state after the call, and its answer.
pub record Client (W : Type 0) : Type 0 where
  pub connect : Str → W → W × Result Str ℕ
  pub jet_stream : ℕ → W → W × Result Str (Unit {0})
  pub stream_info : ℕ → Str → W → W × StreamInfo
  pub add_stream : ℕ → Str → W → W × Result Str (Unit {0})
  pub subscribe : ℕ → Str → Str → W → W × Result Str ℕ
  pub drain_subscription : ℕ → W → W
  pub drain : ℕ → W → W
  pub close : ℕ → W → W

-- Which connections are open: Connect opens a new one or none, Close closes its own, Drain may, and
-- the other calls leave them.
pub record KeepsConnections {W : Type 0} (client : Client W) : Type 0 where
  pub is_open : ℕ → W → Bool
  pub connect_new :
      (url : Str) (w : W) (c : ℕ)
      → (client.connect url w).1 ≡ ok c
      → (is_open c w ≡ false)
        × ((d : ℕ) → is_open d (client.connect url w).0 ≡ (if c == d then true else is_open d w))
  pub connect_none :
      (url e : Str) (w : W)
      → (client.connect url w).1 ≡ err e
      → (d : ℕ) → is_open d (client.connect url w).0 ≡ is_open d w
  pub jet_stream_leaves : (c d : ℕ) (w : W) → is_open d (client.jet_stream c w).0 ≡ is_open d w
  pub stream_info_leaves :
      (c d : ℕ) (subject : Str) (w : W) → is_open d (client.stream_info c subject w).0 ≡ is_open d w
  pub add_stream_leaves :
      (c d : ℕ) (subject : Str) (w : W) → is_open d (client.add_stream c subject w).0 ≡ is_open d w
  pub subscribe_leaves :
      (c d : ℕ) (subject durable : Str) (w : W)
      → is_open d (client.subscribe c subject durable w).0 ≡ is_open d w
  pub drain_subscription_leaves :
      (s d : ℕ) (w : W) → is_open d (client.drain_subscription s w) ≡ is_open d w
  pub drain_others :
      (c d : ℕ) (w : W) → (c == d) ≡ false → is_open d (client.drain c w) ≡ is_open d w
  pub close_own :
      (c d : ℕ) (w : W) → is_open d (client.close c w) ≡ (if c == d then false else is_open d w)

-- The part of NATSIngester that Start and Stop use.
pub record NatsLink : Type 0 where
  pub url : Str
  pub subject : Str
  pub durable : Str
  pub nc : Option ℕ
  pub sub : Option ℕ

-- NewNATS
unfoldable pub new_link : Str → Str → NatsLink
new_link url subject = record {
  url = url;
  subject = subject;
  durable = codes "streamrail-" ++ subject;
  nc = none;
  sub = none;
}

module _ {W : Type 0} (client : Client W) where
  -- ensureStream, whose AddStream is called only where the stream is not found.
  ensured : ℕ → Str → W × StreamInfo → W × Result Str (Unit {0})
  ensured c subject (w, found) = (w, ensure_stream subject found (ok tt))
  ensured c subject (w, failed e) = (w, ensure_stream subject (failed e) (ok tt))
  ensured c subject (w, not_found) =
      let (v, added) = client.add_stream c subject w in (v, ensure_stream subject not_found added)

  after_subscribe : ℕ → NatsLink → W × Result Str ℕ → W × NatsLink × Result Str (Unit {0})
  after_subscribe c link (w, err e) =
      (client.close c w, link, err (codes "subscribe " ++ (link.subject ++ (codes ": " ++ e))))
  after_subscribe c link (w, ok s) = (w, record link { nc = some c; sub = some s }, ok tt)

  after_ensure : ℕ → NatsLink → W × Result Str (Unit {0}) → W × NatsLink × Result Str (Unit {0})
  unfolding after_subscribe
  after_ensure c link (w, err e) = (client.close c w, link, err e)
  after_ensure c link (w, ok _) =
      after_subscribe c link (client.subscribe c link.subject link.durable w)

  after_jet_stream : ℕ → NatsLink → W × Result Str (Unit {0}) → W × NatsLink × Result Str (Unit {0})
  unfolding after_ensure ensured
  after_jet_stream c link (w, err e) =
      (client.close c w, link, err (codes "jetstream context: " ++ e))
  after_jet_stream c link (w, ok _) =
      after_ensure c link (ensured c link.subject (client.stream_info c link.subject w))

  after_connect : NatsLink → W × Result Str ℕ → W × NatsLink × Result Str (Unit {0})
  unfolding after_jet_stream
  after_connect link (w, err e) =
      (w, link, err (codes "nats connect " ++ (link.url ++ (codes ": " ++ e))))
  after_connect link (w, ok c) = after_jet_stream c link (client.jet_stream c w)

  -- Start
  unfoldable pub start : NatsLink → W → W × NatsLink × Result Str (Unit {0})
  unfolding after_connect
  start link w = after_connect link (client.connect link.url w)

  -- The two halves of Stop.
  stop_subscription : Option ℕ → W → W
  stop_subscription none w = w
  stop_subscription (some s) w = client.drain_subscription s w

  stop_connection : Option ℕ → W → W
  stop_connection none w = w
  stop_connection (some c) w = client.close c (client.drain c w)

  unfoldable pub stop : NatsLink → W → W
  unfolding stop_connection stop_subscription
  stop link w = stop_connection link.nc (stop_subscription link.sub w)

module _ {W : Type 0} {client : Client W} (keeps : KeepsConnections client) (before : W)
    (link : NatsLink) where
  open keeps use {is_open}

  -- The outcome of Start: an error leaves the connections and the ingester, and a success holds one
  -- connection more, which Stop closes.
  pub data Outcome : W × NatsLink × Result Str (Unit {0}) → Type 0 where
    refused :
        (w : W) (e : Str) → ((d : ℕ) → is_open d w ≡ is_open d before) → Outcome (w, link, err e)
    started :
        (w : W) (now : NatsLink) (c : ℕ)
        → now.nc ≡ some c
        → is_open c before ≡ false
        → is_open c w ≡ true
        → ((d : ℕ) → is_open d (stop client now w) ≡ is_open d before)
        → Outcome (w, now, ok tt)

  -- With one connection more than before.
  record Holds (c : ℕ) (w : W) : Type 0 where
    pub fresh : is_open c before ≡ false
    pub holds : (d : ℕ) → is_open d w ≡ (if c == d then true else is_open d before)

  closed : (c : ℕ) (w : W) → Holds c w → (d : ℕ) → is_open d (client.close c w) ≡ is_open d before
  closed c w h d = ground (arith, keeps.close_own c d w, h.holds d, nat_beq_iff c d, h.fresh)

  stopped :
      (c s : ℕ) (w : W) (now : NatsLink)
      → Holds c w
      → now.nc ≡ some c
      → now.sub ≡ some s
      → (d : ℕ) → is_open d (stop client now w) ≡ is_open d before
  unfolding stop stop_connection stop_subscription
  stopped c s w now h e f d =
      rw (e, f)
        (ground (
          arith,
          keeps.close_own c d (client.drain c (client.drain_subscription s w)),
          keeps.drain_others c d (client.drain_subscription s w),
          keeps.drain_subscription_leaves s d w,
          h.holds d,
          nat_beq_iff c d,
          h.fresh,
        ))

  Holds-same : {c : ℕ} {w v : W} → Holds c w → ((d : ℕ) → is_open d v ≡ is_open d w) → Holds c v
  Holds-same h same = record { fresh = h.fresh; holds = λ d. same d ∙ h.holds d }

  after_subscribe-Outcome :
      (c : ℕ) (r : W × Result Str ℕ) → Holds c r.0 → Outcome (after_subscribe client c link r)
  unfolding after_subscribe
  after_subscribe-Outcome c (w, err e) h = refused _ _ (closed c w h)
  after_subscribe-Outcome c (w, ok s) h =
      started w _ c refl h.fresh (h.holds c ∙ ground (arith, beq_refl c))
        (stopped c s w (record link { nc = some c; sub = some s }) h refl refl)

  ensured-Holds :
      (c : ℕ) (r : W × StreamInfo) → Holds c r.0 → Holds c (ensured client c link.subject r).0
  unfolding ensured
  ensured-Holds c (w, found) h = h
  ensured-Holds c (w, failed e) h = h
  ensured-Holds c (w, not_found) h = Holds-same h (λ d. keeps.add_stream_leaves c d link.subject w)

  after_ensure-Outcome :
      (c : ℕ) (r : W × Result Str (Unit {0})) → Holds c r.0 → Outcome (after_ensure client c link r)
  unfolding after_ensure
  after_ensure-Outcome c (w, err e) h = refused _ _ (closed c w h)
  after_ensure-Outcome c (w, ok _) h =
      after_subscribe-Outcome c _
        (Holds-same h (λ d. keeps.subscribe_leaves c d link.subject link.durable w))

  after_jet_stream-Outcome :
      (c : ℕ) (r : W × Result Str (Unit {0}))
      → Holds c r.0
      → Outcome (after_jet_stream client c link r)
  unfolding after_jet_stream
  after_jet_stream-Outcome c (w, err e) h = refused _ _ (closed c w h)
  after_jet_stream-Outcome c (w, ok _) h =
      after_ensure-Outcome c _
        (ensured-Holds c _ (Holds-same h (λ d. keeps.stream_info_leaves c d link.subject w)))

  after_connect-Outcome :
      (r : W × Result Str ℕ)
      → ((e : Str) → r.1 ≡ err e → (d : ℕ) → is_open d r.0 ≡ is_open d before)
      → ((c : ℕ) → r.1 ≡ ok c → Holds c r.0)
      → Outcome (after_connect client link r)
  unfolding after_connect
  after_connect-Outcome (w, err e) same h = refused _ _ (same e refl)
  after_connect-Outcome (w, ok c) same h =
      after_jet_stream-Outcome c _ (Holds-same (h c refl) (λ d. keeps.jet_stream_leaves c d w))

  -- With a client that opens and closes connections as its calls say: if Start fails at any of its
  -- steps, then the connections that are open are those that were before, and the ingester is as it
  -- was. If it succeeds, then it has opened one connection, which the ingester holds, and once Stop has
  -- run after it, the open connections are those from before Start.
  pub start-Outcome : Outcome (start client link before)
  unfolding start
  start-Outcome =
      after_connect-Outcome _ (λ e f. keeps.connect_none link.url e before f)
        (λ c e.
          let (fresh, holds) = keeps.connect_new link.url before c e in
          record { fresh = fresh; holds = holds })
