-- ===== src/Ingester.antt =====
-- internal/ingester: http.go and the message handling of nats.go. Decoding JSON is a parameter, as
-- is the store of the seen identifiers.
pub mod Delivery
pub mod Connection
use stream_rail.Common.{
  ℕ, suc, ◌+◌, ◌*◌, Bool, true, false, not, ◌&&◌, Option, none, some, List, [], ◌∷◌, ◌++◌, Str,
  codes, ◌==◌, list_eq, nat_eq, length, ltb, if◌then◌else◌,
}
use stream_rail.Common.Int.{ℤ, pos, ltb_ℤ}
use stream_rail.Common.Decimal.{format_nat}
use stream_rail.Clock.{Duration, nanos}
use stream_rail.Model.{Event, Envelope}
use stream_rail.Window.{Result, ok, err}

-- A buffered channel, oldest item first.
pub record Chan (A : Type 0) : Type 0 where
  pub capacity : ℕ
  pub items : List A

abbrev pub enqueue : {A : Type 0} → A → Chan A → Chan A
enqueue a c = record c { items = c.items ++ a ∷ [] }

-- Inc of an optional counter.
abbrev pub inc : Option ℕ → Option ℕ
inc none = none
inc (some n) = some (n + 1)

pub record HttpIngester (F A : Type 0) : Type 0 where
  pub ch : Chan (Envelope F A)
  pub events_counter : Option ℕ

pub data Response : Type 0 where
  method_not_allowed accepted channel_full : Response
  invalid_json : Str → Response

module _ {F A : Type 0} where
  unfoldable pub with_events_counter : ℕ → HttpIngester F A → HttpIngester F A
  with_events_counter c h = record h { events_counter = some c }

  -- The select with a default: a full channel takes nothing.
  unfoldable pub offer : Event F → HttpIngester F A → HttpIngester F A × Response
  offer ev h =
      if ltb (length h.ch.items) h.ch.capacity
      then (
        record h {
          ch = enqueue (record { id = []; event = ev; ack = none }) h.ch;
          events_counter = inc h.events_counter;
        },
        accepted,
      )
      else (h, channel_full)

  -- ServeHTTP, for a method and what decoding the body gives.
  unfoldable pub serve_http :
      Str → Result Str (Event F) → HttpIngester F A → HttpIngester F A × Response
  unfolding offer
  serve_http method body h =
      if not (method == codes "POST")
      then (h, method_not_allowed)
      else elim body [ err e ↦ (h, invalid_json e) | ok ev ↦ offer ev h ]

-- The interface `Deduper` on the state `D` of an implementation.
pub record Deduper (D : Type 0) : Type 0 where
  pub seen : Str → D → Bool
  pub mark : Str → Duration → D → D

abbrev pub default_dedupe_ttl : Duration
default_dedupe_ttl = pos (86_400 * nanos)

pub record Metadata : Type 0 where
  pub stream : Str
  pub sequence : ℕ

-- A message; `none` where its metadata is missing or wrong. `number` tells deliveries apart.
pub record Msg : Type 0 where
  pub number : ℕ
  pub metadata : Option Metadata
  pub payload : Str

-- What a message is answered.
pub data Reply : Type 0 where
  acked terminated refused : ℕ → Reply

-- The Ack callback of an envelope: the identifier that it marks, and the message that it answers.
pub record AckCall : Type 0 where
  pub id : Str
  pub number : ℕ

pub record NatsIngester (F D : Type 0) : Type 0 where
  pub event_ch : Chan (Envelope F AckCall)
  pub deduper : Option D
  pub dedupe_ttl : Duration
  pub events_counter : Option ℕ
  pub deduped_counter : Option ℕ
  pub replies : List Reply

unfoldable pub msg_id : Msg → Str
msg_id msg = elim msg.metadata [
  | none ↦ []
  | some meta ↦ meta.stream ++ (codes "." ++ format_nat meta.sequence)
]

module _ {F D : Type 0} where
  unfoldable pub new_nats : Chan (Envelope F AckCall) → NatsIngester F D
  new_nats ch = record {
    event_ch = ch;
    deduper = none;
    dedupe_ttl = default_dedupe_ttl;
    events_counter = none;
    deduped_counter = none;
    replies = [];
  }

  unfoldable pub with_deduper : D → NatsIngester F D → NatsIngester F D
  with_deduper d n = record n { deduper = some d }

  unfoldable pub with_dedupe_ttl : Duration → NatsIngester F D → NatsIngester F D
  with_dedupe_ttl ttl n = if ltb_ℤ (pos 0) ttl then record n { dedupe_ttl = ttl } else n

  unfoldable pub with_counters : ℕ → ℕ → NatsIngester F D → NatsIngester F D
  with_counters events deduped n = record n {
    events_counter = some events;
    deduped_counter = some deduped;
  }

  reply : Reply → NatsIngester F D → NatsIngester F D
  reply r n = record n { replies = n.replies ++ r ∷ [] }

  -- The select of the handler: `sent` if the channel takes the envelope before the context ends.
  forward : Bool → Str → ℕ → Event F → NatsIngester F D → NatsIngester F D
  unfolding reply
  forward sent id number ev n =
      if sent
      then record n {
        event_ch =
            enqueue
              (record { id = id; event = ev; ack = some (record { id = id; number = number }) })
              n.event_ch;
        events_counter = inc n.events_counter;
      }
      else reply (refused number) n

  unfoldable pub is_duplicate : ⦃dd : Deduper D⦄ → Str → NatsIngester F D → Bool
  is_duplicate ⦃dd⦄ id n = elim n.deduper [ none ↦ false | some d ↦ not (id == []) && dd.seen id d ]

  module _ ⦃dd : Deduper D⦄ (decode : Str → Result Str (Event F)) where
    -- The function that `handle` returns.
    unfoldable pub handle : Bool → Msg → NatsIngester F D → NatsIngester F D
    unfolding forward
    handle sent msg n =
        if is_duplicate (msg_id msg) n
        then reply (acked msg.number) (record n { deduped_counter = inc n.deduped_counter })
        else elim (decode msg.payload) [
          | err e ↦ reply (terminated msg.number) n
          | ok ev ↦ forward sent (msg_id msg) msg.number ev n
        ]

  -- The Ack callback, when the pipeline calls it.
  unfoldable pub call : ⦃dd : Deduper D⦄ → AckCall → NatsIngester F D → NatsIngester F D
  unfolding reply
  call ⦃dd⦄ a n = reply (acked a.number) (record n {
    deduper = elim n.deduper [
      | none ↦ none
      | some d ↦ some (if not (a.id == []) then dd.mark a.id n.dedupe_ttl d else d)
    ];
  })

-- ensureStream, from what StreamInfo and AddStream answer.
pub data StreamInfo : Type 0 where
  found not_found : StreamInfo
  failed : Str → StreamInfo

unfoldable pub ensure_stream : Str → StreamInfo → Result Str (Unit {0}) → Result Str (Unit {0})
ensure_stream subject found added = ok tt
ensure_stream subject (failed e) added =
    err (codes "stream info " ++ (subject ++ (codes ": " ++ e)))
ensure_stream subject not_found (ok _) = ok tt
ensure_stream subject not_found (err e) =
    err (codes "add stream " ++ (subject ++ (codes ": " ++ e)))
