-- ===== src/Tests/Streams.antt =====
-- Runs of the theorems on streams, the barrier and the ingesters.
use stream_rail.Common.{
  All, ℕ, ◌≡◌, refl, Bool, true, false, none, some, List, [], ◌∷◌, Str, codes, arith, ◌==◌, nat_eq,
  list_eq, list_beq, keep, if◌then◌else◌,
}
use stream_rail.Common.Int.{pos}
use stream_rail.Common.Decimal.{format_nat}
use stream_rail.Common.Assoc.{lookup}
use stream_rail.Clock.{minute}
use stream_rail.Model.{Event}
use stream_rail.Rule.{Rule, agg_sum, agg_count}
use stream_rail.Window.{Result, ok}
use stream_rail.Engine.{stream_key, stream_key_eq, by_group, group_fields, rules_at}
use stream_rail.Engine.Streams.{rules-by_group_lem, in_stream, shared_stream}
use stream_rail.Engine.Streams.Grouping.{HasNoBar, GroupsAsAsked, grouped_as_asked}
use stream_rail.Ingester.{
  HttpIngester, offer, accepted, serve_http, Deduper, Msg, acked, NatsIngester, msg_id, handle,
  call,
}
use stream_rail.Ingester.Delivery.{Answered, serve_http-accepted, handle-call}
use stream_rail.Tests.Windows.{first_event}
use stream_rail.Tests.Rules.{rule_with, natural}

abbrev sum_rule : Rule ℕ
sum_rule = rule_with agg_sum (codes "latency")

abbrev barred_rule : Rule ℕ
barred_rule = record (rule_with agg_count []) { group_by = codes "a|b" ∷ [] }

abbrev pair_rule : Rule ℕ
pair_rule = record (rule_with agg_count []) { group_by = codes "a" ∷ codes "b" ∷ [] }

rules-by_group_lem_example :
    rules_at minute
      (lookup (stream_key minute sum_rule) (by_group minute (sum_rule ∷ pair_rule ∷ []) []))
    ≡ keep (in_stream minute (stream_key minute sum_rule)) (sum_rule ∷ pair_rule ∷ [])
rules-by_group_lem_example =
    rules-by_group_lem minute (sum_rule ∷ pair_rule ∷ []) (stream_key minute sum_rule)

sum_rule-HasNoBar : HasNoBar sum_rule
sum_rule-HasNoBar = (
  (
    omega arith,
    (omega arith, (omega arith, (omega arith, (omega arith, (omega arith, (omega arith, tt)))))),
  ),
  tt,
)

grouped_as_asked_example :
    All (GroupsAsAsked minute (sum_rule ∷ pair_rule ∷ [])) (sum_rule ∷ pair_rule ∷ [])
grouped_as_asked_example =
    grouped_as_asked minute (sum_rule ∷ pair_rule ∷ [])
      (sum_rule-HasNoBar, (((omega arith, tt), ((omega arith, tt), tt)), tt))

shared_stream_example :
    (rules_at minute
        (lookup (stream_key minute pair_rule) (by_group minute (barred_rule ∷ pair_rule ∷ []) []))
      ≡ barred_rule ∷ pair_rule ∷ [])
    × (lookup (stream_key minute pair_rule) (group_fields minute (barred_rule ∷ pair_rule ∷ []) [])
        ≡ some (codes "a|b" ∷ []))
shared_stream_example =
    shared_stream minute barred_rule pair_rule (codes "a") (codes "b") refl refl refl refl

abbrev free_channel : HttpIngester ℕ (Unit {0})
free_channel = record { ch = record { capacity = 1; items = [] }; events_counter = none }

serve_http-accepted_example :
    Answered
      (codes "POST")
      (ok first_event)
      free_channel
      (record {
        ch = record {
          capacity = 1;
          items = record { id = []; event = first_event; ack = none } ∷ [];
        };
        events_counter = none;
      })
      accepted
unfolding serve_http list_beq offer
serve_http-accepted_example =
    serve_http-accepted (codes "POST") (ok first_event) free_channel (omega arith)

-- A store of the seen identifiers that forgets nothing.
abbrev member : Str → List Str → Bool
member id [] = false
member id (x ∷ xs) = if id == x then true else member id xs

instance abbrev seen_list : Deduper (List Str)
seen_list = record { seen = member; mark = λ id ttl seen. id ∷ seen }

abbrev decode : Str → Result Str (Event ℕ)
decode s = ok first_event

abbrev message : Msg
message = record {
  number = 1;
  metadata = some (record { stream = codes "EVENTS"; sequence = 7 });
  payload = [];
}

abbrev ingester : NatsIngester ℕ (List Str)
ingester = record {
  event_ch = record { capacity = 8; items = [] };
  deduper = some [];
  dedupe_ttl = pos 60;
  events_counter = none;
  deduped_counter = none;
  replies = [];
}

handle-call_example :
    let after =
      handle decode true message (call (record { id = codes "EVENTS.7"; number = 0 }) ingester) in
    (after.event_ch ≡ ingester.event_ch) × (after.replies ≡ acked 0 ∷ acked 1 ∷ [])
unfolding msg_id list_beq format_nat
handle-call_example =
    handle-call decode (record { id = codes "EVENTS.7"; number = 0 }) [] true message ingester refl
      (λ h. cc) refl refl
