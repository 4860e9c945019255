-- ===== src/Tests/Rules.antt =====
-- Runs of the theorems on rules, aggregates, streams and notifiers.
use stream_rail.Common.{
  ℕ, ◌+◌, ◌*◌, ◌/◌, ◌≡◌, ◌≢◌, refl, true, false, none, some, [], ◌∷◌, Str, codes, arith, ltb, leb,
  ◌==◌, nat_eq, list_beq, length,
}
use stream_rail.Common.Int.{pos, pos_part}
use stream_rail.Common.Decimal.{format_nat}
use stream_rail.Common.Assoc.{lookup}
use stream_rail.Clock.{minute, second}
use stream_rail.Rule.{
  Floats, Rule, matches, field_float, agg_count, agg_max, agg_sum, op_gt, satisfied,
}
use stream_rail.Rule.Config.{
  Durations, YamlRule, to_rule, check_window_kind, parse_size, check_aggregate, parse_having,
  check_emit, parse_slide,
}
use stream_rail.Rule.Config.Accepted.{IsRule, to_rule-IsRule}
use stream_rail.Window.{Key, Batch}
use stream_rail.Aggregator.{aggregate, rounds, round, absorb}
use stream_rail.Aggregator.Value.{selected, numbers, Describes, aggregate-Describes}
use stream_rail.Aggregator.Extremes.{IsOrdered, maximum_of_none}
use stream_rail.Notifier.{Network, Webhook, webhook, emit}
use stream_rail.Notifier.Alerts.{silence, Reported, emit-fires}
use stream_rail.Tests.Windows.{first_event, second_event, web_key}

-- Numbers in place of floats, with zero and a large one as the infinities.
instance abbrev pub natural : Floats ℕ
natural = record {
  of_int = pos_part;
  to_int = pos;
  inf = 1000;
  neg_inf = 0;
  plus = λ a b. a + b;
  divide = λ a b. a / b;
  less = ltb;
  less_eq = leb;
  equal = λ a b. a == b;
  parse = λ s. none;
  print = format_nat;
  format = format_nat;
}

natural-IsOrdered : IsOrdered natural
natural-IsOrdered = record {
  irrefl = λ a. ground arith;
  trans = λ a b c h k. ground arith;
  numbers_only = λ a b h. (ground arith, ground arith);
  split = λ a b c h k. ground arith;
  inf_number = (refl, refl);
}

abbrev pub both : Batch ℕ
both = record {
  key = web_key;
  window_end = pos 0;
  events = first_event ∷ second_event ∷ [];
  count = 2;
  corrected = false;
}

abbrev pub rule_with : Str → Str → Rule ℕ
rule_with func field = record {
  name = codes "slow";
  filter = record { field = []; eq = [] };
  group_by = codes "service" ∷ [];
  agg_func = func;
  agg_field = field;
  having = record { op = op_gt; value = 5 };
  emit = codes "console";
  window_size = minute;
  window_slide = pos 0;
}

two-ne-zero : ◌≢◌ {A = ℕ} 2 0
two-ne-zero h = omega arith

aggregate-Describes_example :
    Describes
      (rule_with agg_sum (codes "latency"))
      both.events
      (aggregate both (rule_with agg_sum (codes "latency")))
unfolding selected matches list_beq round absorb aggregate rounds field_float lookup
aggregate-Describes_example =
    aggregate-Describes both (rule_with agg_sum (codes "latency")) (omega arith)

maximum_of_none_example : (aggregate both (rule_with agg_max (codes "size"))).value ≡ 0
unfolding selected numbers matches list_beq round absorb aggregate rounds field_float lookup
maximum_of_none_example =
    maximum_of_none both (rule_with agg_max (codes "size")) (omega arith) refl two-ne-zero refl

-- Texts of one letter, each a second.
instance abbrev pub seconds : Durations
seconds = record { parse = λ s. some (pos (length s * 1_000_000_000)) }

abbrev pub yaml_rule : YamlRule ℕ
yaml_rule = record {
  name = codes "errors";
  source = [];
  window = record { kind = codes "sliding"; size = codes "xx"; slide = codes "x" };
  filter = record { field = codes "level"; eq = codes "error" };
  group_by = codes "service" ∷ [];
  agg_func = agg_count;
  agg_field = [];
  having = (op_gt, 3) ∷ [];
  emit = [];
}

abbrev pub parsed_rule : Rule ℕ
parsed_rule = record {
  name = codes "errors";
  filter = record { field = codes "level"; eq = codes "error" };
  group_by = codes "service" ∷ [];
  agg_func = agg_count;
  agg_field = [];
  having = record { op = op_gt; value = 3 };
  emit = [];
  window_size = pos 2_000_000_000;
  window_slide = second;
}

to_rule-IsRule_example : IsRule parsed_rule
unfolding to_rule list_beq check_window_kind parse_size parse_slide check_aggregate parse_having
    check_emit
to_rule-IsRule_example = to_rule-IsRule yaml_rule parsed_rule refl

instance abbrev pub no_network : Network ℕ
no_network = record {
  parse_template = λ s. stream_rail.Window.err s;
  new_request = λ m u. stream_rail.Window.ok tt;
  send = λ r. stream_rail.Window.ok 200;
}

-- A webhook that posts the group.
abbrev hook : Webhook ℕ
hook = record {
  url = codes "http://hooks";
  method = codes "POST";
  headers = [];
  template = λ a. stream_rail.Window.ok a.group_key;
}

emit-fires_example :
    let r = rule_with agg_sum (codes "latency") in
    let res = aggregate both r in
    ((emit (webhook hook) r res).1 ≡ satisfied r.having res.value)
    × (satisfied r.having res.value ≡ false
        → (emit (webhook hook) r res).0 ≡ silence (webhook hook))
    × (satisfied r.having res.value ≡ true
        → Reported (webhook hook) r res (emit (webhook hook) r res).0)
emit-fires_example =
    emit-fires (webhook hook) (rule_with agg_sum (codes "latency"))
      (aggregate both (rule_with agg_sum (codes "latency")))
