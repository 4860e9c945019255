-- ===== src/Rule/Config.antt =====
-- internal/rule/config.go: from the decoded rules.yaml to rules. yaml.v3 has done its part when a
-- `YamlConfig` is there; `time.ParseDuration` comes by an instance.
pub mod Accepted
use stream_rail.Common.{
  ℕ, zero, suc, ◌+◌, ◌%◌, Bool, true, false, not, ◌&&◌, ◌||◌, Option, none, some, List, [], ◌∷◌,
  ◌++◌, Str, codes, ◌==◌, list_eq, nat_eq, length, if◌then◌else◌,
}
use stream_rail.Common.Int.{ℤ, pos, pos_part, leb_ℤ, ltb_ℤ}
use stream_rail.Clock.{Duration}
use stream_rail.Rule.{
  Rule, Filter, Having, NotifyConfig, agg_count, agg_sum, agg_max, agg_min, agg_avg, op_gt, op_gte,
  op_lt, op_lte,
}

-- The messages of the errors, with what they quote.
pub data ConfigError : Type 0 where
  open_failed parse_failed : Str → ConfigError
  no_rules : ConfigError
  group_by_list : Str → ConfigError
  group_by_kind : ConfigError
  name_required : ConfigError
  window_type_unsupported : Str → ConfigError
  size_invalid size_not_positive : Str → ConfigError
  slide_required : ConfigError
  slide_invalid slide_not_positive : Str → ConfigError
  size_not_divisible slide_too_large : Duration → Duration → ConfigError
  agg_field_required agg_func_unsupported : Str → ConfigError
  having_count : ℕ → ConfigError
  having_op : Str → ConfigError
  emit_unsupported : Str → ConfigError
  url_required : ConfigError
  notify_unsupported : Str → ConfigError
  in_rule : ℕ → Str → ConfigError → ConfigError
  in_notify : ℕ → ConfigError → ConfigError

pub data Parsed (A : Type 0) : Type 0 where
  ok : A → Parsed A
  err : ConfigError → Parsed A

-- Fails if the test holds.
abbrev pub refuse : Bool → ConfigError → Parsed (Unit {0})
refuse false problem = ok tt
refuse true problem = err problem

infixl 5 ◌>>=◌ ◌>>◌
abbrev pub ◌>>=◌ : {A B : Type 0} → Parsed A → (A → Parsed B) → Parsed B
parsed >>= next = elim parsed [ ok a ↦ next a | err problem ↦ err problem ]

abbrev pub ◌>>◌ : {B : Type 0} → Parsed (Unit {0}) → Parsed B → Parsed B
checked >> next = checked >>= λ _. next

-- time.ParseDuration; `none` for an error.
pub record Durations : Type 0 where
  pub parse : Str → Option Duration

pub record YamlWindow : Type 0 where
  pub kind : Str
  pub size : Str
  pub slide : Str

-- A YAML node as group_by meets it: a scalar, a sequence with what decoding it into texts gives, or
-- another node.
pub data YamlNode : Type 0 where
  scalar : Str → YamlNode
  sequence : Parsed (List Str) → YamlNode
  other : YamlNode

-- UnmarshalYAML of groupByYAML
unfoldable pub unmarshal_group_by : YamlNode → Parsed (List Str)
unmarshal_group_by (scalar s) = ok (s ∷ [])
unmarshal_group_by (sequence (ok fields)) = ok fields
unmarshal_group_by (sequence (err e)) = err e
unmarshal_group_by other = err group_by_kind

pub record YamlRule (F : Type 0) : Type 0 where
  pub name : Str
  pub source : Str
  pub window : YamlWindow
  pub filter : Filter
  pub group_by : List Str
  pub agg_func : Str
  pub agg_field : Str
  pub having : List (Str × F)
  pub emit : Str

pub record YamlConfig (F : Type 0) : Type 0 where
  pub rules : List (YamlRule F)
  pub notify : List NotifyConfig

pub record Config (F : Type 0) : Type 0 where
  pub rules : List (Rule F)
  pub notify : List NotifyConfig

known_agg : Str → Bool
known_agg f = f == agg_sum || (f == agg_max || (f == agg_min || f == agg_avg))

known_op : Str → Bool
known_op op = op == op_gt || (op == op_gte || (op == op_lt || op == op_lte))

unfoldable pub check_window_kind : Str → Parsed (Unit {0})
check_window_kind kind =
    refuse (not (kind == []) && (not (kind == codes "tumbling") && not (kind == codes "sliding")))
      (window_type_unsupported kind)

unfoldable pub check_aggregate : Str → Str → Parsed (Unit {0})
unfolding known_agg
check_aggregate func field =
    if func == agg_count
    then ok tt
    else if known_agg func
    then refuse (field == []) (agg_field_required func)
    else err (agg_func_unsupported func)

unfoldable pub parse_having : {F : Type 0} → List (Str × F) → Parsed (Having F)
unfolding known_op
parse_having [] = err (having_count 0)
parse_having ((op, v) ∷ []) =
    if known_op op then ok (record { op = op; value = v }) else err (having_op op)
parse_having (p ∷ q ∷ m) = err (having_count (length (p ∷ q ∷ m)))

unfoldable pub check_emit : Str → Parsed (Unit {0})
check_emit emit = refuse (not (emit == []) && not (emit == codes "console")) (emit_unsupported emit)

positive_size : Str → Option Duration → Parsed Duration
positive_size text none = err (size_invalid text)
positive_size text (some d) = if leb_ℤ d (pos 0) then err (size_not_positive text) else ok d

positive_slide : Str → Duration → Option Duration → Parsed Duration
positive_slide text size none = err (slide_invalid text)
positive_slide text size (some d) =
    if leb_ℤ d (pos 0)
    then err (slide_not_positive text)
    else if ltb_ℤ (pos 0) size && not (pos_part size % pos_part d == 0)
    then err (size_not_divisible size d)
    else if ltb_ℤ (pos 0) size && ltb_ℤ size d
    then err (slide_too_large d size)
    else ok d

module _ ⦃ds : Durations⦄ where
  unfoldable pub parse_size : Str → Parsed Duration
  unfolding positive_size
  parse_size text = if text == [] then ok (pos 0) else positive_size text (ds.parse text)

  unfoldable pub parse_slide : Str → Str → Duration → Parsed Duration
  unfolding positive_slide
  parse_slide kind text size =
      if kind == codes "sliding"
      then (if text == [] then err slide_required else positive_slide text size (ds.parse text))
      else ok (pos 0)

  module _ {F : Type 0} where
    unfoldable pub to_rule : YamlRule F → Parsed (Rule F)
    to_rule yr = do
      refuse (yr.name == []) name_required
      check_window_kind yr.window.kind
      size ← parse_size yr.window.size
      slide ← parse_slide yr.window.kind yr.window.slide size
      check_aggregate yr.agg_func yr.agg_field
      having ← parse_having yr.having
      check_emit yr.emit
      ok (record {
        name = yr.name;
        filter = yr.filter;
        group_by = yr.group_by;
        agg_func = yr.agg_func;
        agg_field = yr.agg_field;
        having = having;
        emit = yr.emit;
        window_size = size;
        window_slide = slide;
      })

    within_rule : ℕ → Str → Parsed (Rule F) → Parsed (Rule F)
    within_rule i name (ok r) = ok r
    within_rule i name (err e) = err (in_rule i name e)

    -- The loop over the rules, from the index `i`.
    unfoldable pub to_rules : ℕ → List (YamlRule F) → Parsed (List (Rule F))
    unfolding within_rule
    to_rules i [] = ok []
    to_rules i (yr ∷ yrs) = do
      r ← within_rule i yr.name (to_rule yr)
      rs ← to_rules (suc i) yrs
      ok (r ∷ rs)

unfoldable pub to_notify_config : NotifyConfig → Parsed NotifyConfig
to_notify_config yn =
    if yn.kind == codes "console"
    then ok yn
    else if yn.kind == codes "webhook"
    then (if yn.url == [] then err url_required else ok yn)
    else err (notify_unsupported yn.kind)

within_notify : ℕ → Parsed NotifyConfig → Parsed NotifyConfig
within_notify i (ok nc) = ok nc
within_notify i (err e) = err (in_notify i e)

unfoldable pub to_notify_configs : ℕ → List NotifyConfig → Parsed (List NotifyConfig)
unfolding within_notify
to_notify_configs i [] = ok []
to_notify_configs i (yn ∷ yns) = do
  nc ← within_notify i (to_notify_config yn)
  ncs ← to_notify_configs (suc i) yns
  ok (nc ∷ ncs)

no_entries : {F : Type 0} → List (YamlRule F) → Bool
no_entries [] = true
no_entries (_ ∷ _) = false

-- LoadConfig, from what opening and decoding the file gave.
unfoldable pub load_config :
    {F : Type 0} ⦃ds : Durations⦄ → Parsed (YamlConfig F) → Parsed (Config F)
unfolding no_entries
load_config decoded = do
  cfg ← decoded
  refuse (no_entries cfg.rules) no_rules
  rules ← to_rules 0 cfg.rules
  notify ← to_notify_configs 0 cfg.notify
  ok (record { rules = rules; notify = notify })

-- LoadFile
unfoldable pub load_file :
    {F : Type 0} ⦃ds : Durations⦄ → Parsed (YamlConfig F) → Parsed (List (Rule F))
load_file decoded = do cfg ← load_config decoded; ok cfg.rules
