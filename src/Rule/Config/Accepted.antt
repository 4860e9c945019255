-- ===== src/Rule/Config/Accepted.antt =====
-- What the validation of rules.yaml lets through.
use mathlib.Core.Path.{subst}
use native.Mathlib.Nat.{mod-eq_of_lt}
use stream_rail.Common.{
  ℕ, suc, ◌%◌, ◌<◌, ◌≡◌, ◌≢◌, refl, sym, ap, ◌∙◌, ◌⊎◌, inl, inr, Bool, true, false, some, List, [],
  ◌∷◌, Str, codes, ◌==◌, list_eq, list_beq_iff, nat_eq, length, All, arith, Option-cases,
}
use stream_rail.Common.Int.{pos, pos_part, ◌≤ℤ◌, ◌<ℤ◌}
use stream_rail.Clock.{Duration}
use stream_rail.Rule.{
  Rule, Having, agg_count, agg_sum, agg_max, agg_min, agg_avg, op_gt, op_gte, op_lt, op_lte,
}
use stream_rail.Rule.Config.{
  ConfigError, Parsed, ok, err, ◌>>=◌, refuse, Durations, YamlRule, YamlConfig, Config, to_rule,
  to_rules, load_config, parse_size, parse_slide, check_aggregate, parse_having, check_emit,
  check_window_kind, slide_too_large, positive_slide, within_rule, no_entries, no_rules,
  to_notify_configs,
}

abbrev pub IsAggFunc : Str → Type 0
IsAggFunc f = (f ≡ agg_count) ⊎ ((f ≡ agg_sum) ⊎ ((f ≡ agg_max) ⊎ ((f ≡ agg_min) ⊎ (f ≡ agg_avg))))

abbrev pub IsOp : Str → Type 0
IsOp op = (op ≡ op_gt) ⊎ ((op ≡ op_gte) ⊎ ((op ≡ op_lt) ⊎ (op ≡ op_lte)))

-- A rule as the engine may rely on it.
pub record IsRule {F : Type 0} (r : Rule F) : Type 0 where
  pub named : r.name ≢ []
  pub sized : pos 0 ≤ℤ r.window_size
  pub slides : pos 0 ≤ℤ r.window_slide
  pub divides :
      pos 0 <ℤ r.window_size
      → pos 0 <ℤ r.window_slide
      → (pos_part r.window_size % pos_part r.window_slide ≡ 0) × (r.window_slide ≤ℤ r.window_size)
  pub func : IsAggFunc r.agg_func
  pub field : (r.agg_func ≡ agg_count) ⊎ (r.agg_field ≢ [])
  pub op : IsOp r.having.op
  pub emits : (r.emit ≡ []) ⊎ (r.emit ≡ codes "console")

>>=-eq-ok :
    {A B : Type 0} (parsed : Parsed A) (next : A → Parsed B) {b : B}
    → (parsed >>= next) ≡ ok b
    → (a : A) × (parsed ≡ ok a) × (next a ≡ ok b)
>>=-eq-ok (err problem) next h = cc
>>=-eq-ok (ok a) next h = (a, refl, h)

ok_injective : {A : Type 0} {a b : A} → ok a ≡ ok b → a ≡ b
ok_injective h = cc

refuse-eq-ok : (b : Bool) (e : ConfigError) (u : Unit {0}) → refuse b e ≡ ok u → b ≡ false
refuse-eq-ok true e u h = cc
refuse-eq-ok false e u h = refl

check_aggregate-ok :
    (func field : Str) (u : Unit {0})
    → check_aggregate func field ≡ ok u
    → IsAggFunc func × ((func ≡ agg_count) ⊎ (field ≢ []))
unfolding check_aggregate
check_aggregate-ok func field u h = ground (
  arith,
  list_beq_iff func agg_count,
  list_beq_iff func agg_sum,
  list_beq_iff func agg_max,
  list_beq_iff func agg_min,
  list_beq_iff func agg_avg,
  list_beq_iff field [],
)

parse_having-ok :
    {F : Type 0} (m : List (Str × F)) (h : Having F) → parse_having m ≡ ok h → IsOp h.op
unfolding parse_having
parse_having-ok [] h e = cc
parse_having-ok ((op, v) ∷ []) h e = ground (
  arith,
  list_beq_iff op op_gt,
  list_beq_iff op op_gte,
  list_beq_iff op op_lt,
  list_beq_iff op op_lte,
)
parse_having-ok (p ∷ q ∷ m) h e = cc

check_emit-ok :
    (emit : Str) (u : Unit {0}) → check_emit emit ≡ ok u → (emit ≡ []) ⊎ (emit ≡ codes "console")
unfolding check_emit
check_emit-ok emit u h = ground (arith, list_beq_iff emit [], list_beq_iff emit (codes "console"))

positive_slide-ne-too_large :
    (text : Str) (size x d e : Duration)
    → positive_slide text size (some x) ≢ err (slide_too_large d e)
unfolding positive_slide
positive_slide-ne-too_large text size x d e h =
    ground (arith, h, λ (p : pos_part size < pos_part x). mod-eq_of_lt p)

module _ ⦃ds : Durations⦄ where
  parse_size-ok : (text : Str) (d : Duration) → parse_size text ≡ ok d → pos 0 ≤ℤ d
  unfolding parse_size
  parse_size-ok text d h = ground arith

  parse_slide-ok :
      (kind text : Str) (size d : Duration)
      → parse_slide kind text size ≡ ok d
      → (pos 0 ≤ℤ d) × (pos 0 <ℤ size → pos 0 <ℤ d → (pos_part size % pos_part d ≡ 0) × (d ≤ℤ size))
  unfolding parse_slide
  parse_slide-ok kind text size d h = ground arith

  -- The last check of the slide, that it does not exceed the size, never is the one that fails.
  parse_slide-ne-too_large :
      (kind text : Str) (size d e : Duration)
      → parse_slide kind text size ≢ err (slide_too_large d e)
  parse_slide-ne-too_large kind text size d e h = elim (Option-cases (ds.parse text)) [
    | inl none_there ↦ unfold parse_slide in ground (arith, none_there)
    | inr (x, there) ↦
        unfold parse_slide in ground (arith, there, positive_slide-ne-too_large text size x d e)
  ]

  module _ {F : Type 0} where
    -- Every rule that toRule returns has a name, a window of no negative size and slide, a slide
    -- that divides the size where the rule gives both, one of the five functions, a field if the
    -- function needs one, one of the four operators, and a known sink.
    pub to_rule-IsRule : (yr : YamlRule F) (r : Rule F) → to_rule yr ≡ ok r → IsRule r
    unfolding to_rule
    to_rule-IsRule yr r h =
        let (_, named, h1) = >>=-eq-ok (refuse (yr.name == []) _) _ h in
        let (_, kind, h2) = >>=-eq-ok (check_window_kind yr.window.kind) _ h1 in
        let (size, sized, h3) = >>=-eq-ok (parse_size yr.window.size) _ h2 in
        let (slide, slides, h4) =
          >>=-eq-ok (parse_slide yr.window.kind yr.window.slide size) _ h3 in
        let (_, func, h5) = >>=-eq-ok (check_aggregate yr.agg_func yr.agg_field) _ h4 in
        let (having, op, h6) = >>=-eq-ok (parse_having yr.having) _ h5 in
        let (_, emits, h7) = >>=-eq-ok (check_emit yr.emit) _ h6 in
        subst IsRule (ok_injective h7) (record {
          named = λ e. ground (arith, list_beq_iff yr.name [], refuse-eq-ok _ _ tt named, e);
          sized = parse_size-ok yr.window.size size sized;
          slides = (parse_slide-ok yr.window.kind yr.window.slide size slide slides).0;
          divides = (parse_slide-ok yr.window.kind yr.window.slide size slide slides).1;
          func = (check_aggregate-ok yr.agg_func yr.agg_field tt func).0;
          field = (check_aggregate-ok yr.agg_func yr.agg_field tt func).1;
          op = parse_having-ok yr.having having op;
          emits = check_emit-ok yr.emit tt emits;
        })

    within_rule-ok :
        (i : ℕ) (name : Str) (m : Parsed (Rule F)) (r : Rule F)
        → within_rule i name m ≡ ok r
        → m ≡ ok r
    unfolding within_rule
    within_rule-ok i name (ok q) r h = h
    within_rule-ok i name (err e) r h = cc

    to_rules-All :
        (i : ℕ) (yrs : List (YamlRule F)) (rs : List (Rule F))
        → to_rules i yrs ≡ ok rs
        → All IsRule rs × (length rs ≡ length yrs)
    unfolding to_rules
    to_rules-All i [] rs h = rw (← ok_injective h) (tt, refl)
    to_rules-All i (yr ∷ yrs) rs h =
        let (r, one, h1) = >>=-eq-ok (within_rule i yr.name (to_rule yr)) _ h in
        let (rest, more, h2) = >>=-eq-ok (to_rules (suc i) yrs) _ h1 in
        let ih = to_rules-All (suc i) yrs rest more in
        rw (← ok_injective h2)
          ((to_rule-IsRule yr r (within_rule-ok i yr.name (to_rule yr) r one), ih.0), ap suc ih.1)

    no_entries-false : (yrs : List (YamlRule F)) → no_entries yrs ≡ false → yrs ≢ []
    unfolding no_entries
    no_entries-false [] h e = cc
    no_entries-false (yr ∷ yrs) h e = cc

    length-zero : (yrs : List (YamlRule F)) → length yrs ≡ 0 → yrs ≡ []
    length-zero [] h = refl
    length-zero (yr ∷ yrs) h = absurd (omega arith)

    -- A configuration that loads has a rule for each entry, at least one, and all are sound.
    pub load_config-All :
        (cfg : YamlConfig F) (c : Config F)
        → load_config (ok cfg) ≡ ok c
        → All IsRule c.rules × (length c.rules ≡ length cfg.rules) × (c.rules ≢ [])
    unfolding load_config
    load_config-All cfg c h =
        let (_, some_rule, h1) = >>=-eq-ok (refuse (no_entries cfg.rules) no_rules) _ h in
        let (rs, loaded, h2) = >>=-eq-ok (to_rules 0 cfg.rules) _ h1 in
        let (ns, _, h3) = >>=-eq-ok (to_notify_configs 0 cfg.notify) _ h2 in
        let rules = to_rules-All 0 cfg.rules rs loaded in
        let nonempty = no_entries-false cfg.rules (refuse-eq-ok _ _ tt some_rule) in
        rw (← ok_injective h3)
          (rules.0, rules.1, (λ e. nonempty (length-zero cfg.rules (sym rules.1 ∙ ap length e))))
