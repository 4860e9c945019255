-- ===== src/Rule.antt =====
-- internal/rule/rule.go: rules, filters, HAVING conditions, and the fields that they read.
-- Floats, and what strconv and fmt do with them, come by an instance of `Floats`.

pub mod Config
use stream_rail.Common.{
  ℕ, ◌≡◌, ◌<◌, ◌+◌, suc, zero, Bool, true, false, not, ◌&&◌, ◌||◌, Option, none, some, List, [],
  ◌∷◌, ◌++◌, map, Str, codes, ◌==◌, list_eq, nat_eq, length, if◌then◌else◌,
}
use stream_rail.Common.Int.{ℤ}
use stream_rail.Common.Assoc.{lookup}
use stream_rail.Common.Decimal.{format_int}
use stream_rail.Clock.{Duration}
use stream_rail.Model.{
  Value, Items, Members, Event, null, bool, float64, int, int64, string, array, object, nil, cons,
  end, member,
}

-- float64: its constants, arithmetic and comparisons, `float64(n)`, `int64(f)`,
-- `strconv.ParseFloat` (`none` for an error), and its text under `%v` and under `'g', -1`.
pub record Floats (F : Type 0) : Type 0 where
  pub of_int : ℤ → F
  pub to_int : F → ℤ
  pub inf : F
  pub neg_inf : F
  pub plus : F → F → F
  pub divide : F → F → F
  pub less : F → F → Bool
  pub less_eq : F → F → Bool
  pub equal : F → F → Bool
  pub parse : Str → Option F
  pub print : F → Str
  pub format : F → Str

abbrev pub agg_count : Str
agg_count = codes "count"

abbrev pub agg_sum : Str
agg_sum = codes "sum"

abbrev pub agg_max : Str
agg_max = codes "max"

abbrev pub agg_min : Str
agg_min = codes "min"

abbrev pub agg_avg : Str
agg_avg = codes "avg"

abbrev pub op_gt : Str
op_gt = codes "gt"

abbrev pub op_gte : Str
op_gte = codes "gte"

abbrev pub op_lt : Str
op_lt = codes "lt"

abbrev pub op_lte : Str
op_lte = codes "lte"

pub record Filter : Type 0 where
  pub field : Str
  pub eq : Str

pub record Having (F : Type 0) : Type 0 where
  pub op : Str
  pub value : F

pub record Rule (F : Type 0) : Type 0 where
  pub name : Str
  pub filter : Filter
  pub group_by : List Str
  pub agg_func : Str
  pub agg_field : Str
  pub having : Having F
  pub emit : Str
  pub window_size : Duration
  pub window_slide : Duration

-- `headers` is `none` for a nil map.
pub record NotifyConfig : Type 0 where
  pub kind : Str
  pub url : Str
  pub method : Str
  pub headers : Option (List (Str × Str))
  pub template : Str

-- strings.Join
unfoldable pub join : Str → List Str → Str
join sep [] = []
join sep (s ∷ []) = s
join sep (s ∷ t ∷ ss) = s ++ (sep ++ join sep (t ∷ ss))

module _ {F : Type 0} ⦃fl : Floats F⦄ where
  mutual
    -- fmt.Sprint; elements are parted by a space.
    sprint_value : Value F → Str
    sprint_value null = codes "<nil>"
    sprint_value (bool true) = codes "true"
    sprint_value (bool false) = codes "false"
    sprint_value (float64 f) = fl.print f
    sprint_value (int n) = format_int n
    sprint_value (int64 n) = format_int n
    sprint_value (string s) = s
    sprint_value (array xs) = codes "[" ++ (sprint_items xs ++ codes "]")
    sprint_value (object ms) = codes "map[" ++ (sprint_members ms ++ codes "]")

    sprint_items : Items F → Str
    sprint_items nil = []
    sprint_items (cons v nil) = sprint_value v
    sprint_items (cons v (cons w ws)) = sprint_value v ++ (codes " " ++ sprint_items (cons w ws))

    sprint_members : Members F → Str
    sprint_members end = []
    sprint_members (member k v end) = k ++ (codes ":" ++ sprint_value v)
    sprint_members (member k v (member j w ms)) =
        k ++ (codes ":" ++ (sprint_value v ++ (codes " " ++ sprint_members (member j w ms))))

  unfoldable pub sprint : Value F → Str
  unfolding sprint_value
  sprint v = sprint_value v

  -- `none` for the result `"", false`.
  unfoldable pub field_string : Event F → Str → Option Str
  field_string ev field =
      if field == codes "service"
      then some ev.service
      else if field == codes "level"
      then some ev.level
      else elim (lookup field ev.fields) [ none ↦ none | some v ↦ some (sprint v) ]

  float_of : Value F → Option F
  float_of (float64 n) = some n
  float_of (int n) = some (fl.of_int n)
  float_of (int64 n) = some (fl.of_int n)
  float_of (string n) = fl.parse n
  float_of _ = none

  -- `none` for a result whose second part is false.
  unfoldable pub field_float : Event F → Str → Option F
  unfolding float_of
  field_float ev field =
      if field == codes "service" || field == codes "level"
      then none
      else elim (lookup field ev.fields) [ none ↦ none | some v ↦ float_of v ]

  -- Rule.Match
  unfoldable pub matches : Rule F → Event F → Bool
  matches r ev =
      if r.filter.field == []
      then true
      else elim (field_string ev r.filter.field) [ none ↦ false | some v ↦ v == r.filter.eq ]

  -- Having.Satisfied; `a > b` on floats is `b < a`.
  unfoldable pub satisfied : Having F → F → Bool
  satisfied h value =
      if h.op == op_gt
      then fl.less h.value value
      else if h.op == op_gte
      then fl.less_eq h.value value
      else if h.op == op_lt
      then fl.less value h.value
      else if h.op == op_lte
      then fl.less_eq value h.value
      else false

  unfoldable pub group_value : Event F → Str → Str
  group_value ev field =
      let field' = if field == [] then codes "service" else field in
      elim (field_string ev field') [ none ↦ [] | some v ↦ v ]

  unfoldable pub group_key : Event F → List Str → Str
  group_key ev [] = group_value ev (codes "service")
  group_key ev (field ∷ []) = group_value ev field
  group_key ev (field ∷ other ∷ rest) =
      join (codes "|") (map (group_value ev) (field ∷ other ∷ rest))

-- Having.Symbol
unfoldable pub symbol : {F : Type 0} → Having F → Str
symbol h =
    if h.op == op_gt
    then codes ">"
    else if h.op == op_gte
    then codes ">="
    else if h.op == op_lt
    then codes "<"
    else if h.op == op_lte
    then codes "<="
    else codes "?"
