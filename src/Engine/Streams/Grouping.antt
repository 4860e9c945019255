-- ===== src/Engine/Streams/Grouping.antt =====
-- internal/engine/engine.go, normalizeGroupBy: when rules that share a stream group alike.
use stream_rail.Common.{
  ℕ, ◌≡◌, ◌≢◌, refl, sym, ap, ◌∙◌, some, List, [], ◌∷◌, ◌++◌, Str, codes, arith, All, All-map,
  beq_refl, inl, inr, Bool-cases,
}
use mathlib.Core.Path.{subst}
use stream_rail.Clock.{Duration}
use stream_rail.Model.{Event}
use stream_rail.Rule.{Floats, Rule, join, group_key}
use stream_rail.Engine.{
  StreamKey, stream_key_eq, stream_key_beq_iff, stream_key, group_fields, normalize_group_by,
  group_func_for,
}
use stream_rail.Engine.Setup.{fields_of}
use stream_rail.Engine.Streams.{in_stream, first_fields, lookup-group_fields_lem}

-- A name without the bar that joins the fields.
abbrev pub bar : ℕ
bar = 124

abbrev pub NoBar : Str → Type 0
NoBar name = All (λ c. bar ≢ c) name

-- The text before the first bar, and the text after it.
parts_same :
    (s t x y : Str)
    → NoBar s
    → NoBar t
    → s ++ (codes "|" ++ x) ≡ t ++ (codes "|" ++ y)
    → (s ≡ t) × (x ≡ y)
parts_same [] [] x y h g e = (refl, cc)
parts_same [] (c ∷ t) x y h g e = absurd (g.0 cc)
parts_same (c ∷ s) [] x y h g e = absurd (h.0 cc)
parts_same (c ∷ s) (d ∷ t) x y h g e =
    let (heads, tails) = parts_same s t x y h.1 g.1 cc in (cc, tails)

not_joined : (s t y : Str) → NoBar s → s ≢ t ++ (codes "|" ++ y)
not_joined [] [] y h e = cc
not_joined [] (c ∷ t) y h e = cc
not_joined (c ∷ s) [] y h e = h.0 cc
not_joined (c ∷ s) (d ∷ t) y h e = not_joined s t y h.1 cc

-- Fields without bars are read off their text.
join_same :
    (f g : Str) (fs gs : List Str)
    → All NoBar (f ∷ fs)
    → All NoBar (g ∷ gs)
    → join (codes "|") (f ∷ fs) ≡ join (codes "|") (g ∷ gs)
    → f ∷ fs ≡ g ∷ gs
unfolding join
join_same f g [] [] h k e = ap (λ s. s ∷ []) e
join_same f g [] (g2 ∷ gs) h k e = absurd (not_joined f g _ h.0 e)
join_same f g (f2 ∷ fs) [] h k e = absurd (not_joined g f _ k.0 (sym e))
join_same f g (f2 ∷ fs) (g2 ∷ gs) h k e =
    let (first, rest) = parts_same f g _ _ h.0 k.0 e in
    let others = join_same f2 g2 fs gs h.1 k.1 rest in cc

-- The fields that are meant: none stand for the service.
abbrev meant : List Str → List Str
meant [] = codes "service" ∷ []
meant (f ∷ fs) = f ∷ fs

meant-NoBar : (fields : List Str) → All NoBar fields → All NoBar (meant fields)
meant-NoBar [] h = (
  (
    omega arith,
    (omega arith, (omega arith, (omega arith, (omega arith, (omega arith, (omega arith, tt)))))),
  ),
  tt,
)
meant-NoBar (f ∷ fs) h = h

normalize_group_by_same :
    (fs gs : List Str)
    → All NoBar fs
    → All NoBar gs
    → normalize_group_by fs ≡ normalize_group_by gs
    → meant fs ≡ meant gs
unfolding normalize_group_by
normalize_group_by_same [] [] h g e = refl
normalize_group_by_same [] (f ∷ fs) h g e =
    join_same (codes "service") f [] fs (meant-NoBar [] tt) g (unfold join in e)
normalize_group_by_same (f ∷ fs) [] h g e =
    join_same f (codes "service") fs [] h (meant-NoBar [] tt) (unfold join in e)
normalize_group_by_same (f ∷ fs) (g ∷ gs) h k e = join_same f g fs gs h k e

abbrev pub HasNoBar : {F : Type 0} → Rule F → Type 0
HasNoBar r = All NoBar r.group_by

module _ {F : Type 0} ⦃fl : Floats F⦄ (window : Duration) where
  group_func_for-meant :
      (fields : List Str) (ev : Event F)
      → group_func_for fields ev ≡ group_func_for (meant fields) ev
  unfolding group_func_for group_key
  group_func_for-meant [] ev = refl
  group_func_for-meant (f ∷ fs) ev = refl

  -- The first rule of a stream has the stream's text.
  first_fields_text :
      (rs : List (Rule F)) (k : StreamKey) (fields : List Str)
      → All HasNoBar rs
      → first_fields window k rs ≡ some fields
      → All NoBar fields × (normalize_group_by fields ≡ k.group_by)
  unfolding first_fields
  first_fields_text [] k fields h e = cc
  first_fields_text (r ∷ rs) k fields h e = elim (Bool-cases (in_stream window k r)) [
    | inr other ↦ first_fields_text rs k fields h.1 (ground (arith, other, e))
    | inl own ↦
        let same : fields ≡ r.group_by = ground (arith, own, e) in
        let key : stream_key window r ≡ k = (stream_key_beq_iff (stream_key window r) k).0 own in
        (
          subst (All NoBar) (sym same) h.0,
          ap normalize_group_by same ∙ (unfold stream_key in ap (λ j. j.group_by) key),
        )
  ]

  abbrev HasFields : List (Rule F) → Rule F → Type 0
  HasFields rs r =
      (fields : List Str) × (first_fields window (stream_key window r) rs ≡ some fields)

  have_fields : (rs : List (Rule F)) → All (HasFields rs) rs
  unfolding first_fields
  have_fields [] = tt
  have_fields (r ∷ rs) = (
    (r.group_by, ground (arith, beq_refl (stream_key window r))),
    All-map
        (λ q has. elim (Bool-cases (in_stream window (stream_key window q) r)) [
          | inl own ↦ (r.group_by, ground (arith, own))
          | inr other ↦ (has.0, ground (arith, other, has.1))
        ])
        rs (have_fields rs),
  )

  -- The grouping of the stream of a rule, for the rules of a configuration.
  abbrev pub stream_group : List (Rule F) → Rule F → Event F → Str
  stream_group rs r = group_func_for (fields_of (group_fields window rs []) (stream_key window r))

  abbrev pub GroupsAsAsked : List (Rule F) → Rule F → Type 0
  GroupsAsAsked rs r = (ev : Event F) → stream_group rs r ev ≡ group_func_for r.group_by ev

  zip_bars :
      (rs qs : List (Rule F))
      → All HasNoBar rs
      → All HasNoBar qs
      → All (HasFields rs) qs
      → All (GroupsAsAsked rs) qs
  unfolding fields_of
  zip_bars rs [] h g has = tt
  zip_bars rs (q ∷ qs) h g has =
      let (fields, first) = has.0 in
      let (bars, text) = first_fields_text rs (stream_key window q) fields h first in
      let own : fields_of (group_fields window rs []) (stream_key window q) ≡ fields =
        rw (fields_of, lookup-group_fields_lem window rs (stream_key window q), first) refl in
      let same : meant fields ≡ meant q.group_by =
        normalize_group_by_same fields q.group_by bars g.0 (unfold stream_key in text) in
      (
        (λ ev.
            ap (λ fs. group_func_for fs ev) own
            ∙ group_func_for-meant fields ev
            ∙ ap (λ fs. group_func_for fs ev) same
            ∙ sym (group_func_for-meant q.group_by ev)),
        zip_bars rs qs h g.1 has.1,
      )

  -- If no field that a rule groups by has a bar in its name, then for each rule, its stream groups
  -- each event as the fields of that rule say, whichever rule of the stream came first.
  pub grouped_as_asked : (rs : List (Rule F)) → All HasNoBar rs → All (GroupsAsAsked rs) rs
  grouped_as_asked rs h = zip_bars rs rs h h (have_fields rs)
