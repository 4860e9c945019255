-- ===== src/Engine/Streams.antt =====
-- Which rules a stream serves, and by which fields it groups.
pub mod Grouping
use stream_rail.Common.{
  ◌≡◌, refl, sym, ◌∙◌, Bool, true, Option, none, some, List, [], ◌∷◌, ◌++◌, Str, codes, ◌==◌, arith,
  keep, if◌then◌else◌, beq_refl,
}
use mathlib.Core.List.{append_assoc, append-nil}
use stream_rail.Common.Int.{pos, ◌<ℤ◌}
use stream_rail.Common.Assoc.{lookup, insert, lookup-insert}
use stream_rail.Clock.{Duration}
use stream_rail.Rule.{Rule, join}
use stream_rail.Engine.{
  StreamKey, stream_key_eq, stream_key_beq_iff, stream_key, by_group, group_fields, engine_window,
  normalize_group_by, rules_at,
}

abbrev or_else : Option (List Str) → Option (List Str) → Option (List Str)
or_else none later = later
or_else (some fields) later = some fields

-- The size of a stream's windows is positive, whatever the flag and the rule say.
stream_key-positive :
    {F : Type 0} (d : Duration) (r : Rule F) → pos 0 <ℤ (stream_key (engine_window d) r).size
unfolding stream_key engine_window
stream_key-positive d r = ground arith

module _ {F : Type 0} (window : Duration) where
  abbrev pub in_stream : StreamKey → Rule F → Bool
  in_stream k r = stream_key window r == k

  stored :
      (r : Rule F) (m : List (StreamKey × List (Rule F))) (k : StreamKey)
      → rules_at window (
          lookup k (
            insert
              (stream_key window r)
              (rules_at window (lookup (stream_key window r) m) ++ r ∷ [])
              m))
        ≡ (if in_stream k r
            then rules_at window (lookup k m) ++ r ∷ []
            else rules_at window (lookup k m))
  stored r m k =
      rw
        (lookup-insert (stream_key window r) k
          (rules_at window (lookup (stream_key window r) m) ++ r ∷ []) m)
        (ground (arith, stream_key_beq_iff (stream_key window r) k))

  rules-by_group :
      (rs : List (Rule F)) (m : List (StreamKey × List (Rule F))) (k : StreamKey)
      → rules_at window (lookup k (by_group window rs m))
        ≡ rules_at window (lookup k m) ++ keep (in_stream k) rs
  unfolding by_group
  rules-by_group [] m k = sym (append-nil _)
  rules-by_group (r ∷ rs) m k =
      rules-by_group rs _ k
      ∙ ground (
        arith,
        stored r m k,
        append_assoc (rules_at window (lookup k m)) (r ∷ []) (keep (in_stream k) rs),
      )

  -- Every stream serves the rules that have its key, each once and in the order of the
  -- configuration, and no others.
  pub rules-by_group_lem :
      (rs : List (Rule F)) (k : StreamKey)
      → rules_at window (lookup k (by_group window rs [])) ≡ keep (in_stream k) rs
  unfolding lookup
  rules-by_group_lem rs k = rules-by_group rs [] k

  -- The fields of the first rule of a stream.
  unfoldable pub first_fields : StreamKey → List (Rule F) → Option (List Str)
  first_fields k [] = none
  first_fields k (r ∷ rs) = if in_stream k r then some r.group_by else first_fields k rs

  noted :
      (r : Rule F) (m : List (StreamKey × List Str)) (k : StreamKey)
      → lookup k (elim (lookup (stream_key window r) m) as (λ _. List (StreamKey × List Str)) [
        | none ↦ insert (stream_key window r) r.group_by m
        | some fields ↦ m
      ])
        ≡ or_else (lookup k m) (if in_stream k r then some r.group_by else none)
  noted r m k = ground (
    arith,
    stream_key_beq_iff (stream_key window r) k,
    lookup-insert (stream_key window r) k r.group_by m,
  )

  lookup-group_fields :
      (rs : List (Rule F)) (m : List (StreamKey × List Str)) (k : StreamKey)
      → lookup k (group_fields window rs m) ≡ or_else (lookup k m) (first_fields k rs)
  unfolding group_fields first_fields
  lookup-group_fields [] m k = ground arith
  lookup-group_fields (r ∷ rs) m k = lookup-group_fields rs _ k ∙ ground (arith, noted r m k)

  -- A stream groups by the fields of its first rule.
  pub lookup-group_fields_lem :
      (rs : List (Rule F)) (k : StreamKey)
      → lookup k (group_fields window rs []) ≡ first_fields k rs
  unfolding lookup
  lookup-group_fields_lem rs k = lookup-group_fields rs [] k

  -- Two rules with windows alike, one of which groups by a single field with a bar in its name and
  -- the other by the two fields on the sides of that bar, share a stream; it serves both, and
  -- groups by the field of the first rule.
  pub shared_stream :
      (r s : Rule F) (a b : Str)
      → r.window_size ≡ s.window_size
      → r.window_slide ≡ s.window_slide
      → r.group_by ≡ (a ++ (codes "|" ++ b)) ∷ []
      → s.group_by ≡ a ∷ b ∷ []
      → (rules_at window (lookup (stream_key window s) (by_group window (r ∷ s ∷ []) []))
          ≡ r ∷ s ∷ [])
        × (lookup (stream_key window s) (group_fields window (r ∷ s ∷ []) [])
            ≡ some ((a ++ (codes "|" ++ b)) ∷ []))
  shared_stream r s a b sizes slides fr fs = (
    rules-by_group_lem (r ∷ s ∷ []) (stream_key window s)
        ∙ ground (arith, same, beq_refl (stream_key window s)),
    lookup-group_fields_lem (r ∷ s ∷ []) (stream_key window s)
        ∙ (unfold first_fields in ground (arith, same, fr)),
  )
    where
      keys : stream_key window r ≡ stream_key window s
      keys = unfold stream_key normalize_group_by join in rw (fr, fs, sizes, slides) refl

      same : in_stream (stream_key window s) r ≡ true
      same = (stream_key_beq_iff _ _).1 keys
