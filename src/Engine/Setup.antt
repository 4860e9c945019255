-- ===== src/Engine/Setup.antt =====
-- internal/engine/engine.go: the Engine, its options, and the managers that Run starts. The state of
-- the store is one for all streams. `show` is Duration.String, and the groups are byGroup in the
-- order of the visit.
pub mod Restart
pub mod Fresh
use stream_rail.Common.{
  ℕ, Bool, true, false, Option, none, some, List, [], ◌∷◌, ◌++◌, Str, codes, if◌then◌else◌,
}
use stream_rail.Common.Int.{pos, ltb_ℤ}
use stream_rail.Common.Assoc.{lookup}
use stream_rail.Clock.{Duration}
use stream_rail.Model.{Event}
use stream_rail.Rule.{Floats, Rule}
use stream_rail.Window.{Store, Result, ok, err}
use stream_rail.Window.Tumbling.{Manager, new_manager, set_lateness, set_store, restore}
use stream_rail.Window.Sliding.{SlidingManager, new_sliding}
use stream_rail.Notifier.{Notifier, console}
use stream_rail.Engine.{StreamKey, stream_key_eq, engine_window, group_fields, group_func_for}

-- `store` is Buckets of the StoreFactory.
pub record Engine (F S : Type 0) : Type 0 where
  pub default_window : Duration
  pub lateness : Duration
  pub rules : List (Rule F)
  pub notifiers : List (Notifier F)
  pub store : Option (Str → Store F S)
  pub has_metrics : Bool

module _ {F S : Type 0} where
  -- New
  unfoldable pub new_engine : Duration → List (Rule F) → Option (Str → Store F S) → Engine F S
  new_engine window rules store = record {
    default_window = engine_window window;
    lateness = pos 0;
    rules = rules;
    notifiers = console ∷ [];
    store = store;
    has_metrics = false;
  }

  unfoldable pub with_notifiers : List (Notifier F) → Engine F S → Engine F S
  with_notifiers ns e = record e { notifiers = ns }

  unfoldable pub with_lateness : Duration → Engine F S → Engine F S
  with_lateness d e = record e { lateness = d }

  unfoldable pub with_metrics : Engine F S → Engine F S
  with_metrics e = record e { has_metrics = true }

unfoldable pub namespace : (Duration → Str) → StreamKey → Str
namespace show k = show k.size ++ (codes "/" ++ k.group_by)

pub data Stage (F S : Type 0) : Type 0 where
  tumbling : Manager F S → Stage F S
  sliding : SlidingManager F → Stage F S

pub record Stream (F S : Type 0) : Type 0 where
  pub key : StreamKey
  pub rules : List (Rule F)
  pub stage : Stage F S

-- groupFields[gk]
unfoldable pub fields_of : List (StreamKey × List Str) → StreamKey → List Str
fields_of m k = elim (lookup k m) [ none ↦ [] | some fields ↦ fields ]

abbrev pub grouping : {F S : Type 0} ⦃fl : Floats F⦄ → Engine F S → StreamKey → Event F → Str
grouping e k = group_func_for (fields_of (group_fields e.default_window e.rules []) k)

module _ {F S : Type 0} ⦃fl : Floats F⦄ (show : Duration → Str) (e : Engine F S) (s : S) where
  restored : StreamKey → Manager F S × Result Str ℕ → Result Str (Stage F S)
  restored k (m, ok n) = ok (tumbling m)
  restored k (m, err f) =
      err (codes "restore windows (" ++ (namespace show k ++ (codes "): " ++ f)))

  -- The manager of a stream, as Run sets it up.
  unfoldable pub start_stage : StreamKey → Result Str (Stage F S)
  unfolding restored
  start_stage k =
      if ltb_ℤ (pos 0) k.slide
      then ok (sliding (new_sliding k.size k.slide true (some (grouping e k))))
      else let m = set_lateness e.lateness (new_manager S k.size true (some (grouping e k))) in
        elim e.store [
          | none ↦ ok (tumbling m)
          | some buckets ↦ restored k (restore ⦃ops = buckets (namespace show k)⦄ (set_store s m))
        ]

  -- The loop over byGroup; an error ends it.
  unfoldable pub start_streams : List (StreamKey × List (Rule F)) → Result Str (List (Stream F S))
  start_streams [] = ok []
  start_streams ((k, rs) ∷ groups) = elim (start_stage k) [
    | err f ↦ err f
    | ok stage ↦ elim (start_streams groups) [
      | err f ↦ err f
      | ok streams ↦ ok (record { key = k; rules = rs; stage = stage } ∷ streams)
    ]
  ]
