-- ===== src/Tests/Disk.antt =====
-- A database in memory, and an encoding of the buckets of one group whose events have only a time.
use stream_rail.Common.{
  ℕ, ◌*◌, ◌≡◌, refl, sym, ap, none, List, [], ◌∷◌, Str, codes, ◌==◌, list_eq, nat_eq, list_beq_iff,
  arith, All, if◌then◌else◌,
}
use stream_rail.Common.Int.{pos, pos_part}
use stream_rail.Common.Assoc.{
  lookup, insert, delete, Distinct, lookup-insert, lookup-delete, insert-Distinct, delete-Distinct,
}
use stream_rail.Clock.{nanos}
use stream_rail.Model.{Event}
use stream_rail.Window.{Key, Bucket, Result, ok, err}
use stream_rail.Badger.{Database, Json}
use stream_rail.Badger.Keys.{has_prefix}
use stream_rail.Badger.Laws.{readable, read_item, Reliable, RoundTrips}
use stream_rail.Badger.Buckets.{Namespace}

abbrev pub Disk : Type 0
Disk = List (Str × Str)

abbrev pub under : Str → Disk → Disk
under p [] = []
under p ((key, text) ∷ d) = if has_prefix p key then (key, text) ∷ under p d else under p d

instance abbrev pub disk : Database Disk
disk = record {
  get = λ k d. ok (read_item (lookup k d));
  set = λ k v d. ok (insert k v d);
  set_with_ttl = λ k v ttl d. ok (insert k v d);
  delete = λ k d. ok (delete k d);
  scan = λ p d. readable (under p d);
}

pub lookup-under :
    (p : Str) (d : Disk) (k : Str)
    → lookup k (under p d) ≡ (if has_prefix p k then lookup k d else none)
unfolding lookup
lookup-under p [] k = ground arith
lookup-under p ((j, text) ∷ d) k = ground (arith, lookup-under p d k, list_beq_iff j k)

pub under-Distinct : (p : Str) (d : Disk) → Distinct d → Distinct (under p d)
under-Distinct p [] h = tt
under-Distinct p ((j, text) ∷ d) h = ground (arith, h, lookup-under p d j, under-Distinct p d h.1)

abbrev pub disk_laws : Reliable disk
disk_laws = record {
  Healthy = λ d. Distinct d;
  value_at = λ d k. lookup k d;
  items = λ d p. under p d;
  set-Healthy = λ k v d h. insert-Distinct k v d h;
  delete-Healthy = λ k d h. delete-Distinct k d h;
  value_at-set = λ k v d j h. lookup-insert k j v d;
  value_at-delete = λ k d j h. lookup-delete k j d;
  ttl-Healthy = λ k v ttl d h. insert-Distinct k v d h;
  value_at-set_with_ttl =
      λ k v ttl d j h e. ground (arith, lookup-insert k j v d, list_beq_iff k j, e);
  get_lem = λ k d h. refl;
  scan_lem = λ p d h. refl;
  items-Distinct = λ p d h. under-Distinct p d h;
  lookup-items = λ p d k h. lookup-under p d k;
}

abbrev pub event_at : ℕ → Event ℕ
event_at t = record { service = codes "api"; level = codes "info"; timestamp = pos t; fields = [] }

abbrev pub key_at : ℕ → Key
key_at t = record { rule_name = []; group_key = codes "api"; window_start = pos t }

abbrev pub times : List (Event ℕ) → List ℕ
times [] = []
times (ev ∷ evs) = pos_part ev.timestamp ∷ times evs

abbrev pub events_at : List ℕ → List (Event ℕ)
events_at [] = []
events_at (t ∷ ts) = event_at t ∷ events_at ts

abbrev pub encoded : Bucket ℕ → Str
encoded b = pos_part b.key.window_start ∷ b.count ∷ (if b.closed then 1 else 0) ∷ times b.events

abbrev pub decoded : Str → Result Str (Bucket ℕ)
decoded (start ∷ count ∷ flag ∷ ts) =
    ok (record { key = key_at start; events = events_at ts; count = count; closed = flag == 1 })
decoded _ = err (codes "short text")

instance abbrev pub words : Json ℕ
words = record { marshal = λ b. ok (encoded b); unmarshal = decoded }

abbrev pub IsPlain : Event ℕ → Type 0
IsPlain ev = ev ≡ event_at (pos_part ev.timestamp)

events_at-times : (evs : List (Event ℕ)) → All IsPlain evs → events_at (times evs) ≡ evs
events_at-times [] h = refl
events_at-times (ev ∷ evs) h = rw (events_at-times evs h.1) (ap (λ e. e ∷ evs) (sym h.0))

pub decoded-encoded :
    (b : Bucket ℕ)
    → b.key ≡ key_at (pos_part b.key.window_start)
    → All IsPlain b.events
    → decoded (encoded b) ≡ ok b
decoded-encoded b own plain = ground (arith, own, events_at-times b.events plain)

abbrev pub word_laws : RoundTrips words
word_laws = record {
  KeyKept = λ k. k ≡ key_at (pos_part k.window_start);
  EventKept = IsPlain;
  text_of = encoded;
  marshal_lem = λ b own plain small. refl;
  unmarshal-text_of = λ b own plain small. decoded-encoded b own plain;
}

abbrev pub api : Namespace disk words
api = record {
  laws = disk_laws;
  texts = word_laws;
  prefix = codes "1m0s/service";
  size = 60 * nanos;
  wide = omega arith;
}
