-- ===== src/Badger/Laws.antt =====
-- What the stores rely on from BadgerDB and from encoding/json.
use stream_rail.Common.{
  ◌<◌, ◌^◌, ◌≡◌, ◌≢◌, Option, none, some, List, [], ◌∷◌, Str, ◌==◌, list_eq, nat_eq, All,
  if◌then◌else◌,
}
use stream_rail.Common.Assoc.{lookup, Distinct}
use stream_rail.Clock.{Duration}
use stream_rail.Model.{Event}
use stream_rail.Window.{Key, Bucket, Result, ok}
use stream_rail.Badger.{Database, Json, after}
use stream_rail.Badger.Keys.{has_prefix}

-- The items of an iterator that reads all values.
abbrev pub readable : List (Str × Str) → List (Str × Result Str Str)
readable [] = []
readable ((key, text) ∷ items) = (key, ok text) ∷ readable items

-- What Get gives for a stored value.
abbrev pub read_item : Option Str → Option (Result Str Str)
read_item none = none
read_item (some text) = some (ok text)

-- In a healthy state of the database no call fails, now or later: a read gives what was last
-- written, and the iterator has each key with the prefix once. An entry with a time to live is no
-- other key's.
pub record Reliable {D : Type 0} (db : Database D) : Type 1 where
  pub Healthy : D → Type 0
  pub value_at : D → Str → Option Str
  pub items : D → Str → List (Str × Str)
  pub set-Healthy : (k v : Str) (d : D) → Healthy d → Healthy (after (db.set k v d) d)
  pub delete-Healthy : (k : Str) (d : D) → Healthy d → Healthy (after (db.delete k d) d)
  pub value_at-set :
      (k v : Str) (d : D) (j : Str)
      → Healthy d
      → value_at (after (db.set k v d) d) j ≡ (if k == j then some v else value_at d j)
  pub value_at-delete :
      (k : Str) (d : D) (j : Str)
      → Healthy d
      → value_at (after (db.delete k d) d) j ≡ (if k == j then none else value_at d j)
  pub ttl-Healthy :
      (k v : Str) (ttl : Duration) (d : D)
      → Healthy d
      → Healthy (after (db.set_with_ttl k v ttl d) d)
  pub value_at-set_with_ttl :
      (k v : Str) (ttl : Duration) (d : D) (j : Str)
      → Healthy d
      → k ≢ j
      → value_at (after (db.set_with_ttl k v ttl d) d) j ≡ value_at d j
  pub get_lem : (k : Str) (d : D) → Healthy d → db.get k d ≡ ok (read_item (value_at d k))
  pub scan_lem : (p : Str) (d : D) → Healthy d → db.scan p d ≡ readable (items d p)
  pub items-Distinct : (p : Str) (d : D) → Healthy d → Distinct (items d p)
  pub lookup-items :
      (p : Str) (d : D) (k : Str)
      → Healthy d
      → lookup k (items d p) ≡ (if has_prefix p k then value_at d k else none)

-- The keys and the events that JSON keeps, such as instants of years with four digits and texts in
-- UTF-8, and that a bucket of them comes back from its text.
pub record RoundTrips {F : Type 0} (json : Json F) : Type 1 where
  pub KeyKept : Key → Type 0
  pub EventKept : Event F → Type 0
  pub text_of : Bucket F → Str
  pub marshal_lem :
      (b : Bucket F)
      → KeyKept b.key
      → All EventKept b.events
      → b.count < 2 ^ 64
      → json.marshal b ≡ ok (text_of b)
  pub unmarshal-text_of :
      (b : Bucket F)
      → KeyKept b.key
      → All EventKept b.events
      → b.count < 2 ^ 64
      → json.unmarshal (text_of b) ≡ ok b
