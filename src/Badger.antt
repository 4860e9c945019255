-- ===== src/Badger.antt =====
-- internal/store/badger.go: window buckets, the checkpoint and the seen identifiers in BadgerDB.
-- The database and encoding/json are parameters. The managers drop the errors of a write, and its
-- state is then the one before it.
pub mod Keys
pub mod Checkpoint
pub mod Laws
pub mod Buckets
pub mod Refines
pub mod Recovery
pub mod Crashes
pub mod Namespaces
pub mod Collisions
use mathlib.Core.List.{reverse}
use stream_rail.Common.{
  ℕ, ◌+◌, ◌*◌, ◌/◌, ◌%◌, ◌^◌, Bool, true, false, ◌&&◌, ◌||◌, Option, none, some, List, [], ◌∷◌,
  ◌++◌, Str, codes, ◌==◌, nat_eq, length, leb, if◌then◌else◌,
}
use stream_rail.Common.Int.{ℤ, floor_mod, signed64}
use stream_rail.Common.Decimal.{format_nat, format_int}
use stream_rail.Clock.{Duration, unix}
use stream_rail.Window.{Key, Bucket, Result, ok, err, Store}
use stream_rail.Ingester.{Deduper}

-- package badger, on the state `D` of a database. `get` has `none` for ErrKeyNotFound. `scan` has
-- the items under a prefix in the iterator's order. An item comes with what reading its value gives.
pub record Database (D : Type 0) : Type 0 where
  pub get : Str → D → Result Str (Option (Result Str Str))
  pub set : Str → Str → D → Result Str D
  pub set_with_ttl : Str → Str → Duration → D → Result Str D
  pub delete : Str → D → Result Str D
  pub scan : Str → D → List (Str × Result Str Str)

-- json.Marshal and json.Unmarshal of a Bucket.
pub record Json (F : Type 0) : Type 0 where
  pub marshal : Bucket F → Result Str Str
  pub unmarshal : Str → Result Str (Bucket F)

-- The state after a call of Update, and the error that it returned.
abbrev pub after : {D : Type 0} → Result Str D → D → D
after (ok d') d = d'
after (err e) d = d

abbrev pub error_of : {D : Type 0} → Result Str D → Option Str
error_of (ok d) = none
error_of (err e) = some e

unfoldable pub key_prefix : Str → Str
key_prefix prefix = codes "window/" ++ (prefix ++ codes "/")

unfoldable pub bucket_key : Str → Key → Str
unfolding key_prefix
bucket_key prefix k =
    key_prefix prefix ++ (k.group_key ++ (codes "/" ++ format_int (unix k.window_start)))

unfoldable pub checkpoint_key : Str → Str
checkpoint_key prefix = codes "checkpoint/" ++ prefix

-- binary.BigEndian.PutUint64 and Uint64
unfoldable pub put_uint64 : ℕ → Str
put_uint64 v =
    (v / 2 ^ 56 % 256)
    ∷ (v / 2 ^ 48 % 256)
    ∷ (v / 2 ^ 40 % 256)
    ∷ (v / 2 ^ 32 % 256)
    ∷ (v / 2 ^ 24 % 256)
    ∷ (v / 2 ^ 16 % 256)
    ∷ (v / 2 ^ 8 % 256)
    ∷ (v % 256)
    ∷ []

uint64_from : ℕ → Str → ℕ
uint64_from n [] = n
uint64_from n (c ∷ s) = uint64_from (n * 256 + c) s

unfoldable pub uint64 : Str → ℕ
unfolding uint64_from
uint64 = uint64_from 0

-- strings.TrimSpace, for ASCII.
is_space : ℕ → Bool
is_space c = c == 32 || (leb 9 c && leb c 13)

trim_left : Str → Str
trim_left [] = []
trim_left (c ∷ s) = if is_space c then trim_left s else c ∷ s

unfoldable pub trim_space : Str → Str
unfolding trim_left is_space
trim_space s = reverse (trim_left (reverse (trim_left s)))

module _ {F : Type 0} ⦃json : Json F⦄ where
  decoded : Str → Result Str Str → Result Str (Bucket F)
  decoded key (err e) = err e
  decoded key (ok text) = json.unmarshal text

  -- The loop of LoadAll over the items of the iterator.
  unfoldable pub load_items : List (Str × Result Str Str) → Result Str (List (Bucket F))
  unfolding decoded
  load_items [] = ok []
  load_items ((key, value) ∷ items) = elim (decoded key value) [
    | err e ↦ err (codes "unmarshal " ++ (trim_space key ++ (codes ": " ++ e)))
    | ok b ↦ elim (load_items items) [ err e ↦ err e | ok bs ↦ ok (b ∷ bs) ]
  ]

checkpoint_of : Str → Str → Result Str (Option ℤ)
checkpoint_of prefix value =
    if length value == 8
    then ok (some (signed64 (uint64 value)))
    else err
        (codes "checkpoint " ++ (prefix ++ (codes ": bad length " ++ format_nat (length value))))

module _ {F D : Type 0} ⦃db : Database D⦄ ⦃json : Json F⦄ where
  -- Save: the new state, and the error that it returns.
  unfoldable pub save : Str → Bucket F → D → D × Option Str
  save prefix b d = elim (json.marshal b) [
    | err e ↦ (d, some (codes "marshal bucket: " ++ e))
    | ok text ↦ let r = db.set (bucket_key prefix b.key) text d in (after r d, error_of r)
  ]

  unfoldable pub load_all : Str → D → Result Str (List (Bucket F))
  load_all prefix d = load_items (db.scan (key_prefix prefix) d)

module _ {D : Type 0} ⦃db : Database D⦄ where
  unfoldable pub delete_bucket : Str → Key → D → D × Option Str
  delete_bucket prefix k d = let r = db.delete (bucket_key prefix k) d in (after r d, error_of r)

  unfoldable pub save_checkpoint : Str → ℤ → D → D × Option Str
  save_checkpoint prefix t d =
      let r = db.set (checkpoint_key prefix) (put_uint64 (floor_mod t (2 ^ 64))) d in
      (after r d, error_of r)

  unfoldable pub load_checkpoint : Str → D → Result Str (Option ℤ)
  unfolding checkpoint_of
  load_checkpoint prefix d = elim (db.get (checkpoint_key prefix) d) [
    | err e ↦ err e
    | ok none ↦ ok none
    | ok (some (err e)) ↦ err e
    | ok (some (ok value)) ↦ checkpoint_of prefix value
  ]

  -- DedupeStore: an error counts as not seen.
  unfoldable pub seen : Str → D → Bool
  seen id d = elim (db.get (codes "seen/" ++ id) d) [
    | err e ↦ false
    | ok none ↦ false
    | ok (some _) ↦ true
  ]

  unfoldable pub mark : Str → Duration → D → D × Option Str
  mark id ttl d =
      let r = db.set_with_ttl (codes "seen/" ++ id) (1 ∷ []) ttl d in (after r d, error_of r)

  -- The DedupeStore that `Seen` returns.
  abbrev pub dedupe_store : Deduper D
  dedupe_store = record { seen = seen; mark = λ id ttl d. (mark id ttl d).0 }

-- The window.Store that `Buckets` returns.
abbrev pub bucket_store : {F D : Type 0} ⦃db : Database D⦄ ⦃json : Json F⦄ → Str → Store F D
bucket_store prefix = record {
  save = λ b d. (save prefix b d).0;
  delete = λ k d. (delete_bucket prefix k d).0;
  load_all = load_all prefix;
  save_checkpoint = λ t d. (save_checkpoint prefix t d).0;
  load_checkpoint = load_checkpoint prefix;
}
