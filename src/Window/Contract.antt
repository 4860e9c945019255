-- ===== src/Window/Contract.antt =====
-- What the tumbling Manager relies on from a `Store`: it is a table of buckets by key, with one
-- checkpoint beside it.
use stream_rail.Common.{◌<◌, ◌^◌, ◌≡◌, Option, none, some, List, map, ◌==◌, All, if◌then◌else◌}
use stream_rail.Common.Int.{ℤ}
use stream_rail.Common.Assoc.{lookup, Distinct}
use stream_rail.Model.{Event}
use stream_rail.Window.{Key, key_eq, Bucket, ok, Store}

abbrev pub by_key : {F : Type 0} → List (Bucket F) → List (Key × Bucket F)
by_key = map (λ b. (b.key, b))

-- The keys and the events that the store can hold are named by the implementation, and so are the
-- states in which it promises something.
pub record Table {F S : Type 0} (ops : Store F S) : Type 1 where
  pub KeyOk : Key → Type 0
  pub EventOk : Event F → Type 0
  pub Clean : S → Type 0
  pub bucket_at : S → Key → Option (Bucket F)
  pub checkpoint : S → Option ℤ
  pub all : S → List (Bucket F)
  -- An event that the store can hold has a timestamp that a checkpoint can hold.
  pub TimeOk : ℤ → Type 0
  pub EventOk-TimeOk : (ev : Event F) → EventOk ev → TimeOk ev.timestamp
  pub save-Clean :
      (b : Bucket F) (s : S)
      → KeyOk b.key
      → All EventOk b.events
      → b.count < 2 ^ 64
      → Clean s
      → Clean (ops.save b s)
  pub delete-Clean : (k : Key) (s : S) → KeyOk k → Clean s → Clean (ops.delete k s)
  pub save_checkpoint-Clean : (t : ℤ) (s : S) → Clean s → Clean (ops.save_checkpoint t s)
  pub bucket_at-save :
      (b : Bucket F) (s : S) (k : Key)
      → KeyOk b.key
      → All EventOk b.events
      → b.count < 2 ^ 64
      → KeyOk k
      → Clean s
      → bucket_at (ops.save b s) k ≡ (if b.key == k then some b else bucket_at s k)
  pub bucket_at-delete :
      (j : Key) (s : S) (k : Key)
      → KeyOk j
      → KeyOk k
      → Clean s
      → bucket_at (ops.delete j s) k ≡ (if j == k then none else bucket_at s k)
  pub bucket_at-save_checkpoint :
      (t : ℤ) (s : S) (k : Key)
      → KeyOk k
      → Clean s
      → bucket_at (ops.save_checkpoint t s) k ≡ bucket_at s k
  pub checkpoint-save :
      (b : Bucket F) (s : S) → KeyOk b.key → Clean s → checkpoint (ops.save b s) ≡ checkpoint s
  pub checkpoint-delete :
      (k : Key) (s : S) → KeyOk k → Clean s → checkpoint (ops.delete k s) ≡ checkpoint s
  pub checkpoint-save_checkpoint :
      (t : ℤ) (s : S) → TimeOk t → Clean s → checkpoint (ops.save_checkpoint t s) ≡ some t
  pub load_checkpoint_lem : (s : S) → Clean s → ops.load_checkpoint s ≡ ok (checkpoint s)
  pub load_all_lem : (s : S) → Clean s → ops.load_all s ≡ ok (all s)
  pub all-Distinct : (s : S) → Clean s → Distinct (by_key (all s))
  pub lookup-all : (s : S) (k : Key) → KeyOk k → Clean s → lookup k (by_key (all s)) ≡ bucket_at s k
  pub all-KeyOk :
      (s : S) (k : Key) (b : Bucket F) → Clean s → lookup k (by_key (all s)) ≡ some b → KeyOk k
