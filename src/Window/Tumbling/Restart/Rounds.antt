-- ===== src/Window/Tumbling/Restart/Rounds.antt =====
-- The loop of Restore, on the maps that it fills.
use mathlib.Core.Path.{subst}
use stream_rail.Common.{
  true, false, ℕ, ◌+◌, ◌≡◌, refl, sym, Option, none, some, List, [], ◌∷◌, arith, if◌then◌else◌,
  Bool-cases, inl, inr,
}
use stream_rail.Common.Assoc.{lookup, insert, Distinct, lookup-insert}
use stream_rail.Window.{Key, key_eq, key_beq_iff, Bucket}
use stream_rail.Window.Contract.{by_key}
use stream_rail.Window.Tumbling.{Manager, restore_bucket, restore_buckets}

abbrev pub open_part : {F : Type 0} → Option (Bucket F) → Option (Bucket F) → Option (Bucket F)
open_part none old = old
open_part (some b) old = if b.closed then old else some b

abbrev pub closed_part : {F : Type 0} → Option (Bucket F) → Option (Bucket F) → Option (Bucket F)
closed_part none old = old
closed_part (some b) old = if b.closed then some b else old

module _ {F S : Type 0} where
  pub lookup-restore_buckets :
      (bs : List (Bucket F)) (m : Manager F S) (n : ℕ) (k : Key)
      → Distinct (by_key bs)
      → (lookup k (restore_buckets bs (m, n)).0.windows
          ≡ open_part (lookup k (by_key bs)) (lookup k m.windows))
        × (lookup k (restore_buckets bs (m, n)).0.closed
            ≡ closed_part (lookup k (by_key bs)) (lookup k m.closed))
  unfolding restore_buckets lookup
  lookup-restore_buckets [] m n k d = (refl, refl)
  lookup-restore_buckets (b ∷ bs) m n k d = elim (Bool-cases b.closed) [
    | inl c ↦
        let ih =
          lookup-restore_buckets bs (record m { closed = insert b.key b m.closed }) n k d.1 in
        rw (c, restore_bucket)
          (ground (arith, c, ih, d.0, lookup-insert b.key k b m.closed, key_beq_iff b.key k))
    | inr c ↦
        let ih =
          lookup-restore_buckets bs (record m { windows = insert b.key b m.windows }) (n + 1) k
            d.1 in
        rw (c, restore_bucket)
          (ground (arith, c, ih, d.0, lookup-insert b.key k b m.windows, key_beq_iff b.key k))
  ]

  restore_bucket_closed :
      (b : Bucket F) (m : Manager F S) (n : ℕ)
      → b.closed ≡ true
      → restore_bucket b (m, n) ≡ (record m { closed = insert b.key b m.closed }, n)
  unfolding restore_bucket
  restore_bucket_closed b m n c = ground (arith, c)

  restore_bucket_open :
      (b : Bucket F) (m : Manager F S) (n : ℕ)
      → b.closed ≡ false
      → restore_bucket b (m, n) ≡ (record m { windows = insert b.key b m.windows }, n + 1)
  unfolding restore_bucket
  restore_bucket_open b m n c = ground (arith, c)

  -- What each round of the loop keeps, the loop keeps.
  pub restore_buckets_keeps :
      (P : Manager F S → Type 0)
      → ((b : Bucket F) (m : Manager F S) → P m → P (record m { closed = insert b.key b m.closed }))
      → ((b : Bucket F) (m : Manager F S)
          → P m
          → P (record m { windows = insert b.key b m.windows }))
      → (bs : List (Bucket F)) (m : Manager F S) (n : ℕ) → P m
      → P (restore_buckets bs (m, n)).0
  unfolding restore_buckets
  restore_buckets_keeps P closes opens [] m n h = h
  restore_buckets_keeps P closes opens (b ∷ bs) m n h = elim (Bool-cases b.closed) [
    | inl c ↦
        subst (λ r. P (restore_buckets bs r).0) (sym (restore_bucket_closed b m n c))
          (restore_buckets_keeps P closes opens bs _ n (closes b m h))
    | inr c ↦
        subst (λ r. P (restore_buckets bs r).0) (sym (restore_bucket_open b m n c))
          (restore_buckets_keeps P closes opens bs _ (n + 1) (opens b m h))
  ]
