-- ===== src/Common/Assoc.antt =====
-- Go's maps as association lists with the key test of an `Eq` instance. Entries keep the order of
-- their first insertion; code that ranges over a map is given the order of the visit instead.
use Prim.Native.Nat.{ℕ, ◌+◌}
use mathlib.Core.Path.{◌≡◌, refl}
use mathlib.Core.Option.{Option, none, some}
use mathlib.Core.List.{List, [], ◌∷◌}
use native.Mathlib.Omega.{arith}
use stream_rail.Common.Tests.{if◌then◌else◌}
use stream_rail.Common.Equality.{Eq, ◌==◌, beq_refl}

module _ {ℓ κ} {K : Type ℓ} {V : Type κ} ⦃e : Eq K⦄ where
  unfoldable pub lookup : K → List (K × V) → Option V
  lookup k [] = none
  lookup k ((j, found) ∷ rest) = if j == k then some found else lookup k rest

  -- Drops the entry of the key.
  unfoldable pub delete : K → List (K × V) → List (K × V)
  delete k [] = []
  delete k ((j, w) ∷ m) = if j == k then delete k m else (j, w) ∷ delete k m

  unfoldable pub insert : K → V → List (K × V) → List (K × V)
  insert k new [] = (k, new) ∷ []
  insert k new ((j, old) ∷ rest) = if j == k then (k, new) ∷ rest else (j, old) ∷ insert k new rest

  pub lookup-delete :
      (k j : K) (m : List (K × V)) → lookup j (delete k m) ≡ (if k == j then none else lookup j m)
  unfolding lookup delete
  lookup-delete k j [] = ground arith
  lookup-delete k j ((i, w) ∷ m) =
      ground (arith, e.beq_iff k j, e.beq_iff i k, e.beq_iff i j, lookup-delete k j m)

  pub lookup-insert :
      (at k : K) (new : V) (entries : List (K × V))
      → lookup k (insert at new entries) ≡ (if at == k then some new else lookup k entries)
  unfolding insert lookup
  lookup-insert at k new [] = refl
  lookup-insert at k new ((j, old) ∷ rest) =
      ground (arith, e.beq_iff j at, e.beq_iff j k, e.beq_iff at k, lookup-insert at k new rest)

  pub lookup-insert_self : (k : K) (v : V) (m : List (K × V)) → lookup k (insert k v m) ≡ some v
  lookup-insert_self k v m = rw (lookup-insert k k v m, beq_refl k)

  pub lookup-delete_self : (k : K) (m : List (K × V)) → lookup k (delete k m) ≡ none
  lookup-delete_self k m = rw (lookup-delete k k m, beq_refl k)

  -- No key has two entries.
  abbrev pub Distinct : List (K × V) → Type κ
  Distinct [] = Unit
  Distinct ((k, v) ∷ m) = (lookup k m ≡ none) × Distinct m

  pub insert-Distinct : (k : K) (v : V) (m : List (K × V)) → Distinct m → Distinct (insert k v m)
  unfolding lookup insert
  insert-Distinct k v [] d = (refl, tt)
  insert-Distinct k v ((i, w) ∷ m) d =
      ground (arith, e.beq_iff i k, e.beq_iff k i, insert-Distinct k v m d.1, lookup-insert k i v m)

  pub delete-Distinct : (k : K) (m : List (K × V)) → Distinct m → Distinct (delete k m)
  unfolding lookup delete
  delete-Distinct k [] d = tt
  delete-Distinct k ((i, w) ∷ m) d = ground (arith, delete-Distinct k m d.1, lookup-delete k i m)

  pub delete_absent : (k : K) (m : List (K × V)) → lookup k m ≡ none → delete k m ≡ m
  unfolding lookup delete
  delete_absent k [] h = refl
  delete_absent k ((i, w) ∷ m) h = ground (arith, delete_absent k m)

  -- The sum of a weight over the values.
  abbrev pub total_values : (V → ℕ) → List (K × V) → ℕ
  total_values f [] = 0
  total_values f ((k, v) ∷ m) = f v + total_values f m

  pub total_values-insert_new :
      (f : V → ℕ) (k : K) (v : V) (m : List (K × V))
      → lookup k m ≡ none
      → total_values f (insert k v m) ≡ f v + total_values f m
  unfolding lookup insert
  total_values-insert_new f k v [] h = omega arith
  total_values-insert_new f k v ((i, w) ∷ m) h = ground (arith, total_values-insert_new f k v m)

  pub total_values-insert_old :
      (f : V → ℕ) (k : K) (v w : V) (m : List (K × V))
      → lookup k m ≡ some w
      → total_values f (insert k v m) + f w ≡ f v + total_values f m
  unfolding lookup insert
  total_values-insert_old f k v w [] h = cc
  total_values-insert_old f k v w ((i, u) ∷ m) h = ground (arith, total_values-insert_old f k v w m)

  pub total_values-delete :
      (f : V → ℕ) (k : K) (w : V) (m : List (K × V))
      → Distinct m
      → lookup k m ≡ some w
      → f w + total_values f (delete k m) ≡ total_values f m
  unfolding lookup delete
  total_values-delete f k w [] d h = cc
  total_values-delete f k w ((i, u) ∷ m) d h =
      ground (arith, e.beq_iff i k, total_values-delete f k w m d.1, delete_absent k m)
