-- ===== src/Engine/System/Counts.antt =====
-- Numbers of the acknowledgements over the streams.
use stream_rail.Common.{
  ℕ, zero, suc, ◌+◌, ◌<◌, ◌≤◌, ◌≡◌, ◌≢◌, refl, List, [], ◌∷◌, ◌++◌, ◌==◌, nat_eq, arith, ap, inl,
  inr, ◌⊎◌, Bool-cases, if◌then◌else◌,
}

unfoldable pub occurrences : ℕ → List ℕ → ℕ
occurrences k [] = 0
occurrences k (x ∷ xs) = (if x == k then 1 else 0) + occurrences k xs

pub occurrences-append :
    (k : ℕ) (xs ys : List ℕ) → occurrences k (xs ++ ys) ≡ occurrences k xs + occurrences k ys
unfolding occurrences
occurrences-append k [] ys = omega arith
occurrences-append k (x ∷ xs) ys = omega (arith, occurrences-append k xs ys)

nat_compare : (a b : ℕ) → (a ≡ b) ⊎ (a ≢ b)
nat_compare a b = elim (Bool-cases (a == b)) [
  | inl same ↦ inl (ground (arith, same))
  | inr other ↦ inr (ground (arith, other))
]

-- h 0 + … + h (n - 1)
unfoldable pub sum : ℕ → (ℕ → ℕ) → ℕ
sum zero h = 0
sum (suc n) h = sum n h + h n

pub sum_same : (n : ℕ) (h g : ℕ → ℕ) → ((j : ℕ) → j < n → h j ≡ g j) → sum n h ≡ sum n g
unfolding sum
sum_same zero h g e = refl
sum_same (suc n) h g e =
    omega (arith, sum_same n h g (λ j lt. e j (omega arith)), e n (omega arith))

-- One summand changes.
pub sum_changed :
    (n i : ℕ) (h g : ℕ → ℕ) → i < n → ((j : ℕ) → j ≢ i → g j ≡ h j) → sum n g + h i ≡ sum n h + g i
unfolding sum
sum_changed zero i h g lt e = absurd (omega arith)
sum_changed (suc n) i h g lt e = elim (nat_compare n i) [
  | inl same ↦ omega (
    arith,
    same,
    sum_same n g h (λ j before. e j (λ is. omega (arith, is, same))),
    ap h same,
    ap g same,
  )
  | inr other ↦ omega (arith, sum_changed n i h g (omega (arith, other)) e, e n other)
]

pub sum-le : (n : ℕ) (h : ℕ → ℕ) → ((j : ℕ) → j < n → h j ≤ 1) → sum n h ≤ n
unfolding sum
sum-le zero h b = omega arith
sum-le (suc n) h b = omega (arith, sum-le n h (λ j lt. b j (omega arith)), b n (omega arith))

pub sum_full :
    (n : ℕ) (h : ℕ → ℕ) → ((j : ℕ) → j < n → h j ≤ 1) → sum n h ≡ n → (j : ℕ) → j < n → h j ≡ 1
unfolding sum
sum_full zero h b e j lt = absurd (omega arith)
sum_full (suc n) h b e j lt =
    let below = sum-le n h (λ i before. b i (omega arith)) in
    elim (nat_compare n j) [
      | inl same ↦ omega (arith, below, b n (omega arith), ap h same)
      | inr other ↦
          sum_full n h (λ i before. b i (omega arith)) (omega (arith, below, b n (omega arith))) j
            (omega (arith, other))
    ]

pub sum_ones : (n : ℕ) (h : ℕ → ℕ) → ((j : ℕ) → j < n → h j ≡ 1) → sum n h ≡ n
unfolding sum
sum_ones zero h b = refl
sum_ones (suc n) h b = omega (arith, sum_ones n h (λ j lt. b j (omega arith)), b n (omega arith))

pub sum_zero : (n : ℕ) (h : ℕ → ℕ) → ((j : ℕ) → j < n → h j ≡ 0) → sum n h ≡ 0
unfolding sum
sum_zero zero h b = refl
sum_zero (suc n) h b = omega (arith, sum_zero n h (λ j lt. b j (omega arith)), b n (omega arith))
