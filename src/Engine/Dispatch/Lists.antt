-- ===== src/Engine/Dispatch/Lists.antt =====
-- The batches of one stream among tagged ones, and what evaluating a list of batches gives.

use mathlib.Core.List.{append_assoc, append-nil}
use stream_rail.Common.{
  ℕ, ◌≡◌, ◌≢◌, refl, sym, ap, ◌∙◌, Bool, true, false, Option, none, some, List, [], ◌∷◌, ◌++◌, ◌==◌,
  nat_eq, arith, if◌then◌else◌, inl, inr,
}
use stream_rail.Rule.{Floats, Rule}
use stream_rail.Window.{Batch}
use stream_rail.Notifier.{Network, Notifier, Emission}
use stream_rail.Engine.{Counters, count_batch, evaluate}
use stream_rail.Engine.System.{update}
use stream_rail.Engine.System.Copies.{update_self, update_other, index_cases}
use stream_rail.Engine.Dispatch.{TaggedBatch, Lane, Dispatch}

module _ {F : Type 0} where
  -- The batches of one stream.
  unfoldable pub of_stream : ℕ → List (ℕ × Batch F) → List (Batch F)
  of_stream i [] = []
  of_stream i ((j, b) ∷ rest) = if j == i then b ∷ of_stream i rest else of_stream i rest

  pub of_stream-append :
      (i : ℕ) (xs ys : List (ℕ × Batch F))
      → of_stream i (xs ++ ys) ≡ of_stream i xs ++ of_stream i ys
  unfolding of_stream
  of_stream-append i [] ys = refl
  of_stream-append i ((j, b) ∷ xs) ys = ground (arith, of_stream-append i xs ys)

  abbrev pub untagged : List (ℕ × TaggedBatch F) → List (ℕ × Batch F)
  untagged [] = []
  untagged ((i, t) ∷ rest) = (i, t.batch) ∷ untagged rest

  untagged-append :
      (xs ys : List (ℕ × TaggedBatch F)) → untagged (xs ++ ys) ≡ untagged xs ++ untagged ys
  untagged-append [] ys = refl
  untagged-append ((i, t) ∷ xs) ys = ap (λ l. (i, t.batch) ∷ l) (untagged-append xs ys)

  pub of_stream-tagged :
      (j i : ℕ) (t : TaggedBatch F) (inbox : List (ℕ × TaggedBatch F))
      → of_stream j (untagged (inbox ++ (i, t) ∷ []))
        ≡ of_stream j (untagged inbox) ++ (if i == j then t.batch ∷ [] else [])
  unfolding of_stream
  of_stream-tagged j i t inbox =
      rw
        (
          untagged-append inbox ((i, t) ∷ []),
          of_stream-append j (untagged inbox) ((i, t.batch) ∷ []),
        )
        refl

  abbrev pub held_list : Option (Batch F) → List (Batch F)
  held_list none = []
  held_list (some b) = b ∷ []

  -- What a stream has sent and Run has not taken yet, in the order of its sending.
  abbrev pub under_way : Dispatch F → ℕ → List (Batch F)
  under_way d i =
      of_stream i (untagged d.inbox) ++ (held_list (d.lanes i).held ++ (d.lanes i).queue)

  unfoldable pub count_all : List (ℕ × Batch F) → Counters → Counters
  count_all [] c = c
  count_all ((i, b) ∷ rest) c = count_all rest (count_batch b c)

  pub count_all-append :
      (xs : List (ℕ × Batch F)) (i : ℕ) (b : Batch F) (c : Counters)
      → count_all (xs ++ (i, b) ∷ []) c ≡ count_batch b (count_all xs c)
  unfolding count_all
  count_all-append [] i b c = refl
  count_all-append ((j, e) ∷ xs) i b c = count_all-append xs i b (count_batch e c)

  pub regroup :
      (xs ys zs ws more : List (Batch F))
      → (xs ++ (ys ++ (zs ++ ws))) ++ more ≡ xs ++ (ys ++ (zs ++ (ws ++ more)))
  regroup xs ys zs ws more =
      rw
        (
          append_assoc xs (ys ++ (zs ++ ws)) more,
          append_assoc ys (zs ++ ws) more,
          append_assoc zs ws more,
        )
        refl

  pub shifted :
      (own : Bool) (b : Batch F) (xs ys zs : List (Batch F))
      → xs ++ ((if own then b ∷ ys else ys) ++ zs)
        ≡ (xs ++ (if own then b ∷ [] else [])) ++ (ys ++ zs)
  shifted true b xs ys zs = sym (append_assoc xs (b ∷ []) (ys ++ zs))
  shifted false b xs ys zs = rw (append-nil xs) refl

  -- What holds of a new lane of one stream and of the others' lanes.
  pub at_lane :
      (P : ℕ → Lane F → Type 0) (i : ℕ) (lane : Lane F) (lanes : ℕ → Lane F)
      → P i lane
      → ((j : ℕ) → j ≢ i → P j (lanes j))
      → (j : ℕ) → P j (update i lane lanes j)
  at_lane P i lane lanes here others j = elim (index_cases j i) [
    | inl same ↦ rw (same, update_self i lane lanes) here
    | inr other ↦ rw (update_other i j lane lanes other) (others j other)
  ]

  module _ ⦃fl : Floats F⦄ ⦃net : Network F⦄ (notifiers : List (Notifier F))
      (rules : ℕ → List (Rule F)) where
    unfoldable pub evaluate_all : List (ℕ × Batch F) → List (Emission × Bool)
    evaluate_all [] = []
    evaluate_all ((i, b) ∷ rest) = evaluate notifiers (rules i) b ++ evaluate_all rest

    pub evaluate_all-append :
        (xs : List (ℕ × Batch F)) (i : ℕ) (b : Batch F)
        → evaluate_all (xs ++ (i, b) ∷ []) ≡ evaluate_all xs ++ evaluate notifiers (rules i) b
    unfolding evaluate_all
    evaluate_all-append [] i b = append-nil _
    evaluate_all-append ((j, c) ∷ xs) i b =
        ap (λ l. evaluate notifiers (rules j) c ++ l) (evaluate_all-append xs i b)
        ∙ sym (append_assoc (evaluate notifiers (rules j) c) (evaluate_all xs) _)
