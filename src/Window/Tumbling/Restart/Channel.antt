-- ===== src/Window/Tumbling/Restart/Channel.antt =====
-- Restore leaves the output channel alone.
use stream_rail.Common.{◌≡◌, refl, Option, none, some, List, Str, inl, inr, Option-cases}
use stream_rail.Common.Int.{ℤ}
use stream_rail.Window.{Bucket, Store, Result, ok, err}
use stream_rail.Window.Tumbling.{Manager, restore, restore_windows, restore_checkpoint}
use stream_rail.Window.Tumbling.Restart.Rounds.{restore_buckets_keeps}

module _ {F S : Type 0} ⦃ops : Store F S⦄ where
  restore_windows-out :
      (r : Result Str (List (Bucket F))) (m : Manager F S) → (restore_windows r m).0.out ≡ m.out
  unfolding restore_windows
  restore_windows-out (err e) m = refl
  restore_windows-out (ok bs) m =
      restore_buckets_keeps (λ n. n.out ≡ m.out) (λ b n h. h) (λ b n h. h) bs m 0 refl

  restore_checkpoint-out :
      (r : Result Str (Option ℤ)) (s : S) (m : Manager F S)
      → (restore_checkpoint r s m).0.out ≡ m.out
  unfolding restore_checkpoint
  restore_checkpoint-out (err e) s m = refl
  restore_checkpoint-out (ok none) s m = restore_windows-out (ops.load_all s) m
  restore_checkpoint-out (ok (some t)) s m =
      restore_windows-out (ops.load_all s) (record m { max_ts = t })

  pub restore-out : (m : Manager F S) → (restore m).0.out ≡ m.out
  restore-out m = elim (Option-cases m.store) [
    | inl e ↦ unfold restore in rw (e, restore) refl
    | inr (s, e) ↦
        unfold restore in rw (e, restore) (restore_checkpoint-out (ops.load_checkpoint s) s m)
  ]
