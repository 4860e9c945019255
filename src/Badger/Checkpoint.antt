-- ===== src/Badger/Checkpoint.antt =====
-- The checkpoint in eight bytes.
use stream_rail.Common.{
  ℕ, ◌^◌, ◌<◌, ◌≡◌, refl, ap, ◌∙◌, arith, length, some, Str, beq_refl, list_eq, nat_eq,
}
use stream_rail.Common.Int.{ℤ, pos, negsuc, InInt64, floor_mod, signed64}
use stream_rail.Badger.{
  Database, put_uint64, uint64, checkpoint_key, load_checkpoint, save_checkpoint,
}
use stream_rail.Badger.Laws.{Reliable, read_item}
use stream_rail.Window.{ok}
use stream_rail.Clock.Truncate.{floor_mod-lt}

pub uint64-put_uint64 : (v : ℕ) → v < 2 ^ 64 → uint64 (put_uint64 v) ≡ v
unfolding uint64 put_uint64
uint64-put_uint64 v h = omega arith

pub signed64-floor_mod : (t : ℤ) → InInt64 t → signed64 (floor_mod t (2 ^ 64)) ≡ t
unfolding signed64 floor_mod
signed64-floor_mod (pos n) h = ground arith
signed64-floor_mod (negsuc n) h = ground arith

-- On a healthy state of a reliable database LoadCheckpoint gives the instant of the last SaveCheckpoint, with its sign,
-- for every int64.
pub load_checkpoint-save_checkpoint :
    {D : Type 0} ⦃db : Database D⦄ (laws : Reliable db) (prefix : Str) (t : ℤ) (d : D)
    → laws.Healthy d
    → InInt64 t
    → load_checkpoint prefix (save_checkpoint prefix t d).0 ≡ ok (some t)
unfolding save_checkpoint
load_checkpoint-save_checkpoint laws prefix t d h small =
    let word = put_uint64 (floor_mod t (2 ^ 64)) in
    let key = checkpoint_key prefix in
    let found =
      laws.get_lem key _ (laws.set-Healthy key word d h)
      ∙ ap (λ v. ok (read_item v)) (laws.value_at-set key word d key h) in
    let back : signed64 (uint64 word) ≡ t =
      ap signed64 (uint64-put_uint64 (floor_mod t (2 ^ 64)) (floor_mod-lt t (2 ^ 64) (omega arith)))
      ∙ signed64-floor_mod t small in
    let long : length word ≡ 8 = unfold put_uint64 in refl in
    unfold load_checkpoint in ground (arith, found, beq_refl key, back, long)
