-- ===== src/Window/Tumbling/Restart/Again.antt =====
-- A restored manager is mirrored by the store again, so that it may crash again.
use mathlib.Core.Path.{subst, fun_ext}
use stream_rail.Common.{ℕ, ◌≡◌, refl, sym, ◌∙◌, Str, arith, Bool}
use stream_rail.Model.{Event}
use stream_rail.Window.{Key, key_eq, Bucket, Store, Result}
use stream_rail.Window.Contract.{Table}
use stream_rail.Window.Tumbling.{Manager, key_for}
use stream_rail.Window.Tumbling.Invariant.{IsValid, IsBucket}
use stream_rail.Window.Tumbling.Durable.{Mirrors, kept_at, Reads}
use stream_rail.Window.Tumbling.Restart.{Resumes}

module _ {F S : Type 0} (m : Manager F S) (r : Manager F S × Result Str ℕ) (h : Resumes m r) where
  same_keys : (ev : Event F) → key_for r.0 ev ≡ key_for m ev
  unfolding key_for
  same_keys ev = rw (h.same_size, h.same_group) refl

  same_bucket :
      {k : Key} {flag : Bool} {b : Bucket F}
      → IsBucket (key_for m) k flag b
      → IsBucket (key_for r.0) k flag b
  same_bucket {k} {flag} {b} v = subst (λ f. IsBucket f k flag b) (sym (fun_ext same_keys)) v

  pub resumed-IsValid : IsValid m → IsValid r.0
  resumed-IsValid v = record {
    open_distinct = h.open_distinct;
    closed_distinct = h.closed_distinct;
    disjoint = λ k b e. h.closes k ∙ v.disjoint k b (sym (h.opens k) ∙ e);
    open_buckets = λ k b e. same_bucket (v.open_buckets k b (sym (h.opens k) ∙ e));
    closed_buckets = λ k b e. same_bucket (v.closed_buckets k b (sym (h.closes k) ∙ e));
  }

  resumed-kept_at : (k : Key) → kept_at r.0 k ≡ kept_at m k
  resumed-kept_at k = ground (arith, h.opens k, h.closes k)

  pub resumed-Mirrors :
      {ops : Store F S} (table : Table ops) (s : S) → Mirrors table m s → Mirrors table r.0 s
  resumed-Mirrors table s d = record {
    valid = resumed-IsValid d.valid;
    storable = λ k b e. d.storable k b (sym (resumed-kept_at k) ∙ e);
    stored = h.same_store ∙ d.stored;
    clean = d.clean;
    buckets = λ k g. d.buckets k g ∙ sym (resumed-kept_at k);
    reads = subst (λ t. Reads t (table.checkpoint s)) (sym h.watermark) d.reads;
  }
