-- ===== src/Badger/Namespaces.antt =====
-- The stores of several streams, and the identifiers that are seen, in one database.
use mathlib.Core.Path.{subst}
use stream_rail.Common.{
  ◌^◌, ◌≡◌, ◌≢◌, refl, sym, ap, ◌∙◌, true, false, List, [], ◌∷◌, ◌++◌, Str, codes, list_eq,
  list_beq_iff, nat_eq, arith, All, inl, inr,
}
use stream_rail.Common.Int.{ℤ, floor_mod}
use stream_rail.Common.Assoc.{lookup}
use stream_rail.Clock.{Duration}
use stream_rail.Window.{Key, key_eq, Bucket, ok, Result-cases}
use stream_rail.Window.Contract.{by_key}
use stream_rail.Badger.{
  Database, Json, key_prefix, bucket_key, checkpoint_key, save, delete_bucket, save_checkpoint,
  mark, load_all, load_checkpoint, after, put_uint64,
}
use stream_rail.Badger.Keys.{
  has_prefix, has_prefix-checkpoint_key, has_prefix-bucket_key, bucket_key-ne-checkpoint_key,
}
use stream_rail.Badger.Buckets.{Namespace, KeyOk, Clean, bucket_at, checkpoint}
use stream_rail.Badger.Buckets.Items
use stream_rail.Badger.Refines.{items_at}

-- Neither name followed by a slash begins with the other followed by a slash.
abbrev pub Apart : Str → Str → Type 0
Apart p q =
    (has_prefix (p ++ codes "/") (q ++ codes "/") ≡ false)
    × (has_prefix (q ++ codes "/") (p ++ codes "/") ≡ false)

has_prefix-apart :
    (p q s : Str) → has_prefix p q ≡ false → has_prefix q p ≡ false → has_prefix p (q ++ s) ≡ false
unfolding has_prefix
has_prefix-apart [] q s h g = cc
has_prefix-apart (c ∷ p) [] s h g = cc
has_prefix-apart (c ∷ p) (d ∷ q) s h g = ground (arith, has_prefix-apart p q s)

has_prefix-bucket_key-Apart :
    (p q : Str) (k : Key) → Apart p q → has_prefix (key_prefix p) (bucket_key q k) ≡ false
unfolding bucket_key has_prefix
has_prefix-bucket_key-Apart p q k h = has_prefix-apart (key_prefix p) (key_prefix q) _ h.0 h.1

has_prefix-seen : (p id : Str) → has_prefix (key_prefix p) (codes "seen/" ++ id) ≡ false
unfolding has_prefix key_prefix
has_prefix-seen p id = refl

seen-ne-checkpoint_key : (id p : Str) → codes "seen/" ++ id ≢ checkpoint_key p
unfolding checkpoint_key has_prefix
seen-ne-checkpoint_key id p e = let begins : true ≡ false = ap (has_prefix (codes "s")) e in cc

checkpoint_key-injective : (p q : Str) → checkpoint_key p ≡ checkpoint_key q → p ≡ q
unfolding checkpoint_key
checkpoint_key-injective p q e = cc

-- The writes to the database: those of the stores, and those of the deduplication.
pub data Write (F : Type 0) : Type 0 where
  saving : Str → Bucket F → Write F
  deleting : Str → Key → Write F
  checkpointing : Str → ℤ → Write F
  marking : Str → Duration → Write F

module _ {F D : Type 0} ⦃db : Database D⦄ ⦃json : Json F⦄ where
  unfoldable pub write : Write F → D → D
  write (saving q b) d = (save q b d).0
  write (deleting q k) d = (delete_bucket q k d).0
  write (checkpointing q t) d = (save_checkpoint q t d).0
  write (marking id ttl) d = (mark id ttl d).0

  unfoldable pub write_all : List (Write F) → D → D
  write_all [] d = d
  write_all (w ∷ ws) d = write_all ws (write w d)

-- A write of another namespace than `p`, or of the deduplication.
abbrev pub IsElsewhere : {F : Type 0} → Str → Write F → Type 0
IsElsewhere p (saving q b) = Apart p q
IsElsewhere p (deleting q k) = Apart p q
IsElsewhere p (checkpointing q t) = q ≢ p
IsElsewhere p (marking id ttl) = Unit

module _ {F D : Type 0} ⦃db : Database D⦄ ⦃json : Json F⦄ (ns : Namespace db json) where
  open ns use {laws, prefix}
  open laws use {Healthy, value_at, items}

  -- What the store of a namespace can read.
  record Unchanged (d d' : D) : Type 0 where
    pub healthy : Healthy d'
    pub inside : (j : Str) → has_prefix (key_prefix prefix) j ≡ true → value_at d' j ≡ value_at d j
    pub point : value_at d' (checkpoint_key prefix) ≡ value_at d (checkpoint_key prefix)

  abbrev Foreign : Str → Type 0
  Foreign key = (has_prefix (key_prefix prefix) key ≡ false) × (key ≢ checkpoint_key prefix)

  set-Unchanged :
      (key text : Str) (d : D) → Foreign key → Healthy d → Unchanged d (after (db.set key text d) d)
  set-Unchanged key text d f h = record {
    healthy = laws.set-Healthy key text d h;
    inside = λ j p. laws.value_at-set key text d j h ∙ ground (arith, f.0, p, list_beq_iff key j);
    point =
        laws.value_at-set key text d (checkpoint_key prefix) h
        ∙ ground (arith, f.1, list_beq_iff key (checkpoint_key prefix));
  }

  delete-Unchanged :
      (key : Str) (d : D) → Foreign key → Healthy d → Unchanged d (after (db.delete key d) d)
  delete-Unchanged key d f h = record {
    healthy = laws.delete-Healthy key d h;
    inside = λ j p. laws.value_at-delete key d j h ∙ ground (arith, f.0, p, list_beq_iff key j);
    point =
        laws.value_at-delete key d (checkpoint_key prefix) h
        ∙ ground (arith, f.1, list_beq_iff key (checkpoint_key prefix));
  }

  bucket-Foreign : (q : Str) (k : Key) → Apart prefix q → Foreign (bucket_key q k)
  bucket-Foreign q k a =
      (has_prefix-bucket_key-Apart prefix q k a, bucket_key-ne-checkpoint_key q prefix k)

  save-Unchanged :
      (q : Str) (b : Bucket F) (d : D) → Apart prefix q → Healthy d → Unchanged d (save q b d).0
  unfolding save
  save-Unchanged q b d e h = elim (Result-cases (json.marshal b)) [
    | inl (f, failed) ↦
        subst (λ z. Unchanged d z) (ground (arith, failed))
          (record { healthy = h; inside = λ j p. refl; point = refl })
    | inr (text, made) ↦
        subst (λ z. Unchanged d z) (ground (arith, made))
          (set-Unchanged (bucket_key q b.key) text d (bucket-Foreign q b.key e) h)
  ]

  write-Unchanged :
      (w : Write F) (d : D) → IsElsewhere prefix w → Healthy d → Unchanged d (write w d)
  unfolding write
  write-Unchanged (saving q b) d e h = save-Unchanged q b d e h
  write-Unchanged (deleting q k) d e h =
      unfold delete_bucket in delete-Unchanged (bucket_key q k) d (bucket-Foreign q k e) h
  write-Unchanged (checkpointing q t) d e h =
      unfold save_checkpoint in
      set-Unchanged (checkpoint_key q) (put_uint64 (floor_mod t (2 ^ 64))) d
        (has_prefix-checkpoint_key prefix q, (λ same. e (checkpoint_key-injective q prefix same))) h
  write-Unchanged (marking id ttl) d e h =
      unfold mark in
      record {
        healthy = laws.ttl-Healthy (codes "seen/" ++ id) (1 ∷ []) ttl d h;
        inside = λ j p.
            laws.value_at-set_with_ttl (codes "seen/" ++ id) (1 ∷ []) ttl d j h
              (λ same. cc (has_prefix-seen prefix id, same, p));
        point =
            laws.value_at-set_with_ttl (codes "seen/" ++ id) (1 ∷ []) ttl d _ h
              (seen-ne-checkpoint_key id prefix);
      }

  write_all-Unchanged :
      (ws : List (Write F)) (d : D)
      → All (IsElsewhere prefix) ws
      → Healthy d
      → Unchanged d (write_all ws d)
  unfolding write_all
  write_all-Unchanged [] d e h = record { healthy = h; inside = λ j p. refl; point = refl }
  write_all-Unchanged (w ∷ ws) d e h =
      let first = write-Unchanged w d e.0 h in
      let later = write_all-Unchanged ws (write w d) e.1 first.healthy in
      record {
        healthy = later.healthy;
        inside = λ j p. later.inside j p ∙ first.inside j p;
        point = later.point ∙ first.point;
      }

  module _ (d d' : D) (u : Unchanged d d') where
    unchanged-Clean : Clean ns d → Clean ns d'
    unchanged-Clean c = record {
      healthy = u.healthy;
      well_formed = λ key text found p. c.well_formed key text (sym (u.inside key p) ∙ found) p;
      eight = λ text found. c.eight text (sym u.point ∙ found);
    }

    unchanged-bucket_at : (k : Key) → bucket_at ns d' k ≡ bucket_at ns d k
    unchanged-bucket_at k =
        rw (bucket_at, u.inside (bucket_key prefix k) (has_prefix-bucket_key prefix k)) refl

    unchanged-checkpoint : checkpoint ns d' ≡ checkpoint ns d
    unchanged-checkpoint = rw (checkpoint, u.point) refl

  -- Writes in other namespaces and of the deduplication, in any number and order, to a reliable
  -- database whose keys and texts of this namespace are well formed, where of the name of a namespace
  -- whose buckets are written and that of this one, each followed by a slash, neither begins with the
  -- other, and a checkpoint is written only under another name: what is well formed stays so,
  -- LoadCheckpoint gives the same as before, and LoadAll has the same bucket under each key.
  pub namespaces_apart :
      (ws : List (Write F)) (d : D)
      → All (IsElsewhere prefix) ws
      → Clean ns d
      → Clean ns (write_all ws d)
        × (load_checkpoint prefix (write_all ws d) ≡ load_checkpoint prefix d)
        × (load_all prefix d ≡ ok (items_at ns d))
        × (load_all prefix (write_all ws d) ≡ ok (items_at ns (write_all ws d)))
        × ((k : Key)
            → KeyOk ns k
            → lookup k (by_key (items_at ns (write_all ws d))) ≡ lookup k (by_key (items_at ns d)))
  namespaces_apart ws d e c =
      let u = write_all-Unchanged ws d e c.healthy in
      let c' = unchanged-Clean d (write_all ws d) u c in
      (
        c',
        Items.load_checkpoint_lem ns (write_all ws d) c'
            ∙ ap ok (unchanged-checkpoint d (write_all ws d) u)
            ∙ sym (Items.load_checkpoint_lem ns d c),
        Items.load_all_lem ns d c,
        Items.load_all_lem ns (write_all ws d) c',
        (λ k g.
            Items.lookup-all ns (write_all ws d) c' k g
            ∙ unchanged-bucket_at d (write_all ws d) u k
            ∙ sym (Items.lookup-all ns d c k g)),
      )
