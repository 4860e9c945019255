-- ===== src/Badger/Buckets/Items.antt =====
-- What LoadAll and LoadCheckpoint read.
use mathlib.Core.Path.{subst}
use stream_rail.Common.{
  ◌≡◌, refl, sym, ◌∙◌, Option, none, some, List, [], ◌∷◌, Str, ◌==◌, list_eq, list_beq_iff, nat_eq,
  arith, All, Bool-cases, Option-cases, inl, inr, beq_refl,
}
use stream_rail.Common.Assoc.{lookup, Distinct}
use stream_rail.Window.{Key, key_eq, key_beq_iff, Bucket, ok, err}
use stream_rail.Window.Contract.{by_key}
use stream_rail.Badger.{
  Database, Json, key_prefix, bucket_key, checkpoint_key, load_items, load_all, load_checkpoint,
}
use stream_rail.Badger.Keys.{has_prefix, has_prefix-bucket_key}
use stream_rail.Badger.Laws.{readable}
use stream_rail.Badger.Buckets.{
  Namespace, KeyOk, IsItem, Clean, bucket_at, checkpoint, same_test, value_of_result,
}

-- What holds of each entry that a key has, holds of all entries.
pub items_within :
    (P : Str → Str → Type 0) (its : List (Str × Str))
    → Distinct its
    → ((key text : Str) → lookup key its ≡ some text → P key text)
    → All (λ item. P item.0 item.1) its
unfolding lookup
items_within P [] d h = tt
items_within P ((key, text) ∷ its) d h = (
  h key text (ground (arith, beq_refl key)),
  items_within P its d.1 (λ j v e. h j v (ground (arith, e, d.0, list_beq_iff key j))),
)

module _ {F D : Type 0} ⦃db : Database D⦄ ⦃json : Json F⦄ (ns : Namespace db json) where
  open ns use {laws, texts, prefix, size, wide}
  open laws use {Healthy, value_at, items}
  open texts use {KeyKept, EventKept, text_of}

  unfoldable pub values_of : List (Str × Str) → List (Bucket F)
  values_of [] = []
  values_of ((key, text) ∷ its) = elim (json.unmarshal text) [
    | err e ↦ values_of its
    | ok b ↦ b ∷ values_of its
  ]

  abbrev AllItems : List (Str × Str) → Type 0
  AllItems = All (λ item. IsItem ns item.0 item.1)

  abbrev pub IsReadable : Str → Str → Type 0
  IsReadable key text = (b : Bucket F) × (json.unmarshal text ≡ ok b)

  pub load_items-readable :
      (its : List (Str × Str))
      → All (λ item. IsReadable item.0 item.1) its
      → load_items (readable its) ≡ ok (values_of its)
  unfolding load_items values_of
  load_items-readable [] h = refl
  load_items-readable ((key, text) ∷ its) h = ground (arith, h.0.1, load_items-readable its h.1)

  items-IsReadable :
      (its : List (Str × Str)) → AllItems its → All (λ item. IsReadable item.0 item.1) its
  items-IsReadable [] h = tt
  items-IsReadable (item ∷ its) h = ((h.0.bucket, h.0.decodes), items-IsReadable its h.1)

  lookup-values :
      (its : List (Str × Str)) (k : Key)
      → AllItems its
      → KeyOk ns k
      → lookup k (by_key (values_of its))
        ≡ elim (lookup (bucket_key prefix k) its) as (λ _. Option (Bucket F)) [
          | none ↦ none
          | some text ↦ value_of_result (json.unmarshal text)
        ]
  unfolding lookup values_of
  lookup-values [] k h g = refl
  lookup-values ((key, text) ∷ its) k h g = ground (
    arith,
    h.0.decodes,
    h.0.own,
    same_test ns h.0.bucket.key k h.0.key_ok g,
    lookup-values its k h.1 g,
  )

  pub values-Distinct :
      (its : List (Str × Str)) → AllItems its → Distinct its → Distinct (by_key (values_of its))
  unfolding values_of
  values-Distinct [] h d = tt
  values-Distinct ((key, text) ∷ its) h d = ground (
    arith,
    h.0.decodes,
    h.0.own,
    d.0,
    lookup-values its h.0.bucket.key h.1 h.0.key_ok,
    values-Distinct its h.1 d.1,
  )

  module _ (d : D) (c : Clean ns d) where
    pub items-All : AllItems (items d (key_prefix prefix))
    items-All =
        items_within (IsItem ns) (items d (key_prefix prefix))
          (laws.items-Distinct (key_prefix prefix) d c.healthy)
          (λ j v e.
            let found = sym (laws.lookup-items (key_prefix prefix) d j c.healthy) ∙ e in
            elim (Bool-cases (has_prefix (key_prefix prefix) j)) [
              | inl inside ↦ c.well_formed j v (ground (arith, found, inside)) inside
              | inr outside ↦ cc (rw outside at found)
            ])

    pub load_all_lem : load_all prefix d ≡ ok (values_of (items d (key_prefix prefix)))
    load_all_lem =
        unfold load_all in
        rw (laws.scan_lem (key_prefix prefix) d c.healthy)
          (load_items-readable _ (items-IsReadable _ items-All))

    pub lookup-all :
        (k : Key)
        → KeyOk ns k
        → lookup k (by_key (values_of (items d (key_prefix prefix)))) ≡ bucket_at ns d k
    lookup-all k g =
        lookup-values _ k items-All g
        ∙ (rw (
          laws.lookup-items (key_prefix prefix) d (bucket_key prefix k) c.healthy,
          has_prefix-bucket_key prefix k,
        ))

    pub load_checkpoint_lem : load_checkpoint prefix d ≡ ok (checkpoint ns d)
    load_checkpoint_lem =
        let found = laws.get_lem (checkpoint_key prefix) d c.healthy in
        elim (Option-cases (value_at d (checkpoint_key prefix))) [
          | inl nothing ↦ unfold load_checkpoint in ground (arith, found, nothing)
          | inr (text, there) ↦
              unfold load_checkpoint in ground (arith, found, there, c.eight text there)
        ]

  -- A bucket that is read has a key of the namespace.
  pub values-KeyOk :
      (its : List (Str × Str)) (k : Key) (b : Bucket F)
      → AllItems its
      → lookup k (by_key (values_of its)) ≡ some b
      → KeyOk ns k
  unfolding lookup values_of
  values-KeyOk [] k b h e = cc
  values-KeyOk ((key, text) ∷ its) k b h e = elim (Bool-cases (h.0.bucket.key == k)) [
    | inl same ↦ subst (KeyOk ns) ((key_beq_iff h.0.bucket.key k).0 same) h.0.key_ok
    | inr other ↦ values-KeyOk its k b h.1 (ground (arith, h.0.decodes, other, e))
  ]
