-- ===== src/Badger/Collisions.antt =====
-- Where the keys of two streams, or of two windows, meet.
use mathlib.Core.Path.{subst}
use mathlib.Core.List.{append_assoc, Mem, mem-cons_self, mem-cons_of_mem}
use native.Mathlib.Nat.{div-eq_of_lt-le}
use stream_rail.Common.{
  ℕ, ◌+◌, ◌*◌, ◌/◌, ◌<◌, ◌^◌, ◌≡◌, ◌≢◌, refl, sym, ap, ◌∙◌, true, some, List, [], ◌∷◌, ◌++◌, Str,
  codes, ◌==◌, list_eq, nat_eq, arith, All, if◌then◌else◌, inl, inr, Bool-cases, beq_refl,
}
use stream_rail.Common.Assoc.{lookup}
use stream_rail.Window.{Key, Bucket, ok, Result-cases}
use stream_rail.Badger.{Database, Json, key_prefix, bucket_key, save, load_all, after}
use stream_rail.Badger.Keys.{has_prefix}
use stream_rail.Badger.Buckets.{Namespace, Clean}
use stream_rail.Badger.Buckets.Items.{values_of, IsReadable, items_within, load_items-readable}
use stream_rail.Common.Decimal.{format_int}
use stream_rail.Clock.{unix, from_unix, truncate, epoch, nanos}
use stream_rail.Clock.Truncate.{truncate_pos}
use stream_rail.Common.Int.{ℤ, pos_part, ◌+ℤ◌, int_laws, scale, pos, ◌-ℤ◌, floor_div}
use stream_rail.Model.{Event}
use stream_rail.Window.Tumbling.Run.Durable.{window_key}

-- A namespace with a slash below another.
abbrev pub below : Str → Str → Str
below p x = p ++ (codes "/" ++ x)

has_prefix_slash : (p s : Str) → has_prefix (p ++ codes "/") (p ++ (codes "/" ++ s)) ≡ true
unfolding has_prefix
has_prefix_slash [] s = refl
has_prefix_slash (c ∷ p) s = ground (arith, has_prefix_slash p s)

-- The keys of a namespace below another lie under the other's prefix.
has_prefix-below :
    (p x : Str) (k : Key) → has_prefix (key_prefix p) (bucket_key (below p x) k) ≡ true
unfolding bucket_key key_prefix has_prefix
has_prefix-below p x k =
    let tail = k.group_key ++ (codes "/" ++ format_int (unix k.window_start)) in
    let parted : (below p x ++ codes "/") ++ tail ≡ p ++ (codes "/" ++ ((x ++ codes "/") ++ tail)) =
      simp (append_assoc) in
    subst (λ z. has_prefix (p ++ codes "/") z ≡ true) (sym parted)
      (has_prefix_slash p ((x ++ codes "/") ++ tail))

module _ {F D : Type 0} ⦃db : Database D⦄ ⦃json : Json F⦄ (ns : Namespace db json) where
  open ns use {laws, texts, prefix}
  open laws use {value_at, items}

  Mem-values_of :
      (its : List (Str × Str)) (key text : Str) (b : Bucket F)
      → json.unmarshal text ≡ ok b
      → lookup key its ≡ some text
      → Mem b (values_of ns its)
  unfolding values_of lookup
  Mem-values_of [] key text b e h = cc
  Mem-values_of ((j, u) ∷ its) key text b e h = elim (Bool-cases (j == key)) [
    | inl same ↦
        let now : values_of ns ((j, u) ∷ its) ≡ b ∷ values_of ns its = ground (arith, same, h, e) in
        subst (Mem b) (sym now) mem-cons_self
    | inr other ↦
        let rest = Mem-values_of its key text b e (ground (arith, other, h)) in
        elim (Result-cases (json.unmarshal u)) [
          | inl (f, bad) ↦
              let now : values_of ns ((j, u) ∷ its) ≡ values_of ns its = ground (arith, bad) in
              subst (Mem b) (sym now) rest
          | inr (first, good) ↦
              let now : values_of ns ((j, u) ∷ its) ≡ first ∷ values_of ns its =
                ground (arith, good) in
              subst (Mem b) (sym now) (mem-cons_of_mem first rest)
        ]
  ]

  -- `other` is the name of a namespace below that of `ns`.
  module _ (x : Str) (b : Bucket F) (kept : texts.KeyKept b.key)
      (evs : All texts.EventKept b.events) (small : b.count < 2 ^ 64) (d : D) (c : Clean ns d) where
    abbrev there : D
    there = (save (below prefix x) b d).0

    saved :
        (save (below prefix x) b d).0
        ≡ after (db.set (bucket_key (below prefix x) b.key) (texts.text_of b) d) d
    saved = unfold save in rw (texts.marshal_lem b kept evs small, save) refl

    value_at-there :
        (key : Str)
        → value_at there key ≡ (
            if bucket_key (below prefix x) b.key == key
            then some (texts.text_of b)
            else value_at d key)
    value_at-there key = rw (saved) (laws.value_at-set _ _ d key c.healthy)

    there-Healthy : laws.Healthy there
    there-Healthy = rw (saved) (laws.set-Healthy _ _ d c.healthy)

    lookup-there :
        (key text : Str)
        → lookup key (items there (key_prefix prefix)) ≡ some text
        → (has_prefix (key_prefix prefix) key ≡ true) × (value_at there key ≡ some text)
    lookup-there key text e =
        ground (arith, laws.lookup-items (key_prefix prefix) there key there-Healthy, e)

    there-IsReadable :
        (key text : Str)
        → lookup key (items there (key_prefix prefix)) ≡ some text
        → IsReadable ns key text
    there-IsReadable key text e = elim (Bool-cases (bucket_key (below prefix x) b.key == key)) [
      | inl same ↦ (
        b,
        ground (
          arith,
          same,
          value_at-there key,
          lookup-there key text e,
          texts.unmarshal-text_of b kept evs small,
        ),
      )
      | inr other ↦
          let it =
            c.well_formed key text
              (ground (arith, other, value_at-there key, lookup-there key text e))
              (lookup-there key text e).0 in
          (it.bucket, it.decodes)
    ]

    -- A bucket that JSON keeps and that is saved in a namespace below another, one whose name goes on
    -- with a slash, is among those that LoadAll gives for the other, where that held well-formed keys
    -- and texts.
    pub nested_namespace : (bs : List (Bucket F)) × (load_all prefix there ≡ ok bs) × Mem b bs
    nested_namespace = (
      values_of ns (items there (key_prefix prefix)),
      (unfold load_all in
          rw (laws.scan_lem (key_prefix prefix) there there-Healthy) (
            load_items-readable ns _ (
              items_within (IsReadable ns) _
                (laws.items-Distinct (key_prefix prefix) there there-Healthy) there-IsReadable))),
      Mem-values_of _ (bucket_key (below prefix x) b.key) (texts.text_of b) b
          (texts.unmarshal-text_of b kept evs small)
          (laws.lookup-items (key_prefix prefix) there _ there-Healthy
            ∙ ground (
              arith,
              has_prefix-below prefix x b.key,
              value_at-there (bucket_key (below prefix x) b.key),
              beq_refl (bucket_key (below prefix x) b.key),
            )),
    )

-- The start of the window of an event, `n` seconds after the zero Time.
start_of_second :
    (t : ℤ) (n d : ℕ)
    → 0 < d
    → t ≡ pos n -ℤ epoch
    → truncate (from_unix t) (pos d) ≡ pos (d * (nanos * n / d))
start_of_second t n d h e =
    let there : t +ℤ epoch ≡ pos n = rw (e) (omega int_laws) in
    let instant : from_unix t ≡ pos (nanos * n) =
      unfold from_unix scale in rw (there) (ground arith) in
    rw (instant) (truncate_pos (nanos * n) d h)

quotients :
    (d m : ℕ)
    → d < nanos
    → nanos < d + d
    → (nanos * (d * m) / d ≡ nanos * m)
      × (nanos * (d * m + 1) / d ≡ nanos * m + 1)
      × (d * (nanos * m) / nanos ≡ d * m)
      × (d * (nanos * m + 1) / nanos ≡ d * m)
quotients d m lo hi =
    let grid : nanos * m * d ≡ nanos * (d * m) = grind arith in
    let line : d * (nanos * m) ≡ nanos * (d * m) = grind arith in
    let next : d * (nanos * m + 1) ≡ nanos * (d * m) + d = grind arith in
    let wide : (nanos * m + 1) * d ≡ nanos * (d * m) + d = grind arith in
    let far : (nanos * m + 1 + 1) * d ≡ nanos * (d * m) + d + d = grind arith in
    (
      div-eq_of_lt-le d (omega (arith, grid)) (omega (arith, wide)),
      div-eq_of_lt-le d (omega (arith, wide)) (omega (arith, far)),
      div-eq_of_lt-le nanos (omega (arith, line)) (omega (arith, line)),
      div-eq_of_lt-le nanos (omega (arith, next)) (omega (arith, next)),
    )

-- Windows longer than half a second and shorter than a second: of two events, one `d * m` seconds
-- after the zero Time and one a second later, for a size of `d` nanoseconds, each has its own window,
-- and the two windows have one key in the database.
pub short_windows_collide :
    {F : Type 0} (prefix : Str) (group_by : Event F → Str) (early late : Event F) (d m : ℕ)
    → d < nanos
    → nanos < d + d
    → early.timestamp ≡ pos (d * m) -ℤ epoch
    → late.timestamp ≡ pos (d * m + 1) -ℤ epoch
    → group_by early ≡ group_by late
    → let j = window_key (pos d) group_by early in
      let k = window_key (pos d) group_by late in
      (j ≢ k) × (bucket_key prefix j ≡ bucket_key prefix k)
unfolding bucket_key
short_windows_collide prefix group_by early late d m lo hi first second same =
    let q = quotients d m lo hi in
    let a = start_of_second early.timestamp (d * m) d (omega arith) first in
    let b = start_of_second late.timestamp (d * m + 1) d (omega arith) second in
    let x : truncate (from_unix early.timestamp) (pos d) ≡ pos (d * (nanos * m)) = rw (← q.0) a in
    let y : truncate (from_unix late.timestamp) (pos d) ≡ pos (d * (nanos * m + 1)) =
      rw (← q.1) b in
    let apart : d * (nanos * m + 1) ≡ d * (nanos * m) + d = grind arith in
    (
      (λ e. omega (arith, apart, ap pos_part (sym x ∙ ap (λ (key : Key). key.window_start) e ∙ y))),
      (unfold unix floor_div in rw (x, y, same, q.2, q.3) refl),
    )
