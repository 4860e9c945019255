-- ===== src/Badger/Keys.antt =====
-- Which keys the database has, and when two of them are equal.
use mathlib.Core.Path.{subst}
use native.Mathlib.Nat.{div-add-mod, mod-lt}
use stream_rail.Common.{
  ℕ, suc, ◌+◌, ◌*◌, ◌/◌, ◌%◌, ◌≤◌, ◌<◌, ◌≡◌, ◌≢◌, refl, sym, ap, ◌∙◌, Bool, true, false, ◌&&◌, [],
  ◌∷◌, ◌++◌, Str, ◌==◌, nat_eq, arith, All,
}
use stream_rail.Common.Int.{
  ℤ, pos, negsuc, pos_part, neg_part, ◌-ℤ◌, floor_div, floor_mod, eq_of_parts, -ℤ_parts,
}
use stream_rail.Common.Decimal.{
  format_int, format_nat, format_nat-IsDigit, IsDigit, format_int-injective,
}
use stream_rail.Clock.{unix, nanos, epoch}
use stream_rail.Window.{Key}
use stream_rail.Badger.{key_prefix, bucket_key, checkpoint_key}

-- bytes.HasPrefix, the prefix first.
unfoldable pub has_prefix : Str → Str → Bool
has_prefix [] s = true
has_prefix (c ∷ p) [] = false
has_prefix (c ∷ p) (d ∷ s) = c == d && has_prefix p s

pub has_prefix-append : (p s : Str) → has_prefix p (p ++ s) ≡ true
unfolding has_prefix
has_prefix-append [] s = refl
has_prefix-append (c ∷ p) s = ground (arith, has_prefix-append p s)

append-cancel_left : (p s t : Str) → p ++ s ≡ p ++ t → s ≡ t
append-cancel_left [] s t h = h
append-cancel_left (c ∷ p) s t h = append-cancel_left p s t (cc)

abbrev pub NoSlash : Str → Type 0
NoSlash = All (λ c. c ≢ b'/')

slash-mem : (a s : Str) → ¬ (NoSlash (a ++ b'/' ∷ s))
slash-mem [] s h = h.0 refl
slash-mem (c ∷ a) s h = slash-mem a s h.1

-- A text is split at its last slash in one way.
split_at_slash :
    (a b s t : Str) → NoSlash s → NoSlash t → a ++ b'/' ∷ s ≡ b ++ b'/' ∷ t → (a ≡ b) × (s ≡ t)
split_at_slash [] [] s t hs ht e = (refl, cc)
split_at_slash (c ∷ a) (d ∷ b) s t hs ht e =
    let ih = split_at_slash a b s t hs ht (cc) in (cc, ih.1)
split_at_slash [] (d ∷ b) s t hs ht e =
    let tail : s ≡ b ++ b'/' ∷ t = cc in absurd (slash-mem b t (subst NoSlash tail hs))
split_at_slash (c ∷ a) [] s t hs ht e =
    let tail : t ≡ a ++ b'/' ∷ s = cc in absurd (slash-mem a s (subst NoSlash tail ht))

digit-ne-slash : (s : Str) → All IsDigit s → NoSlash s
digit-ne-slash [] h = tt
digit-ne-slash (c ∷ s) h = ((λ e. omega (arith, h.0)), digit-ne-slash s h.1)

format_int-ne-slash : (a : ℤ) → NoSlash (format_int a)
unfolding format_int
format_int-ne-slash (pos n) = digit-ne-slash (format_nat n) (format_nat-IsDigit n)
format_int-ne-slash (negsuc n) =
    ((λ e. omega arith), digit-ne-slash (format_nat (suc n)) (format_nat-IsDigit (suc n)))

-- A key determines the group and the second in which the window starts.
pub bucket_key-injective :
    (prefix : Str) (j k : Key)
    → bucket_key prefix j ≡ bucket_key prefix k
    → (j.group_key ≡ k.group_key) × (unix j.window_start ≡ unix k.window_start)
unfolding bucket_key
bucket_key-injective prefix j k e =
    let parts =
      split_at_slash j.group_key k.group_key _ _ (format_int-ne-slash (unix j.window_start))
        (format_int-ne-slash (unix k.window_start))
        (append-cancel_left (key_prefix prefix) _ _ e) in
    (parts.0, format_int-injective _ _ parts.1)

mul-gap : (x y d : ℕ) → x < y → d * x + d ≤ d * y
mul-gap x y d h = grind arith

not_before : (a b d : ℕ) → nanos ≤ d → a / nanos ≡ b / nanos → a % d ≡ b % d → ¬ (a / d < b / d)
not_before a b d l e r h =
    omega (arith, div-add-mod a d, div-add-mod b d, mul-gap (a / d) (b / d) d h)

one_second : (a b d : ℕ) → nanos ≤ d → a / nanos ≡ b / nanos → a % d ≡ b % d → a ≡ b
one_second a b d l e r =
    let same : a / d ≡ b / d =
      omega (arith, not_before a b d l e r, not_before b a d l (sym e) (sym r)) in
    sym (div-add-mod a d)
    ∙ ap (λ (q : ℕ). d * q + a % d) same
    ∙ ap (λ (m : ℕ). d * (b / d) + m) r
    ∙ div-add-mod b d

minus_cancel : (a b c : ℤ) → a -ℤ c ≡ b -ℤ c → a ≡ b
minus_cancel a b c h =
    eq_of_parts a b (omega (arith, -ℤ_parts a c, -ℤ_parts b c, ap pos_part h, ap neg_part h))

on_grid :
    (t u : ℤ) (d : ℕ)
    → nanos ≤ d
    → floor_div t nanos ≡ floor_div u nanos
    → floor_mod t d ≡ 0
    → floor_mod u d ≡ 0
    → t ≡ u
unfolding floor_div floor_mod
on_grid (pos a) (pos b) d l e p q = ap pos (one_second a b d l (cc) (p ∙ sym q))
on_grid (negsuc a) (negsuc b) d l e p q =
    let positive : 0 < d = omega arith in
    ap negsuc (one_second a b d l (cc) (omega (arith, mod-lt a positive, mod-lt b positive)))
on_grid (pos a) (negsuc b) d l e p q = cc
on_grid (negsuc a) (pos b) d l e p q = cc

-- Two instants in one second, both on the grid of a duration of at least a second, are equal.
pub unix-injective :
    (t u : ℤ) (d : ℕ) → nanos ≤ d → unix t ≡ unix u → floor_mod t d ≡ 0 → floor_mod u d ≡ 0 → t ≡ u
unfolding unix
unix-injective t u d l e p q =
    on_grid t u d l (minus_cancel (floor_div t nanos) (floor_div u nanos) epoch e) p q

-- A checkpoint lies under no prefix of buckets.
pub has_prefix-checkpoint_key : (p q : Str) → has_prefix (key_prefix p) (checkpoint_key q) ≡ false
unfolding has_prefix key_prefix checkpoint_key
has_prefix-checkpoint_key p q = refl

pub has_prefix-bucket_key : (p : Str) (k : Key) → has_prefix (key_prefix p) (bucket_key p k) ≡ true
unfolding bucket_key
has_prefix-bucket_key p k = has_prefix-append (key_prefix p) _

pub bucket_key-ne-checkpoint_key : (p q : Str) (k : Key) → bucket_key p k ≢ checkpoint_key q
bucket_key-ne-checkpoint_key p q k e =
    cc (e, has_prefix-bucket_key p k, has_prefix-checkpoint_key p q)
