-- ===== src/Window.antt =====
-- internal/window/tumbling.go, the types that both window managers share: keys, buckets, batches,
-- and the interface of the store. A counter of type int64 is its bit pattern, a number modulo
-- 2 ^ 64.
pub mod Contract
pub mod Tumbling
pub mod Sliding
use stream_rail.Common.{
  ℕ, ◌≡◌, refl, ◌↔◌, ◌⊎◌, inl, inr, Bool, true, ◌&&◌, Option, List, Str, ◌==◌, Eq, list_eq,
  list_beq_iff, nat_eq, arith, ◌+◌, ◌%◌, ◌^◌, ◌++◌, ◌∷◌, [],
}
use stream_rail.Common.Int.{ℤ, int_eq, int_beq_iff}
use stream_rail.Clock.{Instant}
use stream_rail.Model.{Event}

pub record Key : Type 0 where
  pub rule_name : Str
  pub group_key : Str
  pub window_start : Instant

unfoldable pub key_beq : Key → Key → Bool
key_beq j k =
    j.rule_name == k.rule_name && (j.group_key == k.group_key && j.window_start == k.window_start)

pub key_beq_iff : (j k : Key) → (key_beq j k ≡ true) ↔ (j ≡ k)
unfolding key_beq
key_beq_iff j k = (
  (λ h. ground (
    arith,
    list_beq_iff j.rule_name k.rule_name,
    list_beq_iff j.group_key k.group_key,
    int_beq_iff j.window_start k.window_start,
  )),
  (λ h. ground (
    arith,
    list_beq_iff j.rule_name k.rule_name,
    list_beq_iff j.group_key k.group_key,
    int_beq_iff j.window_start k.window_start,
  )),
)

instance abbrev pub key_eq : Eq Key
key_eq = record { beq = key_beq; beq_iff = key_beq_iff }

pub record Bucket (F : Type 0) : Type 0 where
  pub key : Key
  pub events : List (Event F)
  pub count : ℕ
  pub closed : Bool

pub record Batch (F : Type 0) : Type 0 where
  pub key : Key
  pub window_end : Instant
  pub events : List (Event F)
  pub count : ℕ
  pub corrected : Bool

-- What an operation that can fail returns.
pub data Result (E A : Type 0) : Type 0 where
  ok : A → Result E A
  err : E → Result E A

pub Result-cases :
    {E A : Type 0} (r : Result E A) → ((e : E) × (r ≡ err e)) ⊎ ((a : A) × (r ≡ ok a))
Result-cases (ok a) = inr (a, refl)
Result-cases (err e) = inl (e, refl)

-- The interface `Store`, as functions on the state `S` of an implementation; an error is its text.
-- The managers drop the errors of the three writes, so a write is only its effect on the state.
pub record Store (F S : Type 0) : Type 0 where
  pub save : Bucket F → S → S
  pub delete : Key → S → S
  pub load_all : S → Result Str (List (Bucket F))
  pub save_checkpoint : ℤ → S → S
  pub load_checkpoint : S → Result Str (Option ℤ)

-- The bucket after `append`, and a bucket with no event.
unfoldable pub appended : {F : Type 0} → Bucket F → Event F → Bucket F
appended b ev = record b { events = b.events ++ ev ∷ []; count = (b.count + 1) % 2 ^ 64 }

abbrev pub new_bucket : (F : Type 0) → Key → Bool → Bucket F
new_bucket F k closed = record { key = k; events = []; count = 0; closed = closed }
