-- ===== src/Tests/Memory.antt =====
-- A store in memory, which keeps what the tumbling Manager relies on.
use stream_rail.Common.{◌≡◌, refl, arith, Option, some, List, [], ◌∷◌, All}
use stream_rail.Common.Int.{ℤ}
use stream_rail.Common.Assoc.{
  lookup, insert, delete, Distinct, lookup-insert, lookup-delete, insert-Distinct, delete-Distinct,
}
use stream_rail.Window.{Key, key_eq, Bucket, ok, Store}
use stream_rail.Window.Contract.{Table, by_key}

abbrev pub Cells : Type 0 → Type 0
Cells F = List (Key × Bucket F) × Option ℤ

module _ {F : Type 0} where
  abbrev values : List (Key × Bucket F) → List (Bucket F)
  values [] = []
  values ((k, b) ∷ m) = b ∷ values m

  instance abbrev pub memory : Store F (Cells F)
  memory = record {
    save = λ b s. (insert b.key b s.0, s.1);
    delete = λ k s. (delete k s.0, s.1);
    load_all = λ s. ok (values s.0);
    save_checkpoint = λ t s. (s.0, some t);
    load_checkpoint = λ s. ok s.1;
  }

  abbrev OwnKeys : List (Key × Bucket F) → Type 0
  OwnKeys = All (λ entry. entry.1.key ≡ entry.0)

  pub insert-OwnKeys :
      (b : Bucket F) (m : List (Key × Bucket F)) → OwnKeys m → OwnKeys (insert b.key b m)
  unfolding insert
  insert-OwnKeys b [] h = (refl, tt)
  insert-OwnKeys b ((k, c) ∷ m) h = ground (arith, insert-OwnKeys b m h.1)

  pub delete-OwnKeys : (k : Key) (m : List (Key × Bucket F)) → OwnKeys m → OwnKeys (delete k m)
  unfolding delete
  delete-OwnKeys k [] h = tt
  delete-OwnKeys k ((j, c) ∷ m) h = ground (arith, delete-OwnKeys k m h.1)

  pub by_key-values : (m : List (Key × Bucket F)) → OwnKeys m → by_key (values m) ≡ m
  by_key-values [] h = refl
  by_key-values ((k, b) ∷ m) h = rw (h.0, by_key-values m h.1) refl

  abbrev pub memory_table : Table memory
  memory_table = record {
    KeyOk = λ k. Unit;
    EventOk = λ ev. Unit;
    Clean = λ s. Distinct s.0 × OwnKeys s.0;
    bucket_at = λ s k. lookup k s.0;
    checkpoint = λ s. s.1;
    all = λ s. values s.0;
    TimeOk = λ t. Unit;
    EventOk-TimeOk = λ ev h. tt;
    save-Clean = λ b s g evs small c. (insert-Distinct b.key b s.0 c.0, insert-OwnKeys b s.0 c.1);
    delete-Clean = λ k s g c. (delete-Distinct k s.0 c.0, delete-OwnKeys k s.0 c.1);
    save_checkpoint-Clean = λ t s c. c;
    bucket_at-save = λ b s k g evs small g' c. lookup-insert b.key k b s.0;
    bucket_at-delete = λ j s k g g' c. lookup-delete j k s.0;
    bucket_at-save_checkpoint = λ t s k g c. refl;
    checkpoint-save = λ b s g c. refl;
    checkpoint-delete = λ k s g c. refl;
    checkpoint-save_checkpoint = λ t s h c. refl;
    load_checkpoint_lem = λ s c. refl;
    load_all_lem = λ s c. refl;
    all-Distinct = λ s c. rw (by_key-values s.0 c.1) c.0;
    lookup-all = λ s k g c. rw (by_key-values s.0 c.1) refl;
    all-KeyOk = λ s k b c e. tt;
  }
