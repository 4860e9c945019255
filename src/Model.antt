-- ===== src/Model.antt =====
-- internal/model/event.go: events, and the envelopes that carry them. `F` is the type of float64.
use stream_rail.Common.{Str, Bool, List, Option}
use stream_rail.Common.Int.{ℤ}

-- The dynamic values of `map[string]any`. A map keeps its entries in the order of the keys, which
-- is the order in which fmt prints them.
mutual
  pub data Value (F : Type 0) : Type 0 where
    null : Value F
    bool : Bool → Value F
    float64 : F → Value F
    int : ℤ → Value F
    int64 : ℤ → Value F
    string : Str → Value F
    array : Items F → Value F
    object : Members F → Value F

  pub data Items (F : Type 0) : Type 0 where
    nil : Items F
    cons : Value F → Items F → Items F

  pub data Members (F : Type 0) : Type 0 where
    end : Members F
    member : Str → Value F → Members F → Members F

pub record Event (F : Type 0) : Type 0 where
  pub service : Str
  pub level : Str
  pub timestamp : ℤ
  pub fields : List (Str × Value F)

-- `A` stands for the acknowledgement that calling `Ack` sends; `none` is a nil callback.
pub record Envelope (F A : Type 0) : Type 0 where
  pub id : Str
  pub event : Event F
  pub ack : Option A
