-- ===== src/Base/Payload.antt =====
-- The untyped values that payloads carry: what `json` and `yaml` give, with whole numbers only. A
-- dictionary has its entries in order.
use Prim.Native.String.{String}
use mathlib.Core.Bool.{Bool, true, false}
use valuemaxx.Base.Int.{ℤ}
use valuemaxx.Base.Tests.{if◌then◌else◌}
use valuemaxx.Base.Text.{same_text}

mutual
  pub data Value : Type 0 where
    null : Value
    truth : Bool → Value
    number : ℤ → Value
    text : String → Value
    sequence : Items → Value
    mapping : Fields → Value

  pub data Items : Type 0 where
    no_items : Items
    item : Value → Items → Items

  pub data Fields : Type 0 where
    no_fields : Fields
    field : String → Value → Fields → Fields

-- `key in fields`
unfoldable pub has_field : Fields → String → Bool
has_field no_fields key = false
has_field (field k v fields) key =
    let rest = has_field fields key in if same_text k key then true else rest

-- `fields.get(key)`
unfoldable pub get_field : Fields → String → Value
get_field no_fields key = null
get_field (field k v fields) key =
    let rest = get_field fields key in if same_text k key then v else rest
