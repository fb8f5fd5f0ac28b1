-- ===== src/Mocks.antt =====
-- The mock services: cmd/market-mock, cmd/core-mock and internal/mockhttp/response.go.
pub mod Query
pub mod Encoding
pub mod Client
pub mod Routes
pub mod Market
pub mod Prices
pub mod Network
pub mod Core
use factory_demo.Base.{ℕ, List, [], ◌∷◌}
use factory_demo.Base.Int.{ℤ}
use factory_demo.Text.{Text}

-- What the services encode as JSON: Go's map[string]any, []any, strings and ints.
mutual
  pub data Value : Type 0 where
    text : Text → Value
    number : ℤ → Value
    array : Values → Value
    object : Members → Value

  pub data Values : Type 0 where
    no_values : Values
    value_and : Value → Values → Values

  pub data Members : Type 0 where
    no_members : Members
    member_and : Text → Value → Members → Members

-- mockhttp.WriteJSON: the status and the value that are written.
pub record Answer : Type 0 where
  pub status : ℕ
  pub value : Value

abbrev pub write_json : ℕ → Value → Answer
write_json status value = record { status = status; value = value }

abbrev pub array_of : List Value → Values
array_of [] = Values.no_values
array_of (v ∷ vs) = Values.value_and v (array_of vs)

abbrev pub object_of : List (Text × Value) → Members
object_of [] = Members.no_members
object_of ((k, v) ∷ ms) = Members.member_and k v (object_of ms)
