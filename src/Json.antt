-- ===== src/Json.antt =====
-- encoding/json, as internal/upstream/client.go and internal/mockhttp/response.go use it: the values
-- of documents, in the order of the text and with numbers as they are spelled.
pub mod Strings
pub mod Scanner
pub mod Encoder
pub mod Quoting
pub mod Numbers
pub mod RoundTrip
pub mod Structs
pub mod Times
pub mod Integers
use factory_demo.Base.{ℕ, [], ◌∷◌, Bool, ◌||◌, ◌==◌, if◌then◌else◌}
use factory_demo.Text.{Text}

mutual
  pub data Value : Type 0 where
    null : Value
    boolean : Bool → Value
    number : Text → Value
    text : Text → Value
    array : Values → Value
    object : Members → Value

  pub data Values : Type 0 where
    no_values : Values
    value_and : Value → Values → Values

  pub data Members : Type 0 where
    no_members : Members
    member_and : Text → Value → Members → Members

-- The blank, \t, \n and \r.
abbrev pub is_space : ℕ → Bool
is_space c = c == 32 || c == 9 || c == 10 || c == 13

-- The white space in front of a text is dropped.
unfoldable pub skip_space : Text → Text
skip_space [] = []
skip_space (c ∷ s) = let rest = skip_space s in if is_space c then rest else c ∷ s
