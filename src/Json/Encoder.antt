-- ===== src/Json/Encoder.antt =====
-- The encoder of encoding/json on a value: no white space, and HTML escaped.
use factory_demo.Base.{[], ◌∷◌, ◌++◌, true, false}
use factory_demo.Text.{Text, codes}
use factory_demo.Json.{Value, Values, Members}
use factory_demo.Json.Strings.{quote}

unfoldable pub encode_string : Text → Text
unfolding quote
encode_string t = b'"' ∷ (quote 0 t ++ b'"' ∷ [])

unfoldable mutual
  unfolding encode_string

  pub encode : Value → Text
  encode Value.null = codes "null"
  encode (Value.boolean true) = codes "true"
  encode (Value.boolean false) = codes "false"
  encode (Value.number raw) = raw
  encode (Value.text t) = encode_string t
  encode (Value.array vs) = b'[' ∷ (encode_first vs ++ codes "]")
  encode (Value.object ms) = b'{' ∷ (encode_first_member ms ++ codes "}")

  pub encode_first : Values → Text
  encode_first Values.no_values = []
  encode_first (Values.value_and v vs) = encode v ++ encode_values vs

  pub encode_values : Values → Text
  encode_values Values.no_values = []
  encode_values (Values.value_and v vs) = b',' ∷ (encode v ++ encode_values vs)

  pub encode_first_member : Members → Text
  encode_first_member Members.no_members = []
  encode_first_member (Members.member_and k v ms) =
      encode_string k ++ b':' ∷ (encode v ++ encode_members ms)

  pub encode_members : Members → Text
  encode_members Members.no_members = []
  encode_members (Members.member_and k v ms) =
      b',' ∷ (encode_string k ++ b':' ∷ (encode v ++ encode_members ms))
