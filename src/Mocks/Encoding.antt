-- ===== src/Mocks/Encoding.antt =====
-- What mockhttp.WriteJSON writes: encoding/json on maps, slices, strings and ints. The keys of a map are
-- sorted, and a line feed follows the value.
use factory_demo.Base.{[], ◌∷◌, ◌++◌, if◌then◌else◌}
use factory_demo.Text.{Text, text_lt, format_int}
use factory_demo.Json as json
use factory_demo.Json.Encoder.{encode}
use factory_demo.Mocks.{Value, Values, Members, Answer}

-- A member takes its place among members whose keys are sorted.
unfoldable pub insert_member : Text → json.Value → json.Members → json.Members
unfolding text_lt
insert_member k v json.Members.no_members = json.Members.member_and k v json.Members.no_members
insert_member k v (json.Members.member_and j w ms) =
    if text_lt j k
    then json.Members.member_and j w (insert_member k v ms)
    else json.Members.member_and k v (json.Members.member_and j w ms)

unfoldable mutual
  unfolding insert_member format_int

  pub marshal : Value → json.Value
  marshal (Value.text t) = json.Value.text t
  marshal (Value.number n) = json.Value.number (format_int n)
  marshal (Value.array vs) = json.Value.array (marshal_values vs)
  marshal (Value.object ms) = json.Value.object (marshal_members ms)

  pub marshal_values : Values → json.Values
  marshal_values Values.no_values = json.Values.no_values
  marshal_values (Values.value_and v vs) = json.Values.value_and (marshal v) (marshal_values vs)

  pub marshal_members : Members → json.Members
  marshal_members Members.no_members = json.Members.no_members
  marshal_members (Members.member_and k v ms) = insert_member k (marshal v) (marshal_members ms)

-- The body of an answer.
unfoldable pub written : Answer → Text
unfolding encode marshal
written answer = encode (marshal answer.value) ++ b'\n' ∷ []
