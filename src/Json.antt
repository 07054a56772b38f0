-- ===== src/Json.antt =====
-- `serde_json::Value`, with the constructors that its documentation gives, and the walk over it in
-- failure.rs. A number is kept as the text that it prints as; an object keeps its fields in order.
use aegis_runtime.Prelude.{
  String, List, [], ◌∷◌, ◌++◌, Option, none, some, Bool, true, false, str_eq, leb, byte_len,
  if◌then◌else◌,
}

mutual
  pub data Value : Type 0 where
    null : Value
    bool : Bool → Value
    number : String → Value
    string : String → Value
    array : Items → Value
    object : Fields → Value

  pub data Items : Type 0 where
    nil : Items
    cons : Value → Items → Items

  pub data Fields : Type 0 where
    end : Fields
    field : String → Value → Fields → Fields

-- `Value::is_object`, `Value::is_null`, `Value::get`
abbrev pub is_object : Value → Bool
is_object (object _) = true
is_object _ = false

abbrev pub is_null : Value → Bool
is_null null = true
is_null _ = false

abbrev pub field_of : Fields → String → Option Value
field_of end k = none
field_of (field j v fs) k = if str_eq j k then some v else field_of fs k

abbrev pub get : Value → String → Option Value
get (object fs) k = field_of fs k
get _ k = none

unfoldable mutual
  pub collect_strings : Value → List String
  collect_strings (string s) = if leb 4 (byte_len s) then s ∷ [] else []
  collect_strings (array xs) = collect_items xs
  collect_strings (object fs) = collect_fields fs
  collect_strings _ = []

  pub collect_items : Items → List String
  collect_items nil = []
  collect_items (cons x xs) = collect_strings x ++ collect_items xs

  pub collect_fields : Fields → List String
  collect_fields end = []
  collect_fields (field k v fs) = collect_strings v ++ collect_fields fs
