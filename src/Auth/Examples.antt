-- ===== src/Auth/Examples.antt =====
-- Requests and addresses of src/auth.rs.
use aegis_runtime.Auth.Bytes.{constant_time_eq}
use aegis_runtime.Auth.Bytes.Equality.{constant_time_eq_iff}
use aegis_runtime.Auth.Operator.{
  OperatorAuth, Request, next, other, with_token, presented_token, is_public, require_operator,
}
use aegis_runtime.Auth.Guard.{IsVisible, require_operator_iff}
use aegis_runtime.Prelude.{
  ℕ, String, ◌≡◌, refl, ◌↔◌, ◌⊎◌, List, [], ◌∷◌, none, some, true, ok, trim, is_whitespace,
  utf8_width, arith,
}

abbrev secret : String
secret = "0123456789abcdef0123456789abcdef"

abbrev operator : OperatorAuth
operator = record { token = some secret }

abbrev shell_request : Request
shell_request = record {
  method = other "POST";
  path = "/api/v1/shell";
  authorization = some "Bearer 0123456789abcdef0123456789abcdef";
  operator_token = none;
}

accepts : with_token secret ≡ ok operator
unfolding with_token trim is_whitespace utf8_width
accepts = refl

visible : IsVisible shell_request
visible = record { authorization = refl; operator_token = tt }

abbrev two_bytes : List ℕ
two_bytes = 1 ∷ 2 ∷ []

constant_time_eq_iff_example :
    (constant_time_eq two_bytes (1 ∷ 3 ∷ []) ≡ true) ↔ (two_bytes ≡ 1 ∷ 3 ∷ [])
constant_time_eq_iff_example =
    constant_time_eq_iff two_bytes (1 ∷ 3 ∷ []) (omega arith, (omega arith, tt))
      (omega arith, (omega arith, tt))

require_operator_iff_example : (require_operator operator shell_request ≡ next) ↔ (
    (is_public (other "POST") "/api/v1/shell" ≡ true)
    ⊎ (presented_token shell_request ≡ some (trim secret)))
require_operator_iff_example = require_operator_iff secret operator shell_request accepts visible
