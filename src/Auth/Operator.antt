-- ===== src/Auth/Operator.antt =====
-- `OperatorAuth`, `presented_token`, `is_public`, `require_operator` and `resolve_bind_addr` of
-- src/auth.rs.
use Prim.Native.Char.{Char, code}
use aegis_runtime.Auth.Bytes.{as_bytes, constant_time_eq}
use aegis_runtime.Prelude.{
  ℕ, String, List, [], ◌∷◌, Option, none, some, Bool, true, false, not, ◌&&◌, Result, ok, err, ltb,
  leb, ◌==◌, contains, byte_len, any_char, is_empty, trim, if◌then◌else◌,
}

abbrev pub min_token_len : ℕ
min_token_len = 32

abbrev pub public_read_paths : List String
public_read_paths =
    "/health" ∷ "/api/v1/health" ∷ "/v1/models" ∷ "/api/v1/skills" ∷ "/api/v1/events" ∷ "/events"
    ∷ []

pub record OperatorAuth : Type 0 where
  pub token : Option String

abbrev pub disabled : OperatorAuth
disabled = record { token = none }

-- `is_ascii_graphic`
abbrev pub is_graphic : Char → Bool
is_graphic c = leb 33 (code c) && leb (code c) 126

unfoldable pub with_token : String → Result String OperatorAuth
with_token token =
    let t = trim token in
    if ltb (byte_len t) min_token_len
    then err "operator token must be at least 32 characters"
    else if any_char (λ c. not (is_graphic c)) t
    then err "operator token must be printable ASCII without spaces"
    else ok (record { token = some t })

-- What the token file and the variable hold; a file that cannot be read has the message of its error.
abbrev pub load_env : Option String → Result String OperatorAuth
load_env none = ok disabled
load_env (some v) = if is_empty (trim v) then ok disabled else with_token v

abbrev pub load : Option (Result String String) → Option String → Result String OperatorAuth
load (some (ok raw)) env = with_token raw
load (some (err message)) env = err message
load none env = load_env env

abbrev pub is_configured : OperatorAuth → Bool
is_configured auth = elim auth.token [ some t ↦ true | none ↦ false ]

abbrev pub verify_token : Option String → Option String → Bool
verify_token (some expected) (some got) = constant_time_eq (as_bytes expected) (as_bytes got)
verify_token _ _ = false

abbrev pub verify : OperatorAuth → Option String → Bool
verify auth presented = verify_token auth.token presented

pub data Method : Type 0 where
  get head : Method
  other : String → Method

-- A request: its headers are those whose value is visible text.
pub record Request : Type 0 where
  pub method : Method
  pub path : String
  pub authorization : Option String
  pub operator_token : Option String

abbrev pub strip_prefix : String → String → Option String
strip_prefix String.[] s = some s
strip_prefix (String.◌∷◌ p ps) String.[] = none
strip_prefix (String.◌∷◌ p ps) (String.◌∷◌ c cs) =
    let rest = strip_prefix ps cs in if code p == code c then rest else none

abbrev pub trimmed : Option String → Option String
trimmed none = none
trimmed (some s) = some (trim s)

abbrev pub bearer : Option String → Option String
bearer none = none
bearer (some v) = strip_prefix "Bearer " v

unfoldable pub presented_token : Request → Option String
presented_token req = elim (bearer req.authorization) [
  | some rest ↦ some (trim rest)
  | none ↦ trimmed req.operator_token
]

abbrev pub is_read : Method → Bool
is_read get = true
is_read head = true
is_read (other m) = false

abbrev pub is_public : Method → String → Bool
is_public method path = is_read method && contains public_read_paths path

-- What the middleware does with a request: hand it on, or answer with a status.
pub data Response : Type 0 where
  next service_unavailable unauthorized : Response

unfoldable pub require_operator : OperatorAuth → Request → Response
unfolding presented_token
require_operator auth req =
    if is_public req.method req.path
    then next
    else if not (is_configured auth)
    then service_unavailable
    else if verify auth (presented_token req)
    then next
    else unauthorized

pub data IpAddr : Type 0 where
  v4 : (a b c d : ℕ) → IpAddr
  v6 : ℕ → IpAddr

abbrev pub is_loopback : IpAddr → Bool
is_loopback (v4 a b c d) = a == 127
is_loopback (v6 n) = n == 1

pub data BindError : Type 0 where
  not_an_address : String → BindError
  not_loopback : IpAddr → BindError

-- `parse` reads an address from a text.
unfoldable pub resolve_bind_addr :
    (parse : String → Option IpAddr) → String → ℕ → Bool → Result BindError (IpAddr × ℕ)
resolve_bind_addr parse host port allow_non_loopback = elim (parse (trim host)) [
  | none ↦ err (not_an_address host)
  | some ip ↦
      if not (is_loopback ip) && not allow_non_loopback
      then err (not_loopback ip)
      else ok (ip, port)
]
