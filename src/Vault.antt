-- ===== src/Vault.antt =====
-- src/vault.rs: secrets from the `atlas-vault` program, with a cache, and the redaction of what is
-- cached. The program's answer and the environment are taken from outside. The lock on the cache is not
-- poisoned. The `HashMap` is an association list; what is proved holds in every order of its values.
pub mod Secrets
mod Examples
use aegis_runtime.Security.Workspace.{concat}
use aegis_runtime.Prelude.{
  String, List, [], ◌∷◌, map, Option, none, some, Bool, true, false, ◌||◌, Result, ok, err, str_eq,
  leb, lookup, insert, is_empty, trim, byte_len, replace, if◌then◌else◌,
}

abbrev pub redacted_marker : String
redacted_marker = "[REDACTED_BY_ATLAS_VAULT]"

-- `atlas-vault get key`: none where it cannot be run, else whether it succeeded and what it printed.
pub record Host : Type 0 where
  pub atlas_vault : String → Option (Bool × String)
  pub env_var : String → Option String

unfoldable pub dev_secret_fallback_enabled : Host → Bool
dev_secret_fallback_enabled host = elim (host.env_var "AIEN_DEV_SECRET_FALLBACK") [
  | none ↦ false
  | some v ↦ str_eq v "1" || str_eq v "true" || str_eq v "on"
]

abbrev pub Cache : Type 0
Cache = List (String × String)

-- What the program printed, trimmed, if it succeeded and that is not empty.
unfoldable pub from_vault : Option (Bool × String) → Option String
from_vault none = none
from_vault (some (success, stdout)) =
    if success then (if is_empty (trim stdout) then none else some (trim stdout)) else none

abbrev pub not_returned : String → String
not_returned key = concat (
    "Secret '" ∷ key
    ∷ "' was not returned by atlas-vault. VaultResolver is a client of atlas-vault, not a TPM. Process-environment fallback is off unless AIEN_DEV_SECRET_FALLBACK=1."
    ∷ [])

abbrev pub found : Cache → String → String → Cache × Result String String
found cache key val = (insert key val cache, ok val)

module _ (host : Host) where
  -- The fallback, from the environment.
  abbrev pub from_env : Cache → String → Option String → Cache × Result String String
  from_env cache key (some val) =
      if dev_secret_fallback_enabled host
      then found cache key val
      else (cache, err (not_returned key))
  from_env cache key none = (cache, err (not_returned key))

  abbrev pub asked : Cache → String → Option String → Cache × Result String String
  asked cache key (some val) = found cache key val
  asked cache key none = from_env cache key (host.env_var key)

  abbrev pub uncached : Cache → String → Option String → Cache × Result String String
  uncached cache key (some val) = (cache, ok val)
  uncached cache key none = asked cache key (from_vault (host.atlas_vault key))

  unfoldable pub resolve_secret : Cache → String → Cache × Result String String
  unfolding from_vault
  resolve_secret cache key =
      if is_empty (trim key)
      then (cache, err "Secret key cannot be empty")
      else uncached cache key (lookup key cache)

abbrev pub insert_cached : Cache → (key secret : String) → Cache
insert_cached cache key secret = insert key secret cache

abbrev pub has_cached : Cache → String → Bool
has_cached cache key = elim (lookup key cache) [ some v ↦ true | none ↦ false ]

-- The loop over the cached values.
unfoldable pub redact_values : List String → String → String
redact_values [] sanitized = sanitized
redact_values (val ∷ vals) sanitized =
    redact_values vals
      (if leb 4 (byte_len val) then replace sanitized val redacted_marker else sanitized)

unfoldable pub redact_sensitive_text : Cache → String → String
unfolding redact_values
redact_sensitive_text cache text = redact_values (map (λ e. e.1) cache) text
