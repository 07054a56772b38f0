-- ===== src/Vault/Examples.antt =====
-- Secrets of src/vault.rs.
use aegis_runtime.Redaction.Gone.{redact_payload_echoes-gone}
use aegis_runtime.Redaction.{redact_payload_echoes, redact_all}
use aegis_runtime.Json.{Value, string, object, field, end, collect_strings}
use aegis_runtime.Vault.{Host, Cache, resolve_secret, redact_sensitive_text}
use aegis_runtime.Vault.Secrets.{IsResolved, resolve_secret-IsResolved, redact_sensitive_text-gone}
use aegis_runtime.Prelude.{
  ◌≡◌, refl, [], ◌∷◌, none, some, true, false, ok, here, there, insert, trim, is_whitespace,
  replace, utf8_width, text_contains, arith,
}

abbrev host : Host
host = record { atlas_vault = λ key. some (true, "s3cr3t-a\n"); env_var = λ key. none }

resolves : resolve_secret host [] "A" ≡ (("A", "s3cr3t-a") ∷ [], ok "s3cr3t-a")
unfolding resolve_secret trim is_whitespace insert
resolves = refl

abbrev cache : Cache
cache = ("A", "s3cr3t-a") ∷ ("B", "s3cr3t-ab") ∷ []

redacts : redact_sensitive_text cache "bearer s3cr3t-a." ≡ "bearer [REDACTED_BY_ATLAS_VAULT]."
unfolding redact_sensitive_text replace utf8_width
redacts = refl

-- The shorter secret comes first here, and what is left of the longer one stays.
half_redacts :
    redact_sensitive_text cache "bearer s3cr3t-ab." ≡ "bearer [REDACTED_BY_ATLAS_VAULT]b."
unfolding redact_sensitive_text replace utf8_width
half_redacts = refl

resolve_secret-IsResolved_example : IsResolved host cache "A" (resolve_secret host cache "A")
resolve_secret-IsResolved_example = resolve_secret-IsResolved host cache "A"

redact_sensitive_text-gone_example :
    text_contains (redact_sensitive_text cache "bearer s3cr3t-ab.") "s3cr3t-ab" ≡ false
unfolding utf8_width
redact_sensitive_text-gone_example =
    redact_sensitive_text-gone cache "bearer s3cr3t-ab." "s3cr3t-ab" (there (here refl))
      (omega arith) (refl, refl) refl

abbrev args : Value
args = object (field "path" (string "key-123") (field "content" (string "key-123456") end))

redacts_longest :
    redact_payload_echoes "no file key-123456 at key-123" args ≡ "no file [redacted] at [redacted]"
unfolding redact_payload_echoes redact_all replace utf8_width collect_strings
redacts_longest = refl

redact_payload_echoes-gone_example :
    text_contains (redact_payload_echoes "no file key-123456" args) "key-123" ≡ false
unfolding collect_strings utf8_width
redact_payload_echoes-gone_example =
    redact_payload_echoes-gone "no file key-123456" "key-123" args (here refl) (refl, refl) refl
