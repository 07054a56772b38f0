-- ===== src/Redaction.antt =====
-- The redaction of texts: `redact_payload_echoes` of src/failure.rs, and the text replacement that it
-- shares with src/vault.rs.
pub mod Gone
use aegis_runtime.Json.{Value, collect_strings}
use aegis_runtime.Prelude.{
  ℕ, String, List, [], ◌∷◌, byte_len, leb, order_by, text_contains, replace, if◌then◌else◌,
}

abbrev pub redaction_placeholder : String
redaction_placeholder = "[redacted]"

-- The loop over the values.
unfoldable pub redact_all : (placeholder : String) → List String → String → String
redact_all placeholder [] out = out
redact_all placeholder (v ∷ vs) out =
    redact_all placeholder vs (if text_contains out v then replace out v placeholder else out)

-- Longest first; values of one length keep their order.
abbrev pub longest_first : List String → List String
longest_first values = order_by (λ a b. leb (byte_len b) (byte_len a)) values

unfoldable pub redact_payload_echoes : String → Value → String
unfolding redact_all
redact_payload_echoes message args =
    redact_all redaction_placeholder (longest_first (collect_strings args)) message
