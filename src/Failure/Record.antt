-- ===== src/Failure/Record.antt =====
-- src/failure.rs: failure records with bounded causes, and the walk to a root cause. Hashing and the
-- serialiser are parameters (`Hashing`).
use aegis_runtime.Json.{Value}
use aegis_runtime.Failure.Kinds.{FailureClass, EffectCertainty}
use aegis_runtime.Prelude.{
  ℕ, zero, suc, ◌+◌, ◌-◌, ◌/◌, ◌%◌, String, List, [], ◌∷◌, ◌++◌, Option, none, some, Bool, true,
  false, ◌&&◌, str_eq, leb, ◌==◌, byte_len, utf8_width, length, find, rfind, if◌then◌else◌,
  text_append,
}

abbrev pub max_cause_entries : ℕ
max_cause_entries = 8

abbrev pub max_cause_message_bytes : ℕ
max_cause_message_bytes = 512

pub record CauseEntry : Type 0 where
  pub source : String
  pub message : String
  pub payload_digest : Option String

pub record FailureRecord : Type 0 where
  pub sequence : ℕ
  pub run_id : String
  pub step_index : ℕ
  pub tool_call_id : String
  pub parent_call_id : Option String
  pub tool_name : String
  pub attempt : ℕ
  pub class : FailureClass
  pub effect_certainty : EffectCertainty
  pub created_at : ℕ
  pub failed_at : ℕ
  pub cause : List CauseEntry
  pub cause_truncated : Bool

-- `str::is_char_boundary`, and `&s[..end]` at such a place.
abbrev pub is_char_boundary : String → ℕ → Bool
is_char_boundary String.[] n = n == 0
is_char_boundary (String.◌∷◌ c s) n =
    let rest = is_char_boundary s (n - utf8_width c) in
    if n == 0 then true else if leb (utf8_width c) n then rest else false

abbrev pub slice_to : String → ℕ → String
slice_to String.[] n = String.[]
slice_to (String.◌∷◌ c s) n =
    let rest = slice_to s (n - utf8_width c) in
    if leb (utf8_width c) n then String.◌∷◌ c rest else String.[]

-- The `while` loop of `truncate_bytes`: the first boundary at or below `end`.
unfoldable pub boundary_at_most : String → ℕ → ℕ
boundary_at_most s zero = zero
boundary_at_most s (suc n) =
    let lower = boundary_at_most s n in if is_char_boundary s (suc n) then suc n else lower

unfoldable pub truncate_bytes : String → ℕ → String
unfolding boundary_at_most
truncate_bytes s max = if leb (byte_len s) max then s else slice_to s (boundary_at_most s max)

-- `serde_json::to_vec` (`none` where it fails) and `Sha256::digest`, as they stand in their crates.
pub record Hashing : Type 0 where
  pub to_vec : Value → Option (List ℕ)
  pub sha256 : List ℕ → List ℕ

-- `format!("{:02x}", b)`
nth_char : String → ℕ → String
nth_char String.[] i = String.[]
nth_char (String.◌∷◌ c s) zero = String.◌∷◌ c String.[]
nth_char (String.◌∷◌ c s) (suc i) = nth_char s i

hex_byte : ℕ → String
unfolding nth_char
hex_byte b =
    let digits : String = "0123456789abcdef" in
    text_append (nth_char digits (b / 16 % 16)) (nth_char digits (b % 16))

hex : List ℕ → String
unfolding hex_byte
hex [] = ""
hex (b ∷ bs) = text_append (hex_byte b) (hex bs)

unfoldable pub payload_digest : Hashing → Value → String
unfolding hex
payload_digest h payload =
    let bytes : List ℕ = elim (h.to_vec payload) [ some b ↦ b | none ↦ [] ] in
    text_append "sha256:" (hex (h.sha256 bytes))

-- `FailureRecord::new`
abbrev pub new_record :
    ℕ
    → String
    → ℕ
    → String
    → Option String
    → String
    → ℕ
    → FailureClass
    → EffectCertainty
    → ℕ
    → ℕ
    → FailureRecord
new_record sequence run_id step_index call parent tool attempt class certainty created ended =
    record {
      sequence = sequence;
      run_id = run_id;
      step_index = step_index;
      tool_call_id = call;
      parent_call_id = parent;
      tool_name = tool;
      attempt = attempt;
      class = class;
      effect_certainty = certainty;
      created_at = created;
      failed_at = ended;
      cause = [];
      cause_truncated = false;
    }

-- The entry that `push_cause` makes.
abbrev pub cause_entry : Hashing → String → String → Option Value → CauseEntry
cause_entry h source message payload = record {
  source = source;
  message = truncate_bytes message max_cause_message_bytes;
  payload_digest = elim payload [ none ↦ none | some p ↦ some (payload_digest h p) ];
}

unfoldable pub push_cause : Hashing → FailureRecord → String → String → Option Value → FailureRecord
push_cause h r source message payload =
    if leb max_cause_entries (length r.cause)
    then record r { cause_truncated = true }
    else record r { cause = r.cause ++ cause_entry h source message payload ∷ [] }

unfoldable pub with_cause : Hashing → FailureRecord → String → String → Option Value → FailureRecord
with_cause = push_cause

-- `root_cause`: the first lookup, then at most `records.len() + 1` steps up.
abbrev pub same_attempt : FailureRecord → FailureRecord → Bool
same_attempt start r = str_eq r.tool_call_id start.tool_call_id && r.attempt == start.attempt

abbrev pub parent_of : List FailureRecord → FailureRecord → Option FailureRecord
parent_of records current = elim current.parent_call_id [
  | none ↦ none
  | some pid ↦ rfind (λ r. str_eq r.tool_call_id pid) records
]

-- The `match parent` of the loop: where it goes next, if it goes on.
abbrev pub next_up : List FailureRecord → FailureRecord → Option FailureRecord
next_up records current = elim (parent_of records current) [
  | none ↦ none
  | some p ↦ if p.sequence == current.sequence then none else some p
]

unfoldable pub climb : ℕ → List FailureRecord → FailureRecord → FailureRecord
climb zero records current = current
climb (suc n) records current = elim (next_up records current) [
  | none ↦ current
  | some p ↦ climb n records p
]

unfoldable pub root_cause : List FailureRecord → FailureRecord → Option FailureRecord
unfolding climb
root_cause records start = elim (find (same_attempt start) records) [
  | none ↦ none
  | some r ↦ some (climb (length records + 1) records r)
]
