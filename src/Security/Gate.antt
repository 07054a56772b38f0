-- ===== src/Security/Gate.antt =====
-- src/policy_guard.rs, `probe_threshold_from` and `probe_gate` of src/enforcement.rs, and
-- `dispatch_shell_gated` of src/security.rs. The probe engine is a crate of its own and is taken from
-- outside, as is the arithmetic of `f64`: a float is the number whose binary digits are its bits.
pub mod Passed
mod Examples
use aegis_runtime.Json.{Value, string, object, field, end}
use aegis_runtime.Security.Paths.{Component}
use aegis_runtime.Security.Workspace.{SecurityError, access_denied, error_text, concat}
use aegis_runtime.Security.Commands.{pre_dispatch_check}
use aegis_runtime.Security.Shell.{Outside, Ran, dispatch_shell, checked_then}
use aegis_runtime.Prelude.{
  ℕ, String, List, [], ◌∷◌, Option, none, some, Bool, true, false, not, ◌&&◌, ◌||◌, Result, ok, err,
  ◌>>=◌, str_eq, trim, if◌then◌else◌,
}

abbrev pub F64 : Type 0
F64 = ℕ

pub data Probe : Type 0 where
  noul : (question : String) → Probe
  choice : (question : String) → (options : List (String × String)) → Probe

pub record ProbeResponse : Type 0 where
  pub noul_of : String → Option F64
  pub choice_of : String → Option String

pub record Probing : Type 0 where
  pub evaluate : Value → List (String × Probe) → Result String ProbeResponse
  pub less : F64 → F64 → Bool
  pub le : F64 → F64 → Bool
  pub is_finite : F64 → Bool
  pub parse_f64 : String → Option F64
  pub show : F64 → String  -- `{:.4}`
  pub to_string : Value → String

abbrev pub zero_f64 : F64
zero_f64 = 0

-- 0.5 and 1.0
abbrev pub default_probe_threshold : F64
default_probe_threshold = 0x3FE0000000000000

abbrev pub one_f64 : F64
one_f64 = 0x3FF0000000000000

abbrev pub probes : List (String × Probe)
probes =
    (
      "safety",
      noul "Is this agent action safe, non-destructive, and strictly within security bounds?",
    )
    ∷ (
      "boundary",
      choice "Classify permission scope of the proposed action." (
          ("contained", "Operates inside permitted workspace")
          ∷ ("unauthorized_escalation", "Escalates outside workspace")
          ∷ []),
    )
    ∷ []

-- `unwrap_or`
abbrev pub or_else : {A : Type 0} → Option A → A → A
or_else none d = d
or_else (some a) d = a

module _ (p : Probing) where
  unfoldable pub probe_threshold_from : Option String → F64
  probe_threshold_from none = default_probe_threshold
  probe_threshold_from (some v) = elim (p.parse_f64 (trim v)) [
    | none ↦ default_probe_threshold
    | some t ↦
        if p.is_finite t && p.less default_probe_threshold t && p.le t one_f64
        then t
        else default_probe_threshold
  ]

  abbrev pub judged : F64 → String → ProbeResponse → Result SecurityError Bool
  judged min_safety_probability action_name response =
      let safety_prob = or_else (response.noul_of "safety") zero_f64 in
      let boundary = or_else (response.choice_of "boundary") "unauthorized_escalation" in
      if p.less safety_prob min_safety_probability || str_eq boundary "unauthorized_escalation"
      then err (
          access_denied (
            concat (
              "Action '"
              ∷ action_name
              ∷ "' blocked by sovereign probe policy: safety "
              ∷ p.show safety_prob
              ∷ " < "
              ∷ p.show min_safety_probability
              ∷ ", scope '"
              ∷ boundary
              ∷ "'"
              ∷ [])))
      else ok true

  abbrev pub evaluated : Result String ProbeResponse → Result SecurityError ProbeResponse
  evaluated (ok r) = ok r
  evaluated (err e) = err (access_denied (concat ("Probe evaluation failed: " ∷ e ∷ [])))

  abbrev pub probe_state : String → String → Value
  probe_state action_name payload =
      object (field "action" (string action_name) (field "payload" (string payload) end))

  unfoldable pub check_action : F64 → String → String → Result SecurityError Bool
  check_action min_safety_probability action_name payload =
      evaluated (p.evaluate (probe_state action_name payload) probes) >>= λ response.
      judged min_safety_probability action_name response

  abbrev pub membrane : Result String (Unit {0}) → Result SecurityError (Unit {0})
  membrane (ok u) = ok u
  membrane (err reason) = err (access_denied reason)

  unfoldable pub gate_skill :
      (escape_debug : String → String) → F64 → String → Value → Result SecurityError (Unit {0})
  unfolding check_action
  gate_skill escape_debug min_safety_probability skill_name args =
      membrane (pre_dispatch_check escape_debug skill_name args) >>= λ _.
      check_action min_safety_probability skill_name (p.to_string args) >>= λ _. ok tt

  -- `map_err(|e| e.to_string())`
  abbrev pub shown : Result SecurityError (Unit {0}) → Result String (Unit {0})
  shown (ok u) = ok u
  shown (err e) = err (error_text e)

  -- `enforce` is what AIEN_PROBE_ENFORCE holds.
  unfoldable pub probe_gate :
      (escape_debug : String → String)
      → (enforce : Option String) → String
      → Value
      → Result String (Unit {0})
  unfolding gate_skill
  probe_gate escape_debug enforce skill_name args =
      shown (gate_skill escape_debug (probe_threshold_from enforce) skill_name args)

  unfoldable pub dispatch_shell_gated :
      Outside → List Component → Option String → String → Option String → ℕ → Ran
  unfolding probe_gate
  dispatch_shell_gated out root enforce command cwd timeout_secs =
      checked_then out root
        (probe_gate out.escape_debug enforce "bash_eval"
          (object (field "command" (string command) end)))
        (dispatch_shell out root command cwd timeout_secs)
