-- ===== src/Security/Gate/Examples.antt =====
-- A skill at the gate of src/policy_guard.rs.
use aegis_runtime.Json.{Value, string, object, field, end}
use aegis_runtime.Security.Commands.{pre_dispatch_check}
use aegis_runtime.Security.Gate.{Probing, probe_gate, probe_threshold_from}
use aegis_runtime.Security.Gate.Passed.{Passes, probe_gate_iff}
use aegis_runtime.Security.Sample.{probing, less_trans}
use aegis_runtime.Prelude.{◌≡◌, refl, ◌↔◌, ok, err, none, some, trim, is_whitespace}

abbrev args : Value
args = object (field "path" (string "a") end)

lets_pass : probe_gate probing (λ s. s) none "read_file" args ≡ ok tt
unfolding probe_gate pre_dispatch_check trim is_whitespace probe_threshold_from
lets_pass = refl

-- A probe that does not say where the action is confined.
abbrev silent : Probing
silent = record probing {
  evaluate =
      λ state ps. ok (record { noul_of = λ k. some 0x3FF0000000000000; choice_of = λ k. none });
}

refuses_silence :
    probe_gate silent (λ s. s) none "read_file" args
    ≡ err
        "Security rejection: Action 'read_file' blocked by sovereign probe policy: safety 0.9000 < 0.9000, scope 'unauthorized_escalation'"
unfolding probe_gate pre_dispatch_check trim is_whitespace probe_threshold_from
refuses_silence = refl

probe_gate_iff_example :
    (probe_gate probing (λ s. s) none "read_file" args ≡ ok tt)
    ↔ Passes probing (λ s. s) none "read_file" args
probe_gate_iff_example = probe_gate_iff probing less_trans (λ s. s) none "read_file" args
