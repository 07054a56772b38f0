-- ===== src/Security/Gate/Passed.antt =====
-- What passes the probe gate of src/policy_guard.rs and src/enforcement.rs.
use aegis_runtime.Json.{Value, string, object, field, end}
use aegis_runtime.Security.Workspace.{SecurityError}
use aegis_runtime.Security.Commands.{pre_dispatch_check}
use aegis_runtime.Security.Gate.{
  F64, ProbeResponse, Probing, zero_f64, default_probe_threshold, one_f64, probes, or_else,
  probe_threshold_from, judged, probe_state, gate_skill, shown, probe_gate, dispatch_shell_gated,
}
use aegis_runtime.Security.Paths.{Component}
use aegis_runtime.Security.Shell.{Outside, checked_then, dispatch_shell}
use aegis_runtime.Security.Shell.Dispatch.{IsAdmitted, dispatch_shell-IsAdmitted}
use aegis_runtime.Prelude.{
  ℕ, List, In, String, ◌≡◌, ◌≢◌, ◌↔◌, ◌⊎◌, refl, Option, none, some, Bool, true, false, ◌&&◌,
  Result, ok, err, >>=-eq-ok, eq_iff, Bool-cases, Option-cases, inl, inr, arith, trim,
}

-- The probe finds the action safe enough, and inside the workspace.
pub record IsJudgedSafe (p : Probing) (threshold : F64) (r : ProbeResponse) : Type 0 where
  pub scope : String
  pub answered : r.choice_of "boundary" ≡ some scope
  pub contained : scope ≢ "unauthorized_escalation"
  pub safe : p.less (or_else (r.noul_of "safety") zero_f64) threshold ≡ false

module _ (p : Probing) where
  judged-IsJudgedSafe :
      (threshold : F64) (name : String) (r : ProbeResponse) (b : Bool) (scope : Option String)
      → r.choice_of "boundary" ≡ scope
      → judged p threshold name r ≡ ok b
      → IsJudgedSafe p threshold r
  judged-IsJudgedSafe threshold name r b none e h = absurd (ground (arith, rw e at h))
  judged-IsJudgedSafe threshold name r b (some scope) e h =
      let verdict = rw e at h in
      record {
        scope = scope;
        answered = e;
        contained = ground (arith, verdict, eq_iff scope "unauthorized_escalation");
        safe = ground (arith, verdict);
      }

  judged-ok :
      (threshold : F64) (name : String) (r : ProbeResponse)
      → IsJudgedSafe p threshold r
      → judged p threshold name r ≡ ok true
  judged-ok threshold name r i =
      rw i.answered (ground (arith, i.contained, i.safe, eq_iff i.scope "unauthorized_escalation"))

  threshold-ge :
      (enforce : Option String)
      → (probe_threshold_from p enforce ≡ default_probe_threshold)
        ⊎ (p.less default_probe_threshold (probe_threshold_from p enforce) ≡ true)
  unfolding probe_threshold_from
  threshold-ge none = inl refl
  threshold-ge (some v) = elim (Option-cases (p.parse_f64 (trim v))) [
    | inl e ↦ inl (ground (arith, e))
    | inr (t, e) ↦
        elim (Bool-cases (p.is_finite t && p.less default_probe_threshold t && p.le t one_f64)) [
          | inl strict ↦ inr (ground (arith, e, strict))
          | inr loose ↦ inl (ground (arith, e, loose))
        ]
  ]

  -- What a skill with arguments has gone through when the gate lets it pass.
  pub record Passes (escape_debug : String → String) (enforce : Option String) (name : String)
      (args : Value) : Type 0 where
    pub admitted : pre_dispatch_check escape_debug name args ≡ ok tt
    pub response : ProbeResponse
    pub probed : p.evaluate (probe_state p name (p.to_string args)) probes ≡ ok response
    pub judgement : IsJudgedSafe p (probe_threshold_from p enforce) response
    pub floor : IsJudgedSafe p default_probe_threshold response

  module _ (less_trans : (a b c : F64) → p.less a b ≡ true → p.less b c ≡ true → p.less a c ≡ true)
      (escape_debug : String → String) (enforce : Option String) (name : String)
      (args : Value) where
    lowered :
        (r : ProbeResponse)
        → IsJudgedSafe p (probe_threshold_from p enforce) r
        → IsJudgedSafe p default_probe_threshold r
    lowered r i = record {
      scope = i.scope;
      answered = i.answered;
      contained = i.contained;
      safe = elim (threshold-ge enforce) [
        | inl same ↦ rw same at i.safe
        | inr above ↦
            elim (Bool-cases
              (p.less (or_else (r.noul_of "safety") zero_f64) default_probe_threshold)) [
                | inr fine ↦ fine
                | inl under ↦ absurd (cc (less_trans _ _ _ under above, i.safe))
              ]
      ];
    }

    passed :
        (check : Result String (Unit {0}))
        → pre_dispatch_check escape_debug name args ≡ check
        → (answer : Result String ProbeResponse)
        → p.evaluate (probe_state p name (p.to_string args)) probes ≡ answer
        → gate_skill p escape_debug (probe_threshold_from p enforce) name args ≡ ok tt
        → Passes escape_debug enforce name args
    unfolding gate_skill
    passed (err reason) c answer e h = absurd (cc (rw c at h))
    passed (ok tt) c (err failed) e h = absurd (cc (rw (c, e) at h))
    passed (ok tt) c (ok r) e h =
        let (b, verdict, _) =
          >>=-eq-ok (judged p (probe_threshold_from p enforce) name r) (λ _. ok tt)
            (rw (c, e) at h) in
        let i = judged-IsJudgedSafe (probe_threshold_from p enforce) name r b _ refl verdict in
        record { admitted = c; response = r; probed = e; judgement = i; floor = lowered r i }

    gate-ok :
        Passes escape_debug enforce name args → probe_gate p escape_debug enforce name args ≡ ok tt
    unfolding probe_gate
    gate-ok i =
        rw
          (
            i.admitted,
            i.probed,
            judged-ok (probe_threshold_from p enforce) name i.response i.judgement,
          )
          refl

    shown-ok : (r : Result SecurityError (Unit {0})) → shown p r ≡ ok tt → r ≡ ok tt
    shown-ok (ok tt) h = refl
    shown-ok (err e) h = absurd (cc)

    -- If `<` on floats is transitive, the gate lets a skill pass exactly when the membrane admits it,
    -- the probe answers, finds it contained, and its safety is not below the threshold; the safety is
    -- then not below 0.5, whatever the environment says, and a missing answer does not pass for one.
    pub probe_gate_iff :
        (probe_gate p escape_debug enforce name args ≡ ok tt)
        ↔ Passes escape_debug enforce name args
    unfolding probe_gate
    probe_gate_iff = (
      λ h.
          passed _ refl _ refl
            (shown-ok (gate_skill p escape_debug (probe_threshold_from p enforce) name args) h),
      gate-ok,
    )

  -- If `<` on floats is transitive, whatever `dispatch_shell_gated` hands to the shell has passed the
  -- gate, and is a catalogued form in a directory under the root.
  pub dispatch_shell_gated-Passes :
      (less_trans : (a b c : F64) → p.less a b ≡ true → p.less b c ≡ true → p.less a c ≡ true)
      (out : Outside) (root : List Component) (enforce : Option String) (command : String)
      (cwd : Option String) (timeout_secs : ℕ) (line : String) (dir : List Component)
      → In (line, dir) (dispatch_shell_gated p out root enforce command cwd timeout_secs).ran
      → Passes out.escape_debug enforce "bash_eval" (object (field "command" (string command) end))
        × IsAdmitted out root command timeout_secs line dir
  unfolding dispatch_shell_gated
  dispatch_shell_gated-Passes trans out root enforce command cwd timeout_secs line dir m =
      through (probe_gate p out.escape_debug enforce "bash_eval" args) refl m
    where
      args : Value
      args = object (field "command" (string command) end)

      through :
          (r : Result String (Unit {0}))
          → probe_gate p out.escape_debug enforce "bash_eval" args ≡ r
          → In
              (line, dir)
              (checked_then out root r (dispatch_shell out root command cwd timeout_secs)).ran
          → Passes out.escape_debug enforce "bash_eval" args
            × IsAdmitted out root command timeout_secs line dir
      through (err e) g n = elim n [ ]
      through (ok tt) g n = (
        (probe_gate_iff trans out.escape_debug enforce "bash_eval" args).0 g,
        dispatch_shell-IsAdmitted out root command cwd timeout_secs line dir n,
      )
