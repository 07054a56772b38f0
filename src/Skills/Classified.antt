-- ===== src/Skills/Classified.antt =====
-- The faults that `dispatch_classified` of src/skills.rs reports for the builtin skills.
use aegis_runtime.Json.{Value, get}
use aegis_runtime.Failure.{ToolFault, EffectCertainty, skill_effect_profile}
use aegis_runtime.Security.Paths.{Component, display}
use aegis_runtime.Security.Workspace.{
  SecurityError, command_failed, error_text, concat, resolve_dir_path,
}
use aegis_runtime.Security.Commands.{pre_dispatch_check}
use aegis_runtime.Security.Shell.{
  Outside, Output, is_timeout, Ran, output_result, ended, command_line, run_in, execute_shell,
  admitted_then, checked_then, dispatch_shell,
}
use aegis_runtime.Security.Gate.{or_else, probe_gate}
use aegis_runtime.Skills.{
  git, SkillDefinition, SkillHandler, Effect, ran, made_dirs, wrote, Handled, Env, Dispatched,
  classified, dispatched, admitted, dispatch_classified,
}
use aegis_runtime.Skills.Handlers.{
  log_args, as_str, shell_result, bash_eval, read_at, read_file, written, write_at, write_file,
  list_at, list_dir, status_at, git_at, git_status, status_args,
}
use aegis_runtime.Skills.Builtin.{with_workspace}
use aegis_runtime.Skills.Contained.{found}
use aegis_runtime.Prelude.{
  ℕ, String, ◌≡◌, ◌⊎◌, refl, List, [], ◌∷◌, map, Option, none, some, false, Result, ok, err, lookup,
  insert, All, text_starts_with, is_empty, trim, Bool-cases, inl, inr,
}

-- Effects that change nothing: a file is read, a directory listed, or git asked for the status or the
-- last commit.
abbrev pub IsReadOnly : Effect → Type 0
IsReadOnly (ran command line dir) = ⊥
IsReadOnly (made_dirs p) = ⊥
IsReadOnly (wrote p content) = ⊥
IsReadOnly (git p args) = (args ≡ status_args) ⊎ (args ≡ log_args)
IsReadOnly _ = Unit

-- What is reported without an effect has changed nothing.
abbrev pub IsHonest : List Effect → Result ToolFault String → Type 0
IsHonest effects (ok output) = Unit
IsHonest effects (err fault) = fault.certainty ≡ EffectCertainty.no_effect → All IsReadOnly effects

-- A command that reached the shell and failed says that its execution failed.
abbrev Failed : Ran → Type 0
Failed r =
    (r.ran ≡ [])
    ⊎ ((s : String) × (r.result ≡ ok s))
    ⊎ ((m : String) × (r.result ≡ err (command_failed m)))

output_result-cases :
    (cmd : String) (secs : ℕ) (o : Output)
    → ((s : String) × (output_result cmd secs o ≡ ok s))
      ⊎ ((m : String) × (output_result cmd secs o ≡ err (command_failed m)))
output_result-cases cmd secs o = elim (Bool-cases o.success) [
  | inl good ↦ rw good (inl (o.stdout, refl))
  | inr bad ↦ elim (Bool-cases (is_timeout o.code)) [
    | inl late ↦ rw (bad, late) (inr (_, refl))
    | inr early ↦ rw (bad, early) (inr (_, refl))
  ]
]

ended-cases :
    (cmd : String) (secs : ℕ) (r : Result String Output)
    → ((s : String) × (ended cmd secs r ≡ ok s))
      ⊎ ((m : String) × (ended cmd secs r ≡ err (command_failed m)))
ended-cases cmd secs (ok o) = output_result-cases cmd secs o
ended-cases cmd secs (err e) = inr (_, refl)

module _ (out : Outside) (root : List Component) where
  run_in-Failed :
      (cmd : String) (secs : ℕ) (r : Result SecurityError (List Component))
      → Failed (run_in out root cmd secs r)
  run_in-Failed cmd secs (err e) = inl refl
  run_in-Failed cmd secs (ok dir) = inr (ended-cases cmd secs (out.sh (command_line cmd secs) dir))

  checked-Failed :
      (c : Result String (Unit {0})) (a : Result SecurityError (Unit {0})) (r : Ran)
      → Failed r
      → Failed (checked_then out root c (admitted_then out root a r))
  checked-Failed (ok u) (ok u2) r f = f
  checked-Failed (ok u) (err e) r f = inl refl
  checked-Failed (err e) a r f = inl refl

  execute_shell-Failed :
      (command : String) (cwd : Option String) (secs : ℕ)
      → Failed (execute_shell out root command cwd secs)
  unfolding execute_shell
  execute_shell-Failed command cwd secs = elim (Bool-cases (is_empty (trim command))) [
    | inl blank ↦ rw blank (inl refl)
    | inr typed ↦ rw typed (run_in-Failed (trim command) secs (resolve_dir_path out.fs root cwd))
  ]

  dispatch_shell-Failed :
      (command : String) (cwd : Option String) (secs : ℕ)
      → Failed (dispatch_shell out root command cwd secs)
  unfolding dispatch_shell
  dispatch_shell-Failed command cwd secs =
      checked-Failed _ _ _ (execute_shell-Failed command cwd secs)

profile_bash : skill_effect_profile "bash_eval" ≡ false
unfolding skill_effect_profile
profile_bash = refl

profile_write : skill_effect_profile "write_file" ≡ false
unfolding skill_effect_profile
profile_write = refl

module _ (env : Env) where
  abbrev IsHonestFor : String → Handled → Type 0
  IsHonestFor name h = IsHonest h.effects (classified env name h).result

  read_only : (name : String) (h : Handled) → All IsReadOnly h.effects → IsHonestFor name h
  read_only name h safe = by_result h.result
    where
      by_result :
          (r : Result String String)
          → IsHonest h.effects
              (classified env name (record { effects = h.effects; result = r })).result
      by_result (ok v) = tt
      by_result (err e) = λ _. safe

  -- A failure that is not called unavailable, of a skill that is not idempotent, may have had an effect.
  risky :
      (name : String) (effects : List Effect) (e : String)
      → skill_effect_profile name ≡ false
      → text_starts_with e "Unavailable" ≡ false
      → IsHonestFor name (record { effects = effects; result = err e })
  risky name effects e profile plain = rw (plain, profile) (λ h. absurd (cc))

  bash-IsHonest :
      (cmd : String) (r : Ran)
      → Failed r
      → IsHonestFor "bash_eval"
          (record { effects = map (λ x. ran cmd x.0 x.1) r.ran; result = shell_result r.result })
  bash-IsHonest cmd r (inl none_ran) =
      read_only "bash_eval"
        (record { effects = map (λ x. ran cmd x.0 x.1) r.ran; result = shell_result r.result })
        (rw none_ran tt)
  bash-IsHonest cmd r (inr (inl (s, done))) = rw done tt
  bash-IsHonest cmd r (inr (inr (m, bad))) = rw bad (
      risky "bash_eval" (map (λ x. ran cmd x.0 x.1) r.ran) (error_text (command_failed m))
        profile_bash refl)

  write_at-IsHonest :
      (content : String) (r : Result SecurityError (List Component))
      → IsHonestFor "write_file" (write_at env content r)
  write_at-IsHonest content (err e) = read_only "write_file" (write_at env content (err e)) tt
  write_at-IsHonest content (ok p) = by_answer (env.write p content)
    where
      by_answer :
          (a : Result String (Unit {0}))
          → IsHonestFor "write_file" (record {
            effects = (write_at env content (ok p)).effects;
            result = written p content a;
          })
      by_answer (ok u) = tt
      by_answer (err e) =
          risky "write_file" (write_at env content (ok p)).effects
            (concat ("Failed to write file " ∷ display p ∷ ": " ∷ e ∷ [])) profile_write refl

  read_at-All : (r : Result SecurityError (List Component)) → All IsReadOnly (read_at env r).effects
  read_at-All (err e) = tt
  read_at-All (ok p) = (tt, tt)

  list_at-All : (r : Result SecurityError (List Component)) → All IsReadOnly (list_at env r).effects
  list_at-All (err e) = tt
  list_at-All (ok p) = (tt, tt)

  status_at-All :
      (p : List Component) (r : Result String String) → All IsReadOnly (status_at env p r).effects
  status_at-All p (ok s) = (inl refl, (inr refl, tt))
  status_at-All p (err e) = (inl refl, tt)

  git_at-All : (r : Result SecurityError (List Component)) → All IsReadOnly (git_at env r).effects
  git_at-All (err e) = tt
  git_at-All (ok p) = status_at-All p (env.git_output p status_args)

  abbrev IsHonestEntry : String → SkillDefinition × SkillHandler → Type 0
  IsHonestEntry name e = (args : Value) → IsHonestFor name (e.1 args)

  builtin-All : All (λ x. IsHonestEntry x.0 x.1) (with_workspace env)
  unfolding with_workspace insert bash_eval read_file write_file list_dir git_status
  builtin-All = (
    λ args. bash-IsHonest (or_else (as_str (get args "command")) "") _ (
        dispatch_shell-Failed env.out env.root (or_else (as_str (get args "command")) "")
          (as_str (get args "cwd")) 15),
    (
      λ args. read_only "read_file" (read_file env args) (read_at-All _),
      (
        λ args. write_at-IsHonest _ _,
        (
          λ args. read_only "list_dir" (list_dir env args) (list_at-All _),
          (
            λ args. read_only "git_status" (git_status env args) (git_at-All _),
            (λ args h. tt, (λ args h. tt, (λ args h. tt, tt))),
          ),
        ),
      ),
    ),
  )

  dispatched-IsHonest :
      (name : String) (o : Option (SkillDefinition × SkillHandler)) (args : Value)
      → lookup name (with_workspace env) ≡ o
      → IsHonest (dispatched env name o args).effects (dispatched env name o args).result
  dispatched-IsHonest name none args at = λ _. tt
  dispatched-IsHonest name (some e) args at =
      found env IsHonestEntry name (with_workspace env) e builtin-All at args

  admitted-IsHonest :
      (r : Result String (Unit {0})) (d : Dispatched env)
      → IsHonest d.effects d.result
      → IsHonest (admitted env r d).effects (admitted env r d).result
  admitted-IsHonest (ok u) d h = h
  admitted-IsHonest (err reason) d h = λ _. tt

  -- A builtin skill that reports a fault without an effect ran nothing in the shell, made no directory and
  -- wrote no file, and of git it asked at most `status --short` and `log -1 --oneline`.
  pub dispatch_classified-IsHonest :
      (name : String) (args : Value)
      → IsHonest
          (dispatch_classified env (with_workspace env) name args).effects
          (dispatch_classified env (with_workspace env) name args).result
  unfolding dispatch_classified
  dispatch_classified-IsHonest name args =
      let check = pre_dispatch_check env.out.escape_debug name args in
      let entry = lookup name (with_workspace env) in
      let d = dispatched env name entry args in
      admitted-IsHonest (probe_gate env.probing env.out.escape_debug env.enforce name args)
        (admitted env check d)
        (admitted-IsHonest check d (dispatched-IsHonest name entry args refl))
