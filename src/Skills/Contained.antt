-- ===== src/Skills/Contained.antt =====
-- What the builtin skills of src/skills.rs do outside.
use aegis_runtime.Json.{Value, get}
use aegis_runtime.Security.Paths.{Component, starts_with, parent}
use aegis_runtime.Security.Workspace.{
  SecurityError, candidate, dir_target, resolve_read_path, resolve_write_path, resolve_dir_path,
}
use aegis_runtime.Security.Workspace.Containment.{
  Writable, resolve_read_path_lem, resolve_write_path-Writable, resolve_dir_path_lem,
}
use aegis_runtime.Security.Shell.Dispatch.{IsAdmitted, dispatch_shell-IsAdmitted}
use aegis_runtime.Security.Gate.{F64, or_else, probe_gate}
use aegis_runtime.Security.Gate.Passed.{Passes, probe_gate_iff}
use aegis_runtime.Skills.{
  SkillDefinition, SkillHandler, Request, Effect, ran, read, made_dirs, wrote, listed, git, Handled,
  Registry, Env, handled, checked, execute, execute_gated, Dispatched, dispatched, admitted,
  dispatch_classified,
}
use aegis_runtime.Skills.Handlers.{
  as_str, status_args, log_args, bash_eval, read_at, read_file, parent_dirs, write_at, write_file,
  list_at, list_dir, status_at, git_at, git_status,
}
use aegis_runtime.Skills.Builtin.{with_workspace}
use aegis_runtime.Prelude.{
  String, ◌≡◌, ◌⊎◌, refl, ap, trim, List, [], ◌∷◌, ◌++◌, map, Option, none, some, true, Result, ok,
  err, lookup, insert, All, All-In, In, here, there, str_eq, eq_iff, Bool-cases, inl, inr, arith,
}

-- A directory under the root, in canonical form.
pub record IsDirUnder (env : Env) (p : List Component) : Type 0 where
  pub asked : List Component
  pub canonical : env.out.fs.canonicalize asked ≡ ok p
  pub is_dir : env.out.fs.is_dir p ≡ true
  pub under : starts_with p env.root ≡ true

-- What the skill of a name may do: each kind of effect belongs to one skill, and stays inside the root.
abbrev pub IsContained : Env → String → Effect → Type 0
IsContained env name (ran command line dir) =
    (name ≡ "bash_eval") × IsAdmitted env.out env.root command 15 line dir
IsContained env name (read p) =
    (name ≡ "read_file")
    × ((asked : List Component) × (env.out.fs.canonicalize asked ≡ ok p))
    × (starts_with p env.root ≡ true)
IsContained env name (made_dirs p) =
    (name ≡ "write_file")
    × ((q : List Component) × (parent q ≡ some p) × Writable env.out.fs env.root q)
IsContained env name (wrote p content) = (name ≡ "write_file") × Writable env.out.fs env.root p
IsContained env name (listed p) = (name ≡ "list_dir") × IsDirUnder env p
IsContained env name (git p args) =
    (name ≡ "git_status") × IsDirUnder env p × ((args ≡ status_args) ⊎ (args ≡ log_args))

module _ (env : Env) where
  abbrev IsSafe : String → SkillHandler → Type 0
  IsSafe name h = (args : Value) → All (IsContained env name) (h args).effects

  tagged :
      (command : String) (rs : List (String × List Component))
      → ((line : String) (dir : List Component)
          → In (line, dir) rs
          → IsAdmitted env.out env.root command 15 line dir)
      → All (IsContained env "bash_eval") (map (λ r. ran command r.0 r.1) rs)
  tagged command [] h = tt
  tagged command (r ∷ rs) h =
      ((refl, h r.0 r.1 (here refl)), tagged command rs (λ line dir m. h line dir (there m)))

  bash_eval-IsSafe : IsSafe "bash_eval" (bash_eval env)
  unfolding bash_eval
  bash_eval-IsSafe args =
      let cmd = or_else (as_str (get args "command")) "" in
      tagged cmd _ (dispatch_shell-IsAdmitted env.out env.root cmd (as_str (get args "cwd")) 15)

  read_at-All :
      (requested : String) (r : Result SecurityError (List Component))
      → resolve_read_path env.out.fs env.root requested ≡ r
      → All (IsContained env "read_file") (read_at env r).effects
  read_at-All requested (err e) at = tt
  read_at-All requested (ok p) at =
      let (known, there_is, under) = resolve_read_path_lem env.out.fs env.root requested p at in
      ((refl, (candidate env.out.fs env.root (trim requested), known), under), tt)

  read_file-IsSafe : IsSafe "read_file" (read_file env)
  unfolding read_file
  read_file-IsSafe args = read_at-All _ _ refl

  wrote-All :
      (p : List Component) (content : String) (o : Option (List Component))
      → parent p ≡ o
      → Writable env.out.fs env.root p
      → All (IsContained env "write_file") (parent_dirs o ++ wrote p content ∷ [])
  wrote-All p content none up w = ((refl, w), tt)
  wrote-All p content (some q) up w = ((refl, (p, up, w)), ((refl, w), tt))

  write_at-All :
      (requested content : String) (r : Result SecurityError (List Component))
      → resolve_write_path env.out.fs env.root requested ≡ r
      → All (IsContained env "write_file") (write_at env content r).effects
  write_at-All requested content (err e) at = tt
  write_at-All requested content (ok p) at =
      wrote-All p content (parent p) refl
        (resolve_write_path-Writable env.out.fs env.root requested p at).1

  write_file-IsSafe : IsSafe "write_file" (write_file env)
  unfolding write_file
  write_file-IsSafe args =
      write_at-All (or_else (as_str (get args "path")) "")
        (or_else (as_str (get args "content")) "") _ refl

  dir_under :
      (requested : Option String) (p : List Component)
      → resolve_dir_path env.out.fs env.root requested ≡ ok p
      → IsDirUnder env p
  dir_under requested p at =
      let (known, directory, under) = resolve_dir_path_lem env.out.fs env.root requested p at in
      record {
        asked = dir_target env.out.fs env.root requested;
        canonical = known;
        is_dir = directory;
        under = under;
      }

  list_at-All :
      (requested : Option String) (r : Result SecurityError (List Component))
      → resolve_dir_path env.out.fs env.root requested ≡ r
      → All (IsContained env "list_dir") (list_at env r).effects
  list_at-All requested (err e) at = tt
  list_at-All requested (ok p) at = ((refl, dir_under requested p at), tt)

  list_dir-IsSafe : IsSafe "list_dir" (list_dir env)
  unfolding list_dir
  list_dir-IsSafe args = list_at-All (as_str (get args "path")) _ refl

  status_at-All :
      (p : List Component) (r : Result String String)
      → IsDirUnder env p
      → All (IsContained env "git_status") (status_at env p r).effects
  status_at-All p (ok s) d = ((refl, d, inl refl), ((refl, d, inr refl), tt))
  status_at-All p (err e) d = ((refl, d, inl refl), tt)

  git_at-All :
      (requested : Option String) (r : Result SecurityError (List Component))
      → resolve_dir_path env.out.fs env.root requested ≡ r
      → All (IsContained env "git_status") (git_at env r).effects
  git_at-All requested (err e) at = tt
  git_at-All requested (ok p) at = status_at-All p _ (dir_under requested p at)

  git_status-IsSafe : IsSafe "git_status" (git_status env)
  unfolding git_status
  git_status-IsSafe args = git_at-All (as_str (get args "path")) _ refl

  abbrev IsSafeEntry : String → SkillDefinition × SkillHandler → Type 0
  IsSafeEntry name e = IsSafe name e.1

  pub found :
      (P : String → SkillDefinition × SkillHandler → Type 0) (name : String) (m : Registry)
      (e : SkillDefinition × SkillHandler)
      → All (λ x. P x.0 x.1) m
      → lookup name m ≡ some e
      → P name e
  found P name [] e h at = absurd (cc)
  found P name (x ∷ m) e (here_is, rest) at = elim (Bool-cases (str_eq x.0 name)) [
    | inl same ↦
        let value : x.1 ≡ e = ap (λ o. or_else o x.1) (rw same at at) in
        let key : x.0 ≡ name = (eq_iff x.0 name).0 same in rw (← key) (rw (← value) here_is)
    | inr apart ↦ found P name m e rest (ground (arith, apart))
  ]

  builtin-All : All (λ x. IsSafeEntry x.0 x.1) (with_workspace env)
  unfolding with_workspace insert
  builtin-All = (
    bash_eval-IsSafe,
    (
      read_file-IsSafe,
      (
        write_file-IsSafe,
        (list_dir-IsSafe, (git_status-IsSafe, (λ args. tt, (λ args. tt, (λ args. tt, tt))))),
      ),
    ),
  )

  handled-All :
      (name : String) (o : Option (SkillDefinition × SkillHandler)) (args : Value)
      → lookup name (with_workspace env) ≡ o
      → All (IsContained env name) (handled env name o args).effects
  handled-All name none args at = tt
  handled-All name (some e) args at =
      found IsSafeEntry name (with_workspace env) e builtin-All at args

  -- What ran a skill with effects: it passed the gate, where there is one.
  checked-All :
      (name : String) (r : Result String (Unit {0})) (h : Handled)
      → All (IsContained env name) h.effects
      → All (IsContained env name) (checked env r h).effects
  checked-All name (ok u) h safe = safe
  checked-All name (err e) h safe = tt

  execute-All :
      (req : Request)
      → All (IsContained env req.skill_name) (execute env (with_workspace env) req).effects
  unfolding execute
  execute-All req = checked-All req.skill_name _ _ (handled-All req.skill_name _ req.arguments refl)

  module _
      (less_trans : (a b c : F64)
        → env.probing.less a b ≡ true
        → env.probing.less b c ≡ true
        → env.probing.less a c ≡ true) where
    abbrev Gated : String → Value → Type 0
    Gated name args = Passes env.probing env.out.escape_debug env.enforce name args

    dispatched-All :
        (name : String) (o : Option (SkillDefinition × SkillHandler)) (args : Value)
        → lookup name (with_workspace env) ≡ o
        → All (IsContained env name) (dispatched env name o args).effects
    dispatched-All name none args at = tt
    dispatched-All name (some e) args at =
        found IsSafeEntry name (with_workspace env) e builtin-All at args

    gate_checked :
        (name : String) (args : Value) (e : Effect) (r : Result String (Unit {0})) (h : Handled)
        → probe_gate env.probing env.out.escape_debug env.enforce name args ≡ r
        → All (IsContained env name) h.effects
        → In e (checked env r h).effects
        → Gated name args × IsContained env name e
    gate_checked name args e (err reason) h at safe m = elim m [ ]
    gate_checked name args e (ok u) h at safe m = (
      (probe_gate_iff env.probing less_trans env.out.escape_debug env.enforce name args).0 at,
      All-In (IsContained env name) safe m,
    )

    gate_admitted :
        (name : String) (args : Value) (e : Effect) (r c : Result String (Unit {0}))
        (d : Dispatched env)
        → probe_gate env.probing env.out.escape_debug env.enforce name args ≡ r
        → All (IsContained env name) d.effects
        → In e (admitted env r (admitted env c d)).effects
        → Gated name args × IsContained env name e
    gate_admitted name args e (err reason) c d at safe m = elim m [ ]
    gate_admitted name args e (ok u) (err reason) d at safe m = elim m [ ]
    gate_admitted name args e (ok u) (ok u2) d at safe m = (
      (probe_gate_iff env.probing less_trans env.out.escape_debug env.enforce name args).0 at,
      All-In (IsContained env name) safe m,
    )

    -- If `<` on floats is transitive: whatever a builtin skill does outside, through `execute_gated` or
    -- through `dispatch_classified`, the call passed the probe gate; each kind of effect belongs to one
    -- skill; files are read, directories listed, and git and the shell run, only at canonical paths under
    -- the root of the workspace, the shell only with a catalogued form. A file is written, and a
    -- directory made for it, only where the text of the path and the canonical form of its nearest
    -- existing ancestor lie under the root; a link at the path itself is not looked at.
    pub execute_gated-IsContained :
        (name : String) (args : Value) (e : Effect)
        → In e
            (execute_gated env
              (with_workspace env)
              (record { skill_name = name; arguments = args })).effects
          ⊎ In e (dispatch_classified env (with_workspace env) name args).effects
        → Gated name args × IsContained env name e
    unfolding execute_gated dispatch_classified
    execute_gated-IsContained name args e (inl m) =
        gate_checked name args e _ _ refl
          (execute-All (record { skill_name = name; arguments = args })) m
    execute_gated-IsContained name args e (inr m) =
        gate_admitted name args e _ _ _ refl (dispatched-All name _ args refl) m
