-- ===== src/Security/Shell/Dispatch.antt =====
-- What `dispatch_shell` of src/security.rs hands to the shell.
use aegis_runtime.Security.Paths.{Component, starts_with}
use aegis_runtime.Security.Workspace.{SecurityError, resolve_dir_path}
use aegis_runtime.Security.Workspace.Containment.{resolve_dir_path_lem}
use aegis_runtime.Security.Commands.{is_shell_char, allowed_forms, admit_local_command}
use aegis_runtime.Security.Commands.Admitted.{admit_local_command_iff}
use aegis_runtime.Security.Shell.{
  Outside, command_line, run_in, execute_shell, admitted_then, checked_then, dispatch_shell,
}
use aegis_runtime.Prelude.{
  ℕ, String, ◌≡◌, refl, ap, List, Option, true, false, Result, ok, err, is_empty, trim,
  split_whitespace, any_char, In, here, there, Bool-cases, inl, inr,
}

-- A command line that was handed to the shell, and where.
pub record IsAdmitted (out : Outside) (root : List Component) (command : String) (timeout_secs : ℕ)
    (line : String) (dir : List Component) : Type 0 where
  pub form : In (split_whitespace command) allowed_forms
  pub plain : any_char is_shell_char command ≡ false
  pub wrapped : line ≡ command_line (trim command) timeout_secs
  pub inside : starts_with dir root ≡ true
  pub is_dir : out.fs.is_dir dir ≡ true

module _ (out : Outside) (root : List Component) (command : String) (cwd : Option String)
    (timeout_secs : ℕ) where
  run_in-IsAdmitted :
      admit_local_command command ≡ ok tt
      → (r : Result SecurityError (List Component)) → resolve_dir_path out.fs root cwd ≡ r
      → (line : String) (dir : List Component)
      → In (line, dir) (run_in out root (trim command) timeout_secs r).ran
      → IsAdmitted out root command timeout_secs line dir
  run_in-IsAdmitted admitted (err e) at line dir m = elim m [ ]
  run_in-IsAdmitted admitted (ok d) at line dir (there m) = elim m [ ]
  run_in-IsAdmitted admitted (ok d) at line dir (here e) =
      let (plain, form) = (admit_local_command_iff command).0 admitted in
      let (known, directory, inside) = resolve_dir_path_lem out.fs root cwd d at in
      let same : dir ≡ d = ap (λ x. x.1) e in
      record {
        form = form;
        plain = plain;
        wrapped = ap (λ x. x.0) e;
        inside = rw same inside;
        is_dir = rw same directory;
      }

  execute_shell-IsAdmitted :
      admit_local_command command ≡ ok tt
      → (line : String) (dir : List Component)
      → In (line, dir) (execute_shell out root command cwd timeout_secs).ran
      → IsAdmitted out root command timeout_secs line dir
  unfolding execute_shell
  execute_shell-IsAdmitted admitted line dir m = elim (Bool-cases (is_empty (trim command))) [
    | inl blank ↦ elim (rw blank at m) [ ]
    | inr typed ↦
        run_in-IsAdmitted admitted (resolve_dir_path out.fs root cwd) refl line dir (rw typed at m)
  ]

  -- Whatever is handed to the shell by a dispatched command is the whole command, wrapped in the timeout;
  -- the command's words are one of the four catalogued forms, no character of it is one of the
  -- shell's, and the directory that it runs in lies under the root. This holds whether the command
  -- then succeeds or fails.
  pub dispatch_shell-IsAdmitted :
      (line : String) (dir : List Component)
      → In (line, dir) (dispatch_shell out root command cwd timeout_secs).ran
      → IsAdmitted out root command timeout_secs line dir
  unfolding dispatch_shell
  dispatch_shell-IsAdmitted line dir m = checked _ m
    where
      admitted :
          (r : Result SecurityError (Unit {0}))
          → admit_local_command command ≡ r
          → In
              (line, dir)
              (admitted_then out root r (execute_shell out root command cwd timeout_secs)).ran
          → IsAdmitted out root command timeout_secs line dir
      admitted (ok u) at m = execute_shell-IsAdmitted at line dir m
      admitted (err e) at m = elim m [ ]

      checked :
          (r : Result String (Unit {0}))
          → In
              (line, dir)
              (checked_then out root r (
                admitted_then out root
                  (admit_local_command command)
                  (execute_shell out root command cwd timeout_secs))).ran
          → IsAdmitted out root command timeout_secs line dir
      checked (ok u) m = admitted (admit_local_command command) refl m
      checked (err e) m = elim m [ ]
