-- ===== src/Skills/Handlers.antt =====
-- The handlers of the builtin skills, in `register_builtin_skills` of src/skills.rs: what each does
-- outside, and its result.
use aegis_runtime.Json.{Value, string, get}
use aegis_runtime.Security.Paths.{Component, parent, display}
use aegis_runtime.Security.Workspace.{
  SecurityError, error_text, concat, resolve_read_path, resolve_write_path, resolve_dir_path,
}
use aegis_runtime.Security.Shell.{dispatch_shell}
use aegis_runtime.Security.Gate.{or_else}
use aegis_runtime.Prelude.{
  String, List, [], ◌∷◌, ◌++◌, map, Option, none, some, Bool, Result, ok, err, is_empty, trim,
  byte_len, decimal, text_append, text_leb, order_by, if◌then◌else◌,
}
use aegis_runtime.Skills.{
  Effect, ran, read, made_dirs, wrote, listed, git, Handled, SkillHandler, Env,
}

abbrev pub as_str : Option Value → Option String
as_str (some (string s)) = some s
as_str _ = none

abbrev pub failed : SecurityError → Handled
failed e = record { effects = []; result = err (error_text e) }

-- `map_err` before a text.
abbrev pub or_message : {A : Type 0} → List String → Result String A → Result String A
or_message before (ok a) = ok a
or_message before (err e) = err (text_append (concat before) e)

abbrev pub shell_result : Result SecurityError String → Result String String
shell_result (ok s) = ok s
shell_result (err e) = err (error_text e)

-- `items.join("\n")`
abbrev pub join_lines : List String → String
join_lines [] = ""
join_lines (s ∷ []) = s
join_lines (s ∷ t ∷ ts) = text_append s (text_append "\n" (join_lines (t ∷ ts)))

abbrev pub entry_text : String × Bool → String
entry_text (fname, is_dir) = concat (fname ∷ " (" ∷ (if is_dir then "dir" else "file") ∷ ")" ∷ [])

abbrev pub listing : Result String (List (String × Bool)) → Result String String
listing (ok entries) = ok (join_lines (order_by text_leb (map entry_text entries)))
listing (err e) = err e

abbrev pub status_text : String → String → String
status_text status_str log_str = concat (
    "HEAD: "
    ∷ trim log_str
    ∷ "\nStatus:\n"
    ∷ (if is_empty status_str then "clean" else trim status_str)
    ∷ [])

abbrev pub written : List Component → String → Result String (Unit {0}) → Result String String
written resolved content (ok u) =
    ok (concat ("Wrote " ∷ decimal (byte_len content) ∷ " bytes to " ∷ display resolved ∷ []))
written resolved content (err e) =
    err (concat ("Failed to write file " ∷ display resolved ∷ ": " ∷ e ∷ []))

abbrev pub parent_dirs : Option (List Component) → List Effect
parent_dirs none = []
parent_dirs (some p) = made_dirs p ∷ []

abbrev pub status_args : List String
status_args = "status" ∷ "--short" ∷ []

abbrev pub log_args : List String
log_args = "log" ∷ "-1" ∷ "--oneline" ∷ []

module _ (env : Env) where
  unfoldable pub bash_eval : SkillHandler
  bash_eval args =
      let cmd = or_else (as_str (get args "command")) "" in
      let shell = dispatch_shell env.out env.root cmd (as_str (get args "cwd")) 15 in
      record { effects = map (λ r. ran cmd r.0 r.1) shell.ran; result = shell_result shell.result }

  abbrev pub read_at : Result SecurityError (List Component) → Handled
  read_at (err e) = failed e
  read_at (ok resolved) = record {
    effects = read resolved ∷ [];
    result =
        or_message ("Failed to read file " ∷ display resolved ∷ ": " ∷ [])
          (env.read_to_string resolved);
  }

  unfoldable pub read_file : SkillHandler
  read_file args =
      read_at (resolve_read_path env.out.fs env.root (or_else (as_str (get args "path")) ""))

  abbrev pub write_at : String → Result SecurityError (List Component) → Handled
  write_at content (err e) = failed e
  write_at content (ok resolved) = record {
    effects = parent_dirs (parent resolved) ++ wrote resolved content ∷ [];
    result = written resolved content (env.write resolved content);
  }

  unfoldable pub write_file : SkillHandler
  write_file args =
      write_at (or_else (as_str (get args "content")) "")
        (resolve_write_path env.out.fs env.root (or_else (as_str (get args "path")) ""))

  abbrev pub list_at : Result SecurityError (List Component) → Handled
  list_at (err e) = failed e
  list_at (ok resolved) = record {
    effects = listed resolved ∷ [];
    result = listing (
        or_message ("Failed to read directory " ∷ display resolved ∷ ": " ∷ [])
          (env.read_dir resolved));
  }

  unfoldable pub list_dir : SkillHandler
  list_dir args = list_at (resolve_dir_path env.out.fs env.root (as_str (get args "path")))

  -- The log is asked for if the status was answered.
  abbrev pub logged : List Component → String → Result String String → Handled
  logged resolved status_str log_output = record {
    effects = git resolved status_args ∷ git resolved log_args ∷ [];
    result = elim (or_message ("Failed to run git log: " ∷ []) log_output) [
      | ok log_str ↦ ok (status_text status_str log_str)
      | err e ↦ err e
    ];
  }

  abbrev pub status_at : List Component → Result String String → Handled
  status_at resolved (ok status_str) = logged resolved status_str (env.git_output resolved log_args)
  status_at resolved (err e) = record {
    effects = git resolved status_args ∷ [];
    result = err (text_append "Failed to run git status: " e);
  }

  abbrev pub git_at : Result SecurityError (List Component) → Handled
  git_at (err e) = failed e
  git_at (ok resolved) = status_at resolved (env.git_output resolved status_args)

  unfoldable pub git_status : SkillHandler
  git_status args = git_at (resolve_dir_path env.out.fs env.root (as_str (get args "path")))

  abbrev pub unconnected : String → SkillHandler
  unconnected message args = record { effects = []; result = err message }
