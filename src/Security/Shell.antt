-- ===== src/Security/Shell.antt =====
-- `execute_shell` and `dispatch_shell` of src/security.rs. What `sh` makes of a command line in a
-- directory is taken from outside; the command lines that were handed to it are kept in `ran`.
pub mod Dispatch
use Prim.Native.Char.{Char, code}
use aegis_runtime.Json.{Value, string, object, field, end}
use aegis_runtime.Security.Paths.{Component}
use aegis_runtime.Security.Workspace.{
  SecurityError, access_denied, invalid_path, command_failed, FileSystem, concat, resolve_dir_path,
}
use aegis_runtime.Security.Commands.{admit_local_command, pre_dispatch_check}
use aegis_runtime.Prelude.{
  ℕ, String, List, [], ◌∷◌, ◌++◌, Option, none, some, Bool, true, false, not, Result, ok, err,
  ◌>>=◌, str_eq, is_empty, trim, text_append, decimal, ◌==◌, if◌then◌else◌,
}

-- What the process ended with; the code is none after a signal.
pub record Output : Type 0 where
  pub success : Bool
  pub code : Option ℕ
  pub stdout : String
  pub stderr : String

pub record Outside : Type 0 where
  pub fs : FileSystem
  pub escape_debug : String → String
  pub sh : String → List Component → Result String Output

pub record Ran : Type 0 where
  pub ran : List (String × List Component)
  pub result : Result SecurityError String

-- `replace('\'', "'\\''")`
abbrev pub escape_quotes : String → String
escape_quotes String.[] = String.[]
escape_quotes (String.◌∷◌ c s) =
    let rest = escape_quotes s in
    if code c == 39 then text_append "'\\''" rest else String.◌∷◌ c rest

abbrev pub command_line : String → ℕ → String
command_line trimmed_cmd timeout_secs =
    concat
      ("timeout " ∷ decimal timeout_secs ∷ "s bash -c '" ∷ escape_quotes trimmed_cmd ∷ "'" ∷ [])

-- `code().unwrap_or(-1)`, as text.
abbrev pub code_text : Option ℕ → String
code_text none = "-1"
code_text (some n) = decimal n

abbrev pub is_timeout : Option ℕ → Bool
is_timeout none = false
is_timeout (some n) = n == 124

abbrev pub output_result : String → ℕ → Output → Result SecurityError String
output_result trimmed_cmd timeout_secs output =
    if output.success
    then ok output.stdout
    else if is_timeout output.code
    then err (
        command_failed (
          concat
            ("Command timed out after " ∷ decimal timeout_secs ∷ " seconds: " ∷ trimmed_cmd ∷ [])))
    else err (
        command_failed (
          concat (
            "Exit code "
            ∷ code_text output.code
            ∷ ": "
            ∷ (if not (is_empty (trim output.stderr))
                then trim output.stderr
                else trim output.stdout)
            ∷ [])))

abbrev pub ended : String → ℕ → Result String Output → Result SecurityError String
ended trimmed_cmd timeout_secs (ok output) = output_result trimmed_cmd timeout_secs output
ended trimmed_cmd timeout_secs (err e) =
    err (command_failed (text_append "Failed to execute command: " e))

abbrev pub refused : SecurityError → Ran
refused e = record { ran = []; result = err e }

module _ (out : Outside) (root : List Component) where
  abbrev pub run_in : String → ℕ → Result SecurityError (List Component) → Ran
  run_in trimmed_cmd timeout_secs (err e) = refused e
  run_in trimmed_cmd timeout_secs (ok working_dir) =
      let line = command_line trimmed_cmd timeout_secs in
      record {
        ran = (line, working_dir) ∷ [];
        result = ended trimmed_cmd timeout_secs (out.sh line working_dir);
      }

  unfoldable pub execute_shell : String → Option String → ℕ → Ran
  execute_shell command cwd timeout_secs =
      let trimmed_cmd = trim command in
      if is_empty trimmed_cmd
      then refused (invalid_path "Command cannot be empty")
      else run_in trimmed_cmd timeout_secs (resolve_dir_path out.fs root cwd)

  abbrev pub admitted_then : Result SecurityError (Unit {0}) → Ran → Ran
  admitted_then (ok u) next = next
  admitted_then (err e) next = refused e

  abbrev pub checked_then : Result String (Unit {0}) → Ran → Ran
  checked_then (ok u) next = next
  checked_then (err e) next = refused (access_denied e)

  unfoldable pub dispatch_shell : String → Option String → ℕ → Ran
  unfolding execute_shell
  dispatch_shell command cwd timeout_secs =
      checked_then
        (pre_dispatch_check out.escape_debug "bash_eval"
          (object (field "command" (string command) end)))
        (admitted_then (admit_local_command command) (execute_shell command cwd timeout_secs))
