-- ===== src/Security/Commands.antt =====
-- `admit_local_command` of src/security.rs and `pre_dispatch_check` of src/enforcement.rs.
pub mod Admitted
use Prim.Native.Char.{Char, code}
use aegis_runtime.Json.{Value, string, is_object, is_null, get}
use aegis_runtime.Security.Workspace.{SecurityError, access_denied, error_text, concat}
use aegis_runtime.Prelude.{
  ℕ, String, List, [], ◌∷◌, Option, none, some, Bool, true, false, not, ◌&&◌, ◌||◌, Result, ok, err,
  ◌>>=◌, ◌>>◌, str_eq, ◌==◌, any, contains, is_empty, trim, any_char, split_whitespace, text_append,
  if◌then◌else◌,
}

-- `; | & $ < > backquote backslash newline return ( ) { } ! * ? [ ] ' "`
unfoldable pub is_shell_char : Char → Bool
is_shell_char c =
    any (λ k. code c == k)
      (59 ∷ 124 ∷ 38 ∷ 36 ∷ 60 ∷ 62 ∷ 96 ∷ 92 ∷ 10 ∷ 13 ∷ 40 ∷ 41 ∷ 123 ∷ 125 ∷ 33 ∷ 42 ∷ 63 ∷ 91
        ∷ 93 ∷ 39 ∷ 34 ∷ [])

abbrev pub same_words : List String → List String → Bool
same_words [] [] = true
same_words (s ∷ ss) (t ∷ ts) = str_eq s t && same_words ss ts
same_words _ _ = false

abbrev pub allowed_forms : List (List String)
allowed_forms =
    ("git" ∷ "status" ∷ [])
    ∷ ("git" ∷ "diff" ∷ [])
    ∷ ("git" ∷ "log" ∷ "-1" ∷ "--oneline" ∷ [])
    ∷ ("ls" ∷ [])
    ∷ []

unfoldable pub admit_local_command : String → Result SecurityError (Unit {0})
admit_local_command command =
    if any_char is_shell_char command
    then err (
        access_denied
          "Command is not a local form. Shell joining, substitution, and quoting are not local execution.")
    else if any (λ form. same_words form (split_whitespace command)) allowed_forms
    then ok tt
    else err (
        access_denied
          "Command is not eligible for local shell. Local execution is only the catalogued forms: git status, git diff, git log -1 --oneline, and ls. Anything else needs a typed tool.")

abbrev pub allowed_skills : List String
allowed_skills =
    "bash_eval" ∷ "read_file" ∷ "write_file" ∷ "list_dir" ∷ "git_status" ∷ "cortex.search"
    ∷ "cortex_recall" ∷ "telemetry_ping" ∷ []

abbrev pub command_of : Option Value → Result String String
command_of (some (string s)) = ok s
command_of (some _) = err "Shell command must be a string"
command_of none = ok ""

abbrev pub as_text : Result SecurityError (Unit {0}) → Result String (Unit {0})
as_text (ok u) = ok u
as_text (err e) = err (error_text e)

abbrev pub check_shell : Value → Result String (Unit {0})
check_shell args = command_of (get args "command") >>= λ cmd.
    if is_empty (trim cmd)
    then err "Empty shell command is never dispatched"
    else as_text (admit_local_command cmd)

-- `escape_debug` is how a message shows the name.
unfoldable pub pre_dispatch_check :
    (escape_debug : String → String) → String → Value → Result String (Unit {0})
pre_dispatch_check escape_debug skill_name args =
    if is_empty (trim skill_name)
    then err "Empty skill name is never dispatched"
    else if not (contains allowed_skills skill_name)
    then err
        (concat ("Skill '" ∷ escape_debug skill_name ∷ "' is not on the dispatch allowlist" ∷ []))
    else if not (is_object args || is_null args)
    then err "Skill arguments must be a JSON object"
    else if str_eq skill_name "bash_eval"
    then check_shell args
    else ok tt
