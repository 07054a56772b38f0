-- ===== src/Security/Examples.antt =====
-- Paths and commands of src/security.rs and src/enforcement.rs in a workspace `/w`.
use aegis_runtime.Json.{Value, string, object, field, end}
use aegis_runtime.Security.Paths.{
  Component, root_dir, normal, components, starts_with, normalize_path, normalize_on,
}
use aegis_runtime.Security.Workspace.{
  access_denied, FileSystem, candidate, resolve_read_path, resolve_write_path, resolve_dir_path,
  existing_ancestor,
}
use aegis_runtime.Security.Workspace.Containment.{Writable, resolve_write_path-Writable}
use aegis_runtime.Security.Commands.{is_shell_char, admit_local_command, pre_dispatch_check}
use aegis_runtime.Security.Commands.Admitted.{Dispatchable, pre_dispatch_check_iff}
use aegis_runtime.Security.Shell.{Outside, dispatch_shell, command_line}
use aegis_runtime.Security.Shell.Dispatch.{IsAdmitted, dispatch_shell-IsAdmitted}
use aegis_runtime.Prelude.{
  ◌≡◌, refl, ◌↔◌, List, [], ◌∷◌, none, some, true, ◌||◌, ok, err, In, here, trim, is_whitespace,
  split_on, split_whitespace, decimal,
}

abbrev workspace : List Component
workspace = root_dir ∷ normal "w" ∷ []

abbrev disk : FileSystem
disk = record {
  exists = λ p. starts_with p workspace || starts_with workspace p;
  canonicalize = λ p. ok (normalize_path p);
  is_dir = λ p. true;
}

abbrev in_workspace : List Component
in_workspace = root_dir ∷ normal "w" ∷ normal "a" ∷ []

resolves : resolve_read_path disk workspace " a " ≡ ok in_workspace
unfolding resolve_read_path trim is_whitespace components split_on normalize_path normalize_on
resolves = refl

resolves_write : resolve_write_path disk workspace "b/../a" ≡ ok in_workspace
unfolding resolve_write_path trim is_whitespace components split_on normalize_path normalize_on
    existing_ancestor
resolves_write = refl

resolves_dir : resolve_dir_path disk workspace (some ".") ≡ ok workspace
unfolding resolve_dir_path trim is_whitespace components split_on normalize_path normalize_on
resolves_dir = refl

refuses_escape :
    resolve_write_path disk workspace "../x"
    ≡ err (access_denied "Target ancestor / escapes authorized workspace root /w")
unfolding resolve_write_path trim is_whitespace components split_on normalize_path normalize_on
    existing_ancestor
refuses_escape = refl

resolve_write_path-Writable_example :
    (in_workspace ≡ normalize_path (candidate disk workspace (trim "b/../a")))
    × Writable disk workspace in_workspace
resolve_write_path-Writable_example =
    resolve_write_path-Writable disk workspace "b/../a" in_workspace resolves_write

admits_log : admit_local_command "git log -1 --oneline" ≡ ok tt
unfolding admit_local_command is_shell_char split_whitespace is_whitespace
admits_log = refl

abbrev call : Value
call = object (field "command" (string "ls") end)

pre_dispatch_check_iff_example :
    (pre_dispatch_check (λ s. s) "bash_eval" call ≡ ok tt) ↔ Dispatchable "bash_eval" call
pre_dispatch_check_iff_example = pre_dispatch_check_iff (λ s. s) "bash_eval" call

abbrev outside : Outside
outside = record {
  fs = disk;
  escape_debug = λ s. s;
  sh = λ line dir. ok (record { success = true; code = some 0; stdout = "a"; stderr = "" });
}

hands_over :
    (dispatch_shell outside workspace "ls" none 5).ran
    ≡ (command_line (trim "ls") 5, workspace) ∷ []
unfolding dispatch_shell pre_dispatch_check admit_local_command is_shell_char split_whitespace
    is_whitespace trim resolve_dir_path components split_on normalize_path normalize_on decimal
hands_over = refl

handed_over :
    In (command_line (trim "ls") 5, workspace) (dispatch_shell outside workspace "ls" none 5).ran
handed_over = rw hands_over (here refl)

dispatch_shell-IsAdmitted_example :
    IsAdmitted outside workspace "ls" 5 (command_line (trim "ls") 5) workspace
dispatch_shell-IsAdmitted_example =
    dispatch_shell-IsAdmitted outside workspace "ls" none 5 (command_line (trim "ls") 5) workspace
      handed_over
