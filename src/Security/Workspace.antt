-- ===== src/Security/Workspace.antt =====
-- `SecurityError` and `WorkspaceCapability` of src/security.rs. The file system is taken from outside:
-- what exists, what a path is canonically, and what is a directory. A path in a message is shown by
-- its components.
pub mod Containment
use aegis_runtime.Security.Paths.{
  Component, components, is_absolute, path_join, starts_with, parent, display, normalize_path,
}
use aegis_runtime.Prelude.{
  ℕ, zero, suc, String, List, [], ◌∷◌, Option, none, some, Bool, true, false, not, ◌&&◌, Result, ok,
  err, ◌>>=◌, str_eq, is_empty, trim, text_append, length, if◌then◌else◌,
}

pub data SecurityError : Type 0 where
  access_denied path_not_found invalid_path io_error command_failed : String → SecurityError

-- `Display`
abbrev pub error_text : SecurityError → String
error_text (access_denied msg) = text_append "Security rejection: " msg
error_text (path_not_found msg) = text_append "Path not found: " msg
error_text (invalid_path msg) = msg
error_text (io_error msg) = text_append "I/O error: " msg
error_text (command_failed msg) = text_append "Command execution failed: " msg

pub record FileSystem : Type 0 where
  pub exists : List Component → Bool
  pub canonicalize : List Component → Result String (List Component)
  pub is_dir : List Component → Bool

abbrev pub concat : List String → String
concat [] = ""
concat (s ∷ ss) = text_append s (concat ss)

-- `map_err` to an I/O error.
abbrev pub io_failed : {A : Type 0} → List String → Result String A → Result SecurityError A
io_failed before (ok a) = ok a
io_failed before (err e) = err (io_error (text_append (concat before) e))

-- A path to give back if it lies under the root.
abbrev pub contained :
    List Component → List Component → String → String → Result SecurityError (List Component)
contained root path what names =
    if starts_with path root
    then ok path
    else err (access_denied (concat (what ∷ display path ∷ names ∷ display root ∷ [])))

module _ (fs : FileSystem) (root : List Component) where
  abbrev pub candidate : String → List Component
  candidate trimmed = path_join root (components trimmed)

  unfoldable pub resolve_read_path : String → Result SecurityError (List Component)
  resolve_read_path requested =
      let trimmed = trim requested in
      if is_empty trimmed
      then err (invalid_path "Path cannot be empty")
      else if not (fs.exists (candidate trimmed))
      then err (path_not_found (text_append "File does not exist: " trimmed))
      else io_failed ("Failed to canonicalize path " ∷ trimmed ∷ ": " ∷ [])
          (fs.canonicalize (candidate trimmed))
        >>= λ canonical. contained root canonical "Path " " escapes authorized workspace root "

  -- The `while let` over the ancestors, with one turn for each unit of fuel: the nearest that exists.
  unfoldable pub existing_ancestor : ℕ → List Component → Option (List Component)
  existing_ancestor zero cur = none
  existing_ancestor (suc fuel) cur = elim (parent cur) [
    | none ↦ none
    | some p ↦ let rest = existing_ancestor fuel p in if fs.exists p then some p else rest
  ]

  unfoldable pub resolve_write_path : String → Result SecurityError (List Component)
  unfolding existing_ancestor
  resolve_write_path requested =
      let trimmed = trim requested in
      let normalized = normalize_path (candidate trimmed) in
      if is_empty trimmed
      then err (invalid_path "Path cannot be empty")
      else elim (existing_ancestor (suc (length normalized)) normalized) [
        | none ↦ err (access_denied (text_append "No valid ancestor directory found for " trimmed))
        | some p ↦
            io_failed ("Failed to canonicalize ancestor " ∷ display p ∷ ": " ∷ [])
              (fs.canonicalize p)
            >>= λ ancestor.
                contained root ancestor "Target ancestor " " escapes authorized workspace root "
                >>= λ _.
                    contained root normalized "Normalized target path "
                      " escapes authorized workspace root "
      ]

  -- The directory that is asked for: the root when none is, or `.`, or a blank.
  abbrev pub dir_target : Option String → List Component
  dir_target none = root
  dir_target (some d) =
      if not (is_empty (trim d)) && not (str_eq (trim d) ".") then candidate (trim d) else root

  unfoldable pub resolve_dir_path : Option String → Result SecurityError (List Component)
  resolve_dir_path requested =
      let target = dir_target requested in
      if not (fs.exists target)
      then err (path_not_found (text_append "Directory does not exist: " (display target)))
      else io_failed ("Failed to canonicalize directory " ∷ display target ∷ ": " ∷ [])
          (fs.canonicalize target)
        >>= λ canonical.
            if not (fs.is_dir canonical)
            then err (invalid_path (text_append "Path is not a directory: " (display canonical)))
            else contained root canonical "Directory " " escapes authorized workspace root "
