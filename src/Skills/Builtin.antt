-- ===== src/Skills/Builtin.antt =====
-- `register_builtin_skills` of src/skills.rs.
use aegis_runtime.Json.{Value, string, array, object, cons, nil, field, end, Items, Fields}
use aegis_runtime.Security.Paths.{display}
use aegis_runtime.Security.Workspace.{concat}
use aegis_runtime.Skills.{SkillDefinition, Registry, Env, register}
use aegis_runtime.Skills.Handlers.{
  bash_eval, read_file, write_file, list_dir, git_status, unconnected,
}
use aegis_runtime.Prelude.{String, List, [], ◌∷◌, true, false}

abbrev text_property : String → Value
text_property description =
    object (field "type" (string "string") (field "description" (string description) end))

abbrev names : List String → Items
names [] = nil
names (s ∷ ss) = cons (string s) (names ss)

abbrev schema : Fields → List String → Value
schema properties [] =
    object (field "type" (string "object") (field "properties" (object properties) end))
schema properties required = object (
    field "type" (string "object")
      (field "properties" (object properties) (field "required" (array (names required)) end)))

module _ (env : Env) where
  abbrev pub bash_def : SkillDefinition
  bash_def = record {
    name = "bash_eval";
    description = concat (
        "Run one catalogued local command inside "
        ∷ display env.root
        ∷ ". Allowed forms are exactly: git status, git diff, git log -1 --oneline, and ls. This is not an OS sandbox."
        ∷ []);
    parameters_schema =
        schema
          (field "command" (text_property "The command line string to run") (
            field "cwd"
              (text_property (
                concat (
                  "Optional working directory inside authorized workspace "
                  ∷ display env.root
                  ∷ [])))
              end))
          ("command" ∷ []);
    advertised = true;
  }

  abbrev pub read_def : SkillDefinition
  read_def = record {
    name = "read_file";
    description = "Read the contents of a text file strictly within authorized workspace roots";
    parameters_schema =
        schema
          (field "path" (text_property "Relative or absolute path inside the workspace root") end)
          ("path" ∷ []);
    advertised = true;
  }

  abbrev pub write_def : SkillDefinition
  write_def = record {
    name = "write_file";
    description = "Write text contents to a file strictly within authorized workspace roots";
    parameters_schema =
        schema
          (field "path" (text_property "Target file path inside the workspace root")
            (field "content" (text_property "Text content to write") end))
          ("path" ∷ "content" ∷ []);
    advertised = true;
  }

  abbrev pub list_def : SkillDefinition
  list_def = record {
    name = "list_dir";
    description = "List directory contents strictly within authorized workspace roots";
    parameters_schema =
        schema (field "path" (text_property "Directory path inside workspace root") end) [];
    advertised = true;
  }

  abbrev pub git_def : SkillDefinition
  git_def = record {
    name = "git_status";
    description =
        "Check git status and commit in repository strictly within authorized workspace root";
    parameters_schema =
        schema (field "path" (text_property "Repository path inside workspace root") end) [];
    advertised = true;
  }

  abbrev pub search_def : SkillDefinition
  search_def = record {
    name = "cortex.search";
    description = "Search Cortex. Not connected.";
    parameters_schema = schema (field "query" (text_property "Memory query") end) ("query" ∷ []);
    advertised = false;
  }

  abbrev pub recall_def : SkillDefinition
  recall_def = record {
    name = "cortex_recall";
    description = "Legacy alias of cortex.search. Not connected.";
    parameters_schema = schema (field "query" (text_property "Memory query") end) ("query" ∷ []);
    advertised = false;
  }

  abbrev pub ping_def : SkillDefinition
  ping_def = record {
    name = "telemetry_ping";
    description = "Legacy name. Not connected.";
    parameters_schema = object (field "type" (string "object") end);
    advertised = false;
  }

  abbrev pub search_message : String
  search_message = "Unavailable: cortex.search is not connected to a Cortex backend."

  unfoldable pub register_builtin_skills : Registry → Registry
  register_builtin_skills skills =
      let skills1 = register skills bash_def (bash_eval env) in
      let skills2 = register skills1 read_def (read_file env) in
      let skills3 = register skills2 write_def (write_file env) in
      let skills4 = register skills3 list_def (list_dir env) in
      let skills5 = register skills4 git_def (git_status env) in
      let skills6 = register skills5 search_def (unconnected env search_message) in
      let skills7 = register skills6 recall_def (unconnected env search_message) in
      register skills7 ping_def (unconnected env "Unavailable: telemetry.read is not connected.")

  unfoldable pub with_workspace : Registry
  unfolding register_builtin_skills
  with_workspace = register_builtin_skills []
