-- ===== src/Skills.antt =====
-- src/skills.rs: the registry of skills, its builtin handlers, and the three ways to run a skill. What
-- the file system, git and the shell answer is taken from outside; what a handler does there is kept as
-- its list of effects. The `HashMap` is an association list; where its order could matter, it is sorted.
pub mod Handlers
pub mod Builtin
pub mod Contained
pub mod Classified
mod Examples
use aegis_runtime.Json.{
  Value, null, bool, string, array, object, cons, nil, field, end, get, Fields,
}
use aegis_runtime.Failure.{
  ToolFault, FailureClass, EffectCertainty, rejected_fault, unavailable_fault, skill_effect_profile,
}
use aegis_runtime.Security.Paths.{Component, parent, display}
use aegis_runtime.Security.Workspace.{
  SecurityError, error_text, concat, resolve_read_path, resolve_write_path, resolve_dir_path,
}
use aegis_runtime.Security.Commands.{pre_dispatch_check}
use aegis_runtime.Security.Shell.{Outside, Ran, dispatch_shell}
use aegis_runtime.Security.Gate.{Probing, or_else, probe_gate}
use aegis_runtime.Prelude.{
  String, List, [], ◌∷◌, ◌++◌, map, Option, none, some, Bool, true, false, Result, ok, err, lookup,
  insert, select, is_empty, trim, byte_len, decimal, text_append, text_starts_with, text_leb,
  order_by, if◌then◌else◌,
}

pub record SkillDefinition : Type 0 where
  pub name : String
  pub description : String
  pub parameters_schema : Value
  pub advertised : Bool

pub record Request : Type 0 where
  pub skill_name : String
  pub arguments : Value

pub record Response : Type 0 where
  pub success : Bool
  pub output : String
  pub error : Option String

pub data Effect : Type 0 where
  ran : (command line : String) → (dir : List Component) → Effect
  read : List Component → Effect
  made_dirs : List Component → Effect
  wrote : List Component → (content : String) → Effect
  listed : List Component → Effect
  git : List Component → (args : List String) → Effect

pub record Handled : Type 0 where
  pub effects : List Effect
  pub result : Result String String

abbrev pub SkillHandler : Type 0
SkillHandler = Value → Handled

abbrev pub Registry : Type 0
Registry = List (String × (SkillDefinition × SkillHandler))

-- The workspace and what answers from outside. A directory has names, each with whether it is one itself.
pub record Env : Type 0 where
  pub out : Outside
  pub root : List Component
  pub probing : Probing
  pub enforce : Option String
  pub read_to_string : List Component → Result String String
  pub write : List Component → String → Result String (Unit {0})
  pub read_dir : List Component → Result String (List (String × Bool))
  pub git_output : List Component → List String → Result String String

abbrev pub register : Registry → SkillDefinition → SkillHandler → Registry
register skills def handler = insert def.name (def, handler) skills

abbrev pub list_skills : Registry → List SkillDefinition
list_skills skills = map (λ e. e.1.0) skills

unfoldable pub advertised_skills : Registry → List SkillDefinition
advertised_skills skills = select (λ d. d.advertised) (list_skills skills)

abbrev pub tool_of : SkillDefinition → Value
tool_of def = object (
    field "type" (string "function") (
      field "function"
        (object (
          field "name" (string def.name) (
            field "description" (string def.description)
              (field "parameters" def.parameters_schema end))))
        end))

-- The sort is by the names, which the JSON objects carry.
unfoldable pub to_openai_tools : Registry → List Value
to_openai_tools skills =
    map tool_of
      (order_by (λ a b. text_leb a.name b.name) (select (λ d. d.advertised) (list_skills skills)))

module _ (env : Env) where
  abbrev pub refused : String → Handled
  refused reason = record { effects = []; result = err reason }

  abbrev pub not_found : String → String
  not_found skill_name = concat ("Skill '" ∷ skill_name ∷ "' not found in registry" ∷ [])

  abbrev pub handled : String → Option (SkillDefinition × SkillHandler) → Value → Handled
  handled skill_name none args = refused (not_found skill_name)
  handled skill_name (some (def, h)) args = h args

  abbrev pub checked : Result String (Unit {0}) → Handled → Handled
  checked (ok u) next = next
  checked (err reason) next = refused reason

  -- `execute`, with the effects; `response` is what it returns.
  unfoldable pub execute : Registry → Request → Handled
  execute skills req =
      checked (pre_dispatch_check env.out.escape_debug req.skill_name req.arguments)
        (handled req.skill_name (lookup req.skill_name skills) req.arguments)

  unfoldable pub execute_gated : Registry → Request → Handled
  unfolding execute
  execute_gated skills req =
      checked (probe_gate env.probing env.out.escape_debug env.enforce req.skill_name req.arguments)
        (execute skills req)

  abbrev pub response : Result String String → Response
  response (ok output) = record { success = true; output = output; error = none }
  response (err e) = record { success = false; output = ""; error = some e }

  -- What a dispatch did, and its result with a typed fault.
  pub record Dispatched : Type 0 where
    pub effects : List Effect
    pub result : Result ToolFault String

  abbrev pub classify : String → String → ToolFault
  classify skill_name message =
      if text_starts_with message "Unavailable"
      then unavailable_fault message
      else if skill_effect_profile skill_name
      then record {
        class = FailureClass.failed;
        certainty = EffectCertainty.no_effect;
        message = message;
      }
      else record {
        class = FailureClass.failed;
        certainty = EffectCertainty.effect_occurred;
        message = message;
      }

  abbrev pub classified : String → Handled → Dispatched
  classified skill_name h = record {
    effects = h.effects;
    result = elim h.result [ ok v ↦ ok v | err e ↦ err (classify skill_name e) ];
  }

  abbrev pub dispatched : String → Option (SkillDefinition × SkillHandler) → Value → Dispatched
  dispatched skill_name none args = record {
    effects = [];
    result = err (rejected_fault (not_found skill_name));
  }
  dispatched skill_name (some (def, h)) args = classified skill_name (h args)

  abbrev pub admitted : Result String (Unit {0}) → Dispatched → Dispatched
  admitted (ok u) next = next
  admitted (err reason) next = record { effects = []; result = err (rejected_fault reason) }

  unfoldable pub dispatch_classified : Registry → String → Value → Dispatched
  dispatch_classified skills skill_name args =
      admitted (probe_gate env.probing env.out.escape_debug env.enforce skill_name args) (
        admitted (pre_dispatch_check env.out.escape_debug skill_name args)
          (dispatched skill_name (lookup skill_name skills) args))
