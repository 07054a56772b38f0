-- ===== src/Skills/Examples.antt =====
-- Skills of src/skills.rs in the workspace `/w`.
use aegis_runtime.Json.{Value, string, object, field, end}
use aegis_runtime.Security.Paths.{normal, root_dir, components, normalize_path, normalize_on}
use aegis_runtime.Security.Commands.{pre_dispatch_check}
use aegis_runtime.Security.Workspace.{resolve_write_path, existing_ancestor}
use aegis_runtime.Security.Gate.{probe_gate, probe_threshold_from}
use aegis_runtime.Security.Gate.Passed.{Passes}
use aegis_runtime.Security.Sample.{workspace, outside, probing, less_trans}
use aegis_runtime.Skills.{Env, made_dirs, wrote, dispatch_classified, advertised_skills}
use aegis_runtime.Skills.Handlers.{write_file}
use aegis_runtime.Skills.Builtin.{with_workspace}
use aegis_runtime.Skills.Contained.{IsContained, execute_gated-IsContained}
use aegis_runtime.Skills.Classified.{IsHonest, dispatch_classified-IsHonest}
use aegis_runtime.Prelude.{
  ◌≡◌, refl, [], ◌∷◌, map, false, true, none, ok, err, here, there, inr, insert, trim,
  is_whitespace, split_on,
}

abbrev env : Env
env = record {
  out = outside;
  root = workspace;
  probing = probing;
  enforce = none;
  read_to_string = λ p. err "No such file";
  write = λ p content. ok tt;
  read_dir = λ p. ok (("b", false) ∷ ("a", true) ∷ []);
  git_output = λ p args. ok "";
}

abbrev args : Value
args = object (field "path" (string "x/../a") (field "content" (string "text") end))

writes :
    (dispatch_classified env (with_workspace env) "write_file" args).effects
    ≡ made_dirs workspace ∷ wrote (root_dir ∷ normal "w" ∷ normal "a" ∷ []) "text" ∷ []
unfolding dispatch_classified with_workspace insert probe_gate probe_threshold_from
    pre_dispatch_check trim is_whitespace write_file resolve_write_path existing_ancestor components
    split_on normalize_path normalize_on
writes = refl

offers :
    map (λ d. d.name) (advertised_skills (with_workspace env))
    ≡ "bash_eval" ∷ "read_file" ∷ "write_file" ∷ "list_dir" ∷ "git_status" ∷ []
unfolding advertised_skills with_workspace insert
offers = refl

execute_gated-IsContained_example :
    Passes probing outside.escape_debug none "write_file" args
    × IsContained env "write_file" (wrote (root_dir ∷ normal "w" ∷ normal "a" ∷ []) "text")
execute_gated-IsContained_example =
    execute_gated-IsContained env less_trans "write_file" args
      (wrote (root_dir ∷ normal "w" ∷ normal "a" ∷ []) "text") (inr (rw writes (there (here refl))))

dispatch_classified-IsHonest_example :
    IsHonest
      (dispatch_classified env (with_workspace env) "read_file" args).effects
      (dispatch_classified env (with_workspace env) "read_file" args).result
dispatch_classified-IsHonest_example = dispatch_classified-IsHonest env "read_file" args
