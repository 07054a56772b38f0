-- ===== src/Security/Paths.antt =====
-- Paths as std::path gives them, by components, and `normalize_path` of src/security.rs.
pub mod Normal
use Prim.Native.Char.{Char, code}
use aegis_runtime.Prelude.{
  ℕ, ◌+◌, String, List, [], ◌∷◌, ◌++◌, Option, none, some, Bool, true, false, ◌&&◌, not, str_eq,
  ◌==◌, is_empty, text_append, split_on, select, if◌then◌else◌, map,
}

pub data Component : Type 0 where
  root_dir cur_dir parent_dir : Component
  normal : String → Component

abbrev pub same_component : Component → Component → Bool
same_component root_dir root_dir = true
same_component cur_dir cur_dir = true
same_component parent_dir parent_dir = true
same_component (normal s) (normal t) = str_eq s t
same_component _ _ = false

abbrev pub component_of : String → Component
component_of s = if str_eq s "." then cur_dir else if str_eq s ".." then parent_dir else normal s

abbrev pub is_cur_dir : Component → Bool
is_cur_dir cur_dir = true
is_cur_dir _ = false

abbrev pub is_slash : Char → Bool
is_slash c = code c == 47

abbrev pub starts_with_slash : String → Bool
starts_with_slash String.[] = false
starts_with_slash (String.◌∷◌ c s) = is_slash c

abbrev pub drop_inner : List Component → List Component
drop_inner cs = select (λ c. not (is_cur_dir c)) cs

-- `Path::new(text).components()` on Unix: empty pieces do not count, and a `.` only at the start.
unfoldable pub components : String → List Component
components text =
    let pieces = map component_of (select (λ p. not (is_empty p)) (split_on is_slash text)) in
    if starts_with_slash text
    then root_dir ∷ drop_inner pieces
    else elim pieces [ [] ↦ [] | c ∷ cs ↦ c ∷ drop_inner cs ]

-- `is_absolute` and `join` on Unix.
abbrev pub is_absolute : List Component → Bool
is_absolute (root_dir ∷ cs) = true
is_absolute _ = false

abbrev pub path_join : List Component → List Component → List Component
path_join p q = if is_absolute q then q else p ++ drop_inner q

-- `Path::starts_with`: by whole components.
abbrev pub starts_with : List Component → List Component → Bool
starts_with p [] = true
starts_with [] (c ∷ cs) = false
starts_with (d ∷ ds) (c ∷ cs) = same_component d c && starts_with ds cs

-- `Path::parent`: none for the root and for the empty path.
abbrev pub parent : List Component → Option (List Component)
parent [] = none
parent (root_dir ∷ []) = none
parent (c ∷ []) = some []
parent (c ∷ d ∷ cs) = elim (parent (d ∷ cs)) [ none ↦ some (c ∷ []) | some p ↦ some (c ∷ p) ]

-- `Path::display` of a path that was put together from its components.
abbrev pub component_text : Component → String
component_text root_dir = "/"
component_text cur_dir = "."
component_text parent_dir = ".."
component_text (normal s) = s

abbrev pub display : List Component → String
display [] = ""
display (root_dir ∷ cs) = text_append "/" (display cs)
display (c ∷ []) = component_text c
display (c ∷ d ∷ cs) = text_append (component_text c) (text_append "/" (display (d ∷ cs)))

-- `Vec::pop`
abbrev pub pop : List Component → List Component
pop [] = []
pop (c ∷ []) = []
pop (c ∷ d ∷ cs) = c ∷ pop (d ∷ cs)

-- The loop of `normalize_path`, with its stack, the top last.
unfoldable pub normalize_on : List Component → List Component → List Component
normalize_on stack [] = stack
normalize_on stack (cur_dir ∷ cs) = normalize_on stack cs
normalize_on stack (parent_dir ∷ cs) = normalize_on (pop stack) cs
normalize_on stack (root_dir ∷ cs) = normalize_on (stack ++ root_dir ∷ []) cs
normalize_on stack (normal s ∷ cs) = normalize_on (stack ++ normal s ∷ []) cs

unfoldable pub normalize_path : List Component → List Component
normalize_path path = normalize_on [] path
