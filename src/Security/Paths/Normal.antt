-- ===== src/Security/Paths/Normal.antt =====
-- Normal paths in src/security.rs.
use aegis_runtime.Security.Paths.{
  Component, root_dir, cur_dir, parent_dir, normal, pop, normalize_on, normalize_path,
}
use mathlib.Core.List.{append-nil, append_assoc}
use aegis_runtime.Prelude.{◌≡◌, ◌∙◌, sym, List, [], ◌∷◌, ◌++◌, All, All-append}

abbrev pub IsNamed : Component → Type 0
IsNamed cur_dir = ⊥
IsNamed parent_dir = ⊥
IsNamed _ = Unit

-- No `.` and no `..` in it.
abbrev pub IsNormal : List Component → Type 0
IsNormal path = All IsNamed path

pop-IsNormal : (stack : List Component) → IsNormal stack → IsNormal (pop stack)
pop-IsNormal [] n = tt
pop-IsNormal (c ∷ []) n = tt
pop-IsNormal (c ∷ d ∷ cs) n = (n.0, pop-IsNormal (d ∷ cs) n.1)

on-IsNormal : (stack path : List Component) → IsNormal stack → IsNormal (normalize_on stack path)
unfolding normalize_on
on-IsNormal stack [] n = n
on-IsNormal stack (cur_dir ∷ cs) n = on-IsNormal stack cs n
on-IsNormal stack (parent_dir ∷ cs) n = on-IsNormal (pop stack) cs (pop-IsNormal stack n)
on-IsNormal stack (root_dir ∷ cs) n =
    on-IsNormal (stack ++ root_dir ∷ []) cs (All-append IsNamed stack (root_dir ∷ []) n (tt, tt))
on-IsNormal stack (normal s ∷ cs) n =
    on-IsNormal (stack ++ normal s ∷ []) cs (All-append IsNamed stack (normal s ∷ []) n (tt, tt))

-- What is already normal is kept.
on-keeps : (stack path : List Component) → IsNormal path → normalize_on stack path ≡ stack ++ path
unfolding normalize_on
on-keeps stack [] n = sym (append-nil stack)
on-keeps stack (cur_dir ∷ cs) n = absurd (n.0)
on-keeps stack (parent_dir ∷ cs) n = absurd (n.0)
on-keeps stack (root_dir ∷ cs) n =
    on-keeps (stack ++ root_dir ∷ []) cs n.1 ∙ append_assoc stack (root_dir ∷ []) cs
on-keeps stack (normal s ∷ cs) n =
    on-keeps (stack ++ normal s ∷ []) cs n.1 ∙ append_assoc stack (normal s ∷ []) cs

-- A normalized path has no `.` and no `..`, and normalizing it again changes nothing.
pub normalize_path-IsNormal :
    (path : List Component)
    → IsNormal (normalize_path path) × (normalize_path (normalize_path path) ≡ normalize_path path)
unfolding normalize_path
normalize_path-IsNormal path =
    let n = on-IsNormal [] path tt in (n, on-keeps [] (normalize_on [] path) n)
