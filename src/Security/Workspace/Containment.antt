-- ===== src/Security/Workspace/Containment.antt =====
-- What a resolved path of src/security.rs is.
use mathlib.Core.Path.{subst}
use aegis_runtime.Security.Paths.{Component, starts_with, parent, display, normalize_path}
use aegis_runtime.Security.Paths.Normal.{IsNormal, normalize_path-IsNormal}
use aegis_runtime.Security.Workspace.{
  SecurityError, invalid_path, FileSystem, io_failed, contained, candidate, dir_target,
  resolve_read_path, existing_ancestor, resolve_write_path, resolve_dir_path,
}
use aegis_runtime.Prelude.{
  ℕ, zero, suc, String, ◌≡◌, refl, sym, List, [], ◌∷◌, Option, some, true, not, Result, ok, err,
  ◌>>=◌, >>=-eq-ok, is_empty, trim, length, Bool-cases, Option-cases, inl, inr, arith,
  if◌then◌else◌, text_append,
}

contained-ok :
    (root path p : List Component) (what names : String)
    → contained root path what names ≡ ok p
    → (path ≡ p) × (starts_with path root ≡ true)
contained-ok root path p what names h = elim (Bool-cases (starts_with path root)) [
  | inl inside ↦ (ground (arith, inside), inside)
  | inr outside ↦ absurd (ground (arith, outside))
]

-- A canonical form that lies under the root.
resolved :
    (root p : List Component) (before : List String) (what names : String)
    (r : Result String (List Component))
    → (io_failed before r >>= λ c. contained root c what names) ≡ ok p
    → (r ≡ ok p) × (starts_with p root ≡ true)
resolved root p before what names (err e) h = absurd (cc)
resolved root p before what names (ok c) h =
    let (same, under) = contained-ok root c p what names h in (rw same refl, rw (← same) under)

-- What a path that is resolved for writing went through: its nearest ancestor that exists.
pub record Writable (fs : FileSystem) (root p : List Component) : Type 0 where
  pub ancestor : List Component
  pub canonical : List Component
  pub nearest : existing_ancestor fs root (suc (length p)) p ≡ some ancestor
  pub there_is : fs.exists ancestor ≡ true
  pub known : fs.canonicalize ancestor ≡ ok canonical
  pub within : starts_with canonical root ≡ true
  pub under : starts_with p root ≡ true
  pub normal : IsNormal p

module _ (fs : FileSystem) (root : List Component) where
  -- A path that is resolved for reading is the canonical form of what was asked for, which exists, and
  -- lies under the root.
  pub resolve_read_path_lem :
      (requested : String) (p : List Component)
      → resolve_read_path fs root requested ≡ ok p
      → (fs.canonicalize (candidate fs root (trim requested)) ≡ ok p)
        × (fs.exists (candidate fs root (trim requested)) ≡ true)
        × (starts_with p root ≡ true)
  unfolding resolve_read_path
  resolve_read_path_lem requested p h = elim (Bool-cases (is_empty (trim requested))) [
    | inl blank ↦ absurd (ground (arith, blank))
    | inr typed ↦ elim (Bool-cases (fs.exists (candidate fs root (trim requested)))) [
      | inr missing ↦ absurd (ground (arith, typed, missing))
      | inl there_is ↦
          let (known, under) =
            resolved root p ("Failed to canonicalize path " ∷ trim requested ∷ ": " ∷ []) "Path "
              " escapes authorized workspace root "
              (fs.canonicalize (candidate fs root (trim requested))) (rw (typed, there_is) at h) in
          (known, there_is, under)
    ]
  ]

  existing :
      (fuel : ℕ) (cur p : List Component)
      → existing_ancestor fs root fuel cur ≡ some p
      → fs.exists p ≡ true
  unfolding existing_ancestor
  existing zero cur p h = absurd (cc)
  existing (suc fuel) cur p h = elim (Option-cases (parent cur)) [
    | inl top ↦ absurd (ground (arith, top))
    | inr (q, up) ↦ elim (Bool-cases (fs.exists q)) [
      | inl there_is ↦ let same : q ≡ p = ground (arith, up, there_is) in rw (← same) there_is
      | inr missing ↦ existing fuel q p (ground (arith, up, missing))
    ]
  ]

  writable :
      (n p a : List Component) (before : List String) (w v x y : String)
      (r : Result String (List Component))
      → IsNormal n
      → existing_ancestor fs root (suc (length n)) n ≡ some a
      → fs.canonicalize a ≡ r
      → (io_failed before r >>= λ c. contained root c w v >>= λ _. contained root n x y) ≡ ok p
      → (n ≡ p) × Writable fs root n
  writable n p a before w v x y (err e) norm near at h = absurd (cc)
  writable n p a before w v x y (ok c) norm near at h =
      let (b, first, second) = >>=-eq-ok (contained root c w v) _ h in
      let (same_c, within) = contained-ok root c b w v first in
      let (same, under) = contained-ok root n p x y second in
      (
        same,
        record {
          ancestor = a;
          canonical = c;
          nearest = near;
          there_is = existing (suc (length n)) n a near;
          known = at;
          within = within;
          under = under;
          normal = norm;
        },
      )

  -- A path that is resolved for writing lies under the root, has no `.` and no `..`, and its nearest
  -- ancestor that exists lies under the root in its canonical form too.
  pub resolve_write_path-Writable :
      (requested : String) (p : List Component)
      → resolve_write_path fs root requested ≡ ok p
      → (p ≡ normalize_path (candidate fs root (trim requested))) × Writable fs root p
  unfolding resolve_write_path
  resolve_write_path-Writable requested p h =
      let n = normalize_path (candidate fs root (trim requested)) in
      elim (Bool-cases (is_empty (trim requested))) [
        | inl blank ↦ absurd (ground (arith, blank))
        | inr typed ↦ elim (Option-cases (existing_ancestor fs root (suc (length n)) n)) [
          | inl none_is ↦ absurd (ground (arith, typed, none_is))
          | inr (a, near) ↦
              let (same, w) =
                writable n p a ("Failed to canonicalize ancestor " ∷ display a ∷ ": " ∷ [])
                  "Target ancestor " " escapes authorized workspace root " "Normalized target path "
                  " escapes authorized workspace root " (fs.canonicalize a)
                  (normalize_path-IsNormal (candidate fs root (trim requested))).0 near refl
                  (rw (typed, near) at h) in
              (sym same, subst (Writable fs root) same w)
        ]
      ]

  -- A directory that is resolved is the canonical form of what was asked for, or of the root, is a
  -- directory, and lies under the root.
  pub resolve_dir_path_lem :
      (requested : Option String) (p : List Component)
      → resolve_dir_path fs root requested ≡ ok p
      → (fs.canonicalize (dir_target fs root requested) ≡ ok p)
        × (fs.is_dir p ≡ true)
        × (starts_with p root ≡ true)
  unfolding resolve_dir_path
  resolve_dir_path_lem requested p h =
      elim (Bool-cases (fs.exists (dir_target fs root requested))) [
        | inr missing ↦ absurd (ground (arith, missing))
        | inl there_is ↦
            checked
              ("Failed to canonicalize directory "
                ∷ display (dir_target fs root requested)
                ∷ ": "
                ∷ [])
              (λ c. invalid_path (text_append "Path is not a directory: " (display c))) "Directory "
              " escapes authorized workspace root " (fs.canonicalize (dir_target fs root requested))
              (rw there_is at h)
      ]
    where
      checked :
          (before : List String) (not_dir : List Component → SecurityError) (what names : String)
          (r : Result String (List Component))
          → (io_failed before r >>= λ c.
              if not (fs.is_dir c) then err (not_dir c) else contained root c what names)
            ≡ ok p
          → (r ≡ ok p) × (fs.is_dir p ≡ true) × (starts_with p root ≡ true)
      checked before not_dir what names (err e) h = absurd (cc)
      checked before not_dir what names (ok c) h = elim (Bool-cases (fs.is_dir c)) [
        | inr file ↦ absurd (ground (arith, file))
        | inl dir ↦
            let (same, under) = contained-ok root c p what names (ground (arith, dir)) in
            (rw same refl, rw (← same) dir, rw (← same) under)
      ]
