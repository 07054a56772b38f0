-- ===== src/Prelude/Keyed.antt =====
-- Maps keyed by texts (`BTreeMap`, `HashMap`) as association lists, and sets of texts.
use Prim.Native.String.{String}
use mathlib.Core.Path.{◌≡◌, refl}
use mathlib.Core.Bool.{Bool, true, false}
use mathlib.Core.Option.{Option, none, some}
use mathlib.Core.List.{List, [], ◌∷◌, ◌++◌, map}
use native.Mathlib.Omega.{arith}
use text.Mathlib.Text.{◌==◌}
use text.Mathlib.TextEquality.{eq_iff}
use aegis_runtime.Prelude.Tests.{if◌then◌else◌}

-- `contains` on a list of texts.
abbrev pub contains : List String → String → Bool
contains [] k = false
contains (j ∷ ks) k = if j == k then true else contains ks k

module _ {ℓ} {V : Type ℓ} where
  abbrev pub lookup : String → List (String × V) → Option V
  lookup k [] = none
  lookup k ((j, v) ∷ m) = if j == k then some v else lookup k m

  -- `insert`: a key that is there keeps its place.
  unfoldable pub insert : String → V → List (String × V) → List (String × V)
  insert key value [] = (key, value) ∷ []
  insert key value (entry ∷ rest) =
      let later = insert key value rest in
      if entry.0 == key then (key, value) ∷ rest else entry ∷ later

  abbrev pub keys : List (String × V) → List String
  keys entries = map (λ entry. entry.0) entries

  -- After an insertion the key has the value, and any other key what it had.
  pub lookup-insert :
      (key asked : String) (value : V) (entries : List (String × V))
      → lookup asked (insert key value entries)
        ≡ (if key == asked then some value else lookup asked entries)
  unfolding insert
  lookup-insert key asked value [] = refl
  lookup-insert key asked value (entry ∷ rest) =
      let tail = lookup-insert key asked value rest in
      ground (arith, eq_iff entry.0 asked, eq_iff key asked, eq_iff entry.0 key, tail)

  pub contains-keys-insert :
      (k j : String) (v : V) (m : List (String × V))
      → contains (keys (insert k v m)) j ≡ (if k == j then true else contains (keys m) j)
  unfolding insert
  contains-keys-insert k j v [] = refl
  contains-keys-insert k j v ((i, w) ∷ m) =
      ground (arith, eq_iff k j, eq_iff i k, eq_iff i j, contains-keys-insert k j v m)

-- No text twice.
abbrev pub Distinct : List String → Type 0
Distinct [] = Unit
Distinct (x ∷ xs) = (contains xs x ≡ false) × Distinct xs

pub contains-snoc :
    (xs : List String) (x y : String)
    → contains (xs ++ x ∷ []) y ≡ (if contains xs y then true else x == y)
contains-snoc [] x y = ground arith
contains-snoc (z ∷ zs) x y = ground (arith, contains-snoc zs x y)

pub Distinct-snoc :
    (xs : List String) (x : String) → Distinct xs → contains xs x ≡ false → Distinct (xs ++ x ∷ [])
Distinct-snoc [] x dist fresh = (refl, tt)
Distinct-snoc (y ∷ ys) x (new, dist) fresh = (
  ground (arith, new, contains-snoc ys x y, eq_iff y x, eq_iff x y),
  Distinct-snoc ys x dist (ground arith),
)
