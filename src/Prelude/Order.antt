-- ===== src/Prelude/Order.antt =====
-- Texts compared by code points, which is the order of their bytes in UTF-8, and insertion sort by a
-- comparison.
use Prim.Native.Nat.{Ordering}
use Prim.Native.String.{String, compare}
use mathlib.Core.Bool.{Bool, true, false}
use mathlib.Core.List.{List, [], ◌∷◌}
use aegis_runtime.Prelude.Tests.{if◌then◌else◌}

abbrev pub text_leb : String → String → Bool
text_leb s t = elim (compare s t) [ Ordering.gt ↦ false | _ ↦ true ]

-- A row goes before the first that it may stand before.
abbrev pub put_by {ℓ} : {R : Type ℓ} → (R → R → Bool) → R → List R → List R
put_by le r [] = r ∷ []
put_by le r (x ∷ xs) = let rest = put_by le r xs in if le r x then r ∷ x ∷ xs else x ∷ rest

abbrev pub order_by {ℓ} : {R : Type ℓ} → (R → R → Bool) → List R → List R
order_by le [] = []
order_by le (r ∷ rs) = put_by le r (order_by le rs)
