-- ===== src/Prelude/Lists.antt =====
-- Lists measured and indexed by native numbers, under the library's names, and Boolean searches.
use Prim.Native.Nat.{ℕ, zero, suc, ◌+◌}
use mathlib.Core.Path.{◌≡◌, refl}
use mathlib.Core.Bool.{Bool, true, false, ◌&&◌, ◌||◌}
use mathlib.Core.Logic.{inl, inr}
use mathlib.Core.List.{List, [], ◌∷◌, ◌++◌}
use mathlib.Core.Option.{Option, none, some}
use native.Mathlib.Omega.{arith}
use aegis_runtime.Prelude.Tests.{if◌then◌else◌, Bool-cases, Option-cases}

module _ {ℓ} {A : Type ℓ} where
  abbrev pub length : List A → ℕ
  length [] = 0
  length (x ∷ xs) = suc (length xs)

  abbrev pub get_elem? : List A → ℕ → Option A
  get_elem? [] i = none
  get_elem? (x ∷ xs) zero = some x
  get_elem? (x ∷ xs) (suc i) = get_elem? xs i

  abbrev pub any : (A → Bool) → List A → Bool
  any p [] = false
  any p (x ∷ xs) = p x || any p xs

  abbrev pub all : (A → Bool) → List A → Bool
  all p [] = true
  all p (x ∷ xs) = p x && all p xs

  -- `iter().find(p)`
  abbrev pub find : (A → Bool) → List A → Option A
  find p [] = none
  find p (x ∷ xs) = let rest = find p xs in if p x then some x else rest

  -- `iter().rfind(p)`
  abbrev pub rfind : (A → Bool) → List A → Option A
  rfind p [] = none
  rfind p (x ∷ xs) = elim (rfind p xs) [ some y ↦ some y | none ↦ if p x then some x else none ]

  -- `iter().filter(p)`
  abbrev pub select : (A → Bool) → List A → List A
  select p [] = []
  select p (x ∷ xs) = let rest = select p xs in if p x then x ∷ rest else rest

  abbrev pub take : ℕ → List A → List A
  take zero xs = []
  take (suc n) [] = []
  take (suc n) (x ∷ xs) = x ∷ take n xs

  abbrev pub drop : ℕ → List A → List A
  drop zero xs = xs
  drop (suc n) [] = []
  drop (suc n) (x ∷ xs) = drop n xs

  -- A predicate by recursion computes to tuples, which the tactics read and build.
  abbrev pub All {κ} : (A → Type κ) → List A → Type κ
  All P [] = Unit
  All P (x ∷ xs) = P x × All P xs

  -- Membership by recursion, with the place kept.
  pub data In (a : A) : List A → Type ℓ where
    here : {x : A} {xs : List A} → a ≡ x → In a (x ∷ xs)
    there : {x : A} {xs : List A} → In a xs → In a (x ∷ xs)

  pub length-append : (xs ys : List A) → length (xs ++ ys) ≡ length xs + length ys
  length-append [] ys = omega arith
  length-append (x ∷ xs) ys = omega (arith, length-append xs ys)

module _ {ℓ} {A : Type ℓ} where
  pub All-append {κ} :
      (P : A → Type κ) (first second : List A)
      → All P first
      → All P second
      → All P (first ++ second)
  All-append P [] second none_yet rest = rest
  All-append P (x ∷ first) second (head, tail) rest = (head, All-append P first second tail rest)

  pub All-of-In {κ} : {P : A → Type κ} (xs : List A) → ((a : A) → In a xs → P a) → All P xs
  All-of-In [] h = tt
  All-of-In (x ∷ xs) h = (h x (here refl), All-of-In xs (λ a m. h a (there m)))

  pub All-In {κ} : (P : A → Type κ) {a : A} {xs : List A} → All P xs → In a xs → P a
  All-In P {a} {xs} h (here e) = rw e h.0
  All-In P h (there m) = All-In P h.1 m

  pub take-nil : (n : ℕ) → take {A = A} n [] ≡ []
  take-nil zero = refl
  take-nil (suc n) = refl

  pub find-In : (t : A → Bool) (xs : List A) (a : A) → find t xs ≡ some a → In a xs × (t a ≡ true)
  find-In t [] a e = absurd (ground arith)
  find-In t (x ∷ xs) a e = elim (Bool-cases (t x)) [
    | inl hit ↦
        let same : x ≡ a = ground (arith, hit) in (here (ground (arith, hit)), rw same at hit)
    | inr miss ↦ let (m, holds) = find-In t xs a (ground (arith, miss)) in (there m, holds)
  ]

  pub rfind-In : (t : A → Bool) (xs : List A) (a : A) → rfind t xs ≡ some a → In a xs
  rfind-In t [] a e = absurd (ground arith)
  rfind-In t (x ∷ xs) a e = elim (Option-cases (rfind t xs)) [
    | inl missing ↦ here (ground (arith, missing))
    | inr (y, found) ↦ there (rfind-In t xs a (ground (arith, found)))
  ]
