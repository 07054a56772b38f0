-- ===== src/Prelude/Results.antt =====
-- Rust's `Result<T, E>`, with the error first so that the type of a do block is `Result E`.
use mathlib.Core.Path.{◌≡◌, refl}
use mathlib.Core.Logic.{◌⊎◌, inl, inr}

pub data Result {ℓ} (E T : Type ℓ) : Type ℓ where
  ok : T → Result E T
  err : E → Result E T

infixl 5 ◌>>=◌ ◌>>◌
abbrev pub ◌>>=◌ {ℓ} : {E A B : Type ℓ} → Result E A → (A → Result E B) → Result E B
ok a >>= f = f a
err e >>= f = err e

abbrev pub ◌>>◌ {ℓ} : {E B : Type ℓ} → Result E (Unit {ℓ}) → Result E B → Result E B
m >> k = m >>= λ _. k

pub Result-cases {ℓ} :
    {E T : Type ℓ} (r : Result E T) → ((v : T) × (r ≡ ok v)) ⊎ ((e : E) × (r ≡ err e))
Result-cases (ok v) = inl (v, refl)
Result-cases (err e) = inr (e, refl)

-- Inversion of a successful bind.
pub >>=-eq-ok {ℓ} :
    {E S T : Type ℓ} (first : Result E S) (next : S → Result E T) {end : T}
    → (first >>= next) ≡ ok end
    → (s : S) × (first ≡ ok s) × (next s ≡ ok end)
>>=-eq-ok (err e) next done = absurd (cc)
>>=-eq-ok (ok s) next done = (s, refl, done)
