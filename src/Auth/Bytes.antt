-- ===== src/Auth/Bytes.antt =====
-- Bytes, and `constant_time_eq` of src/auth.rs. A byte is a number below 2 ^ 8.
pub mod Equality
use Prim.Native.Char.{Char, code}
use aegis_runtime.Prelude.{
  ℕ, zero, suc, ◌+◌, ◌*◌, ◌/◌, ◌%◌, String, List, [], ◌∷◌, ◌++◌, Bool, true, false, ◌==◌, ltb, max,
  length, if◌then◌else◌,
}

-- `x ^ y` and `x | y` on numbers of w bits.
abbrev pub xor_bits : ℕ → ℕ → ℕ → ℕ
xor_bits zero x y = 0
xor_bits (suc w) x y = (x % 2 + y % 2) % 2 + 2 * xor_bits w (x / 2) (y / 2)

abbrev pub or_bits : ℕ → ℕ → ℕ → ℕ
or_bits zero x y = 0
or_bits (suc w) x y = max (x % 2) (y % 2) + 2 * or_bits w (x / 2) (y / 2)

-- `as_bytes`: UTF-8.
unfoldable pub char_bytes : Char → List ℕ
char_bytes c =
    let n = code c in
    if ltb n 0x80
    then n ∷ []
    else if ltb n 0x800
    then (192 + n / 64) ∷ (128 + n % 64) ∷ []
    else if ltb n 0x10000
    then (224 + n / 4096) ∷ (128 + n / 64 % 64) ∷ (128 + n % 64) ∷ []
    else (240 + n / 262144) ∷ (128 + n / 4096 % 64) ∷ (128 + n / 64 % 64) ∷ (128 + n % 64) ∷ []

unfoldable pub as_bytes : String → List ℕ
unfolding char_bytes
as_bytes String.[] = []
as_bytes (String.◌∷◌ c s) = char_bytes c ++ as_bytes s

-- The fold over the pairs, with the accumulator.
unfoldable pub fold_differences : ℕ → List ℕ → List ℕ → ℕ
fold_differences acc [] bs = acc
fold_differences acc (a ∷ as') [] = acc
fold_differences acc (a ∷ as') (b ∷ bs) = fold_differences (or_bits 8 acc (xor_bits 8 a b)) as' bs

unfoldable pub constant_time_eq : List ℕ → List ℕ → Bool
unfolding fold_differences
constant_time_eq a b = if length a == length b then fold_differences 0 a b == 0 else false
