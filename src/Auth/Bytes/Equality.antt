-- ===== src/Auth/Bytes/Equality.antt =====
-- That `constant_time_eq` of src/auth.rs decides equality of bytes.
use aegis_runtime.Auth.Bytes.{xor_bits, or_bits, fold_differences, constant_time_eq}
use aegis_runtime.Prelude.{
  ℕ, zero, suc, ◌*◌, ◌/◌, ◌^◌, ◌<◌, ◌≡◌, refl, ◌↔◌, List, [], ◌∷◌, true, ◌==◌, ==_iff, length, All,
  arith, Bool-cases, inl, inr,
}

abbrev pub AreBytes : List ℕ → Type 0
AreBytes bs = All (λ b. b < 256) bs

xor-zero : (w x y : ℕ) → x < 2 ^ w → y < 2 ^ w → xor_bits w x y ≡ 0 → x ≡ y
xor-zero zero x y hx hy h = omega (arith, hx, hy)
xor-zero (suc w) x y hx hy h =
    let px : 2 ^ suc w ≡ 2 * 2 ^ w = ground arith in
    let rest : xor_bits w (x / 2) (y / 2) ≡ 0 = omega (arith, h) in
    omega
      (arith, h, xor-zero w (x / 2) (y / 2) (omega (arith, hx, px)) (omega (arith, hy, px)) rest)

xor_self : (w x : ℕ) → xor_bits w x x ≡ 0
xor_self zero x = refl
xor_self (suc w) x = omega (arith, xor_self w (x / 2))

or-zero : (w x y : ℕ) → x < 2 ^ w → y < 2 ^ w → or_bits w x y ≡ 0 → (x ≡ 0) × (y ≡ 0)
or-zero zero x y hx hy h = (omega (arith, hx), omega (arith, hy))
or-zero (suc w) x y hx hy h =
    let px : 2 ^ suc w ≡ 2 * 2 ^ w = ground arith in
    let rest : or_bits w (x / 2) (y / 2) ≡ 0 = ground (arith, h) in
    let bits = or-zero w (x / 2) (y / 2) (omega (arith, hx, px)) (omega (arith, hy, px)) rest in
    (ground (arith, h, bits), ground (arith, h, bits))

or-zeros : (w : ℕ) → or_bits w 0 0 ≡ 0
or-zeros zero = refl
or-zeros (suc w) = ground (arith, or-zeros w)

or-bound : (w x y : ℕ) → or_bits w x y < 2 ^ w
or-bound zero x y = omega arith
or-bound (suc w) x y =
    let px : 2 ^ suc w ≡ 2 * 2 ^ w = ground arith in ground (arith, px, or-bound w (x / 2) (y / 2))

xor-bound : (w x y : ℕ) → xor_bits w x y < 2 ^ w
xor-bound zero x y = omega arith
xor-bound (suc w) x y =
    let px : 2 ^ suc w ≡ 2 * 2 ^ w = ground arith in omega (arith, px, xor-bound w (x / 2) (y / 2))

fold-zero :
    (acc : ℕ) (as' bs : List ℕ)
    → acc < 256
    → AreBytes as'
    → AreBytes bs
    → length as' ≡ length bs
    → fold_differences acc as' bs ≡ 0
    → (acc ≡ 0) × (as' ≡ bs)
unfolding fold_differences
fold-zero acc [] [] ha a b len h = (h, refl)
fold-zero acc [] (y ∷ bs) ha a b len h = absurd (omega (arith, len))
fold-zero acc (x ∷ as') [] ha a b len h = absurd (omega (arith, len))
fold-zero acc (x ∷ as') (y ∷ bs) ha a b len h =
    let (zero_acc, rest) =
      fold-zero (or_bits 8 acc (xor_bits 8 x y)) as' bs (or-bound 8 acc (xor_bits 8 x y)) a.1 b.1
        (omega (arith, len)) h in
    let (none_yet, same) = or-zero 8 acc (xor_bits 8 x y) ha (xor-bound 8 x y) zero_acc in
    (none_yet, cons-same (xor-zero 8 x y a.0 b.0 same) rest)
  where
    cons-same : {u v : ℕ} {us vs : List ℕ} → u ≡ v → us ≡ vs → u ∷ us ≡ v ∷ vs
    cons-same e f = cc (e, f)

fold_self : (bs : List ℕ) → fold_differences 0 bs bs ≡ 0
unfolding fold_differences
fold_self [] = refl
fold_self (b ∷ bs) = rw (xor_self 8 b, or-zeros 8) (fold_self bs)

-- On bytes, the comparison in constant time answers true exactly for equal sequences.
pub constant_time_eq_iff :
    (a b : List ℕ) → AreBytes a → AreBytes b → (constant_time_eq a b ≡ true) ↔ (a ≡ b)
unfolding constant_time_eq
constant_time_eq_iff a b ha hb = (
  λ h. elim (Bool-cases (length a == length b)) [
    | inr differ ↦ absurd (cc (rw differ at h))
    | inl same ↦
        (fold-zero 0 a b (omega arith) ha hb ((==_iff (length a) (length b)).0 same)
          ((==_iff (fold_differences 0 a b) 0).0 (rw same at h))).1
  ],
  λ e. rw (← e) (
      rw ((==_iff (length a) (length a)).1 refl)
        ((==_iff (fold_differences 0 a a) 0).1 (fold_self a))),
)
