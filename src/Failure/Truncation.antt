-- ===== src/Failure/Truncation.antt =====
-- `truncate_bytes` of src/failure.rs keeps the longest prefix that fits.
use native.Mathlib.Decide.{ℕ_discrete}
use aegis_runtime.Failure.Record.{is_char_boundary, slice_to, boundary_at_most, truncate_bytes}
use aegis_runtime.Prelude.{
  ℕ, zero, suc, ◌+◌, ◌-◌, ◌≤◌, String, ◌≡◌, refl, true, arith, leb, byte_len, utf8_width,
  utf8_width-pos, Bool-cases, inl, inr, ap, leb→le, text_append-nil, byte_len-text_append,
  text_append,
}

-- At a boundary the slice has as many bytes as were asked for.
byte_len-slice_to : (s : String) (n : ℕ) → is_char_boundary s n ≡ true → byte_len (slice_to s n) ≡ n
byte_len-slice_to String.[] n h = ground arith
byte_len-slice_to (String.◌∷◌ c s) n h = elim (Bool-cases (leb (utf8_width c) n)) [
  | inl fits ↦
      let inner : is_char_boundary s (n - utf8_width c) ≡ true = ground (arith, utf8_width-pos c) in
      rw fits (omega (arith, byte_len-slice_to s (n - utf8_width c) inner, leb→le _ _ fits))
  | inr large ↦ rw large (ground arith)
]

is_char_boundary-zero : (s : String) → is_char_boundary s 0 ≡ true
is_char_boundary-zero String.[] = refl
is_char_boundary-zero (String.◌∷◌ c s) = refl

boundary_at_most-boundary :
    (s : String) (n : ℕ)
    → (is_char_boundary s (boundary_at_most s n) ≡ true) × (boundary_at_most s n ≤ n)
unfolding boundary_at_most
boundary_at_most-boundary s zero = (is_char_boundary-zero s, omega arith)
boundary_at_most-boundary s (suc n) = ground (arith, boundary_at_most-boundary s n)

-- No boundary lies above it, up to n.
boundary_at_most-largest :
    (s : String) (n m : ℕ) → m ≤ n → is_char_boundary s m ≡ true → m ≤ boundary_at_most s n
unfolding boundary_at_most
boundary_at_most-largest s zero m le b = omega arith
boundary_at_most-largest s (suc n) m le b = elim (Bool-cases (is_char_boundary s (suc n))) [
  | inl e ↦ rw e le
  | inr e ↦ elim (ℕ_discrete m (suc n)) [
    | yes same ↦ cc (e, rw same at b)
    | no other ↦ rw e (boundary_at_most-largest s n m (omega arith) b)
  ]
]

is_char_boundary-text_append :
    (p q : String) → is_char_boundary (text_append p q) (byte_len p) ≡ true
is_char_boundary-text_append String.[] q = is_char_boundary-zero q
is_char_boundary-text_append (String.◌∷◌ c p) q =
    let back : utf8_width c + byte_len p - utf8_width c ≡ byte_len p = omega arith in
    ground (arith, back, is_char_boundary-text_append p q)

slice_to-prefix : (s : String) (n : ℕ) → (rest : String) × (text_append (slice_to s n) rest ≡ s)
slice_to-prefix String.[] n = ("", refl)
slice_to-prefix (String.◌∷◌ c s) n =
    let (rest, e) = slice_to-prefix s (n - utf8_width c) in
    elim (Bool-cases (leb (utf8_width c) n)) [
      | inl fits ↦ (rest, rw fits (ap (String.◌∷◌ c) e))
      | inr large ↦ (String.◌∷◌ c s, rw large)
    ]

pub byte_len-truncate_bytes : (s : String) (max : ℕ) → byte_len (truncate_bytes s max) ≤ max
unfolding truncate_bytes
byte_len-truncate_bytes s max = elim (Bool-cases (leb (byte_len s) max)) [
  | inl fits ↦ rw fits (leb→le _ _ fits)
  | inr large ↦
      let (boundary, le) = boundary_at_most-boundary s max in
      rw large (rw (byte_len-slice_to s (boundary_at_most s max) boundary) le)
]

-- What is kept is a prefix of the text, has at most `max` bytes, and has at least as many bytes as any
-- prefix that ends between two characters and has at most `max` bytes.
pub truncate_bytes_lem :
    (s : String) (max : ℕ) (p q : String)
    → text_append p q ≡ s
    → byte_len p ≤ max
    → ((rest : String) × (text_append (truncate_bytes s max) rest ≡ s))
      × (byte_len (truncate_bytes s max) ≤ max)
      × (byte_len p ≤ byte_len (truncate_bytes s max))
unfolding truncate_bytes
truncate_bytes_lem s max p q e le = (prefix, byte_len-truncate_bytes s max, longest)
  where
    prefix : (rest : String) × (text_append (truncate_bytes s max) rest ≡ s)
    prefix = elim (Bool-cases (leb (byte_len s) max)) [
      | inl fits ↦ rw fits ("", text_append-nil s)
      | inr large ↦ rw large (slice_to-prefix s (boundary_at_most s max))
    ]

    longest : byte_len p ≤ byte_len (truncate_bytes s max)
    longest = elim (Bool-cases (leb (byte_len s) max)) [
      | inl fits ↦ rw fits (omega (arith, byte_len-text_append p q, ap byte_len e))
      | inr large ↦
          let (boundary, _) = boundary_at_most-boundary s max in
          rw large (
            rw (byte_len-slice_to s (boundary_at_most s max) boundary) (
              boundary_at_most-largest s max (byte_len p) le
                (rw e at (is_char_boundary-text_append p q))))
    ]
