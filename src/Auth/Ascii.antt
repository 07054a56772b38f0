-- ===== src/Auth/Ascii.antt =====
-- The header values and tokens of src/auth.rs are ASCII texts: trimming and stripping keep that,
-- and two of them with the same bytes are equal.
use Prim.Native.Char.{Char, code}
use text.Mathlib.TextEquality.{Char-path}
use aegis_runtime.Auth.Bytes.{char_bytes, as_bytes}
use aegis_runtime.Auth.Bytes.Equality.{AreBytes}
use aegis_runtime.Auth.Operator.{strip_prefix}
use aegis_runtime.Prelude.{
  String, ◌≡◌, refl, sym, ap, ◌∙◌, inl, inr, [], ◌∷◌, ◌++◌, some, true, false, not, ◌&&◌, ltb, ◌==◌,
  any_char, is_empty, is_whitespace, trim, trim_start, trim_end, arith, Bool-cases, if_ind,
}

-- ASCII, as the text of a header value is.
abbrev pub IsAscii : String → Type 0
IsAscii s = any_char (λ c. not (ltb (code c) 128)) s ≡ false

byte : (c : Char) → ltb (code c) 128 ≡ true → char_bytes c ≡ code c ∷ []
unfolding char_bytes
byte c h = rw h refl

as_bytes-cons :
    (c : Char) (s : String)
    → ltb (code c) 128 ≡ true
    → as_bytes (String.◌∷◌ c s) ≡ code c ∷ as_bytes s
unfolding as_bytes
as_bytes-cons c s h = ap (λ b. b ++ as_bytes s) (byte c h)

pub as_bytes-AreBytes : (s : String) → IsAscii s → AreBytes (as_bytes s)
unfolding as_bytes
as_bytes-AreBytes String.[] h = tt
as_bytes-AreBytes (String.◌∷◌ c s) h =
    rw (as_bytes-cons c s (ground (arith, h)))
      ((ground (arith, h), as_bytes-AreBytes s (ground (arith, h))))

pub as_bytes-inj : (s t : String) → IsAscii s → IsAscii t → as_bytes s ≡ as_bytes t → s ≡ t
unfolding as_bytes
as_bytes-inj String.[] String.[] hs ht e = refl
as_bytes-inj String.[] (String.◌∷◌ d t) hs ht e =
    absurd (cc (e ∙ as_bytes-cons d t (ground (arith, ht))))
as_bytes-inj (String.◌∷◌ c s) String.[] hs ht e =
    absurd (cc (sym (as_bytes-cons c s (ground (arith, hs))) ∙ e))
as_bytes-inj (String.◌∷◌ c s) (String.◌∷◌ d t) hs ht e =
    let both : code c ∷ as_bytes s ≡ code d ∷ as_bytes t =
      sym (as_bytes-cons c s (ground (arith, hs))) ∙ e ∙ as_bytes-cons d t (ground (arith, ht)) in
    cons_same (Char-path c d (ground arith))
      (as_bytes-inj s t (ground (arith, hs)) (ground (arith, ht)) (ground arith))
  where
    cons_same : {x y : Char} {u v : String} → x ≡ y → u ≡ v → String.◌∷◌ x u ≡ String.◌∷◌ y v
    cons_same e f = cc (e, f)

trim_start-IsAscii : (s : String) → IsAscii s → IsAscii (trim_start s)
unfolding trim_start
trim_start-IsAscii String.[] h = refl
trim_start-IsAscii (String.◌∷◌ c s) h =
    if_ind IsAscii (is_whitespace c) (λ _. trim_start-IsAscii s (ground (arith, h))) (λ _. h)

trim_end-IsAscii : (s : String) → IsAscii s → IsAscii (trim_end s)
unfolding trim_end
trim_end-IsAscii String.[] h = refl
trim_end-IsAscii (String.◌∷◌ c s) h =
    let rest = trim_end-IsAscii s (ground (arith, h)) in
    if_ind IsAscii (is_whitespace c && is_empty (trim_end s)) (λ _. refl)
      (λ _. ground (arith, h, rest))

pub trim-IsAscii : (s : String) → IsAscii s → IsAscii (trim s)
unfolding trim
trim-IsAscii s h = trim_end-IsAscii (trim_start s) (trim_start-IsAscii s h)

pub strip-IsAscii : (p s t : String) → IsAscii s → strip_prefix p s ≡ some t → IsAscii t
strip-IsAscii String.[] s t h e = let same : s ≡ t = ground arith in rw (← same) h
strip-IsAscii (String.◌∷◌ p ps) String.[] t h e = absurd (cc)
strip-IsAscii (String.◌∷◌ p ps) (String.◌∷◌ c cs) t h e = elim (Bool-cases (code p == code c)) [
  | inl same ↦ strip-IsAscii ps cs t (ground (arith, h)) (rw same at e)
  | inr other ↦ absurd (cc (rw other at e))
]
