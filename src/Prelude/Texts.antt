-- ===== src/Prelude/Texts.antt =====
-- Texts that the program walks byte by byte: the sizes of characters in UTF-8, and the operations
-- of Rust's `str` that the program uses, over the native `String`.
use Prim.Native.Nat.{ℕ, zero, suc, ◌+◌, ◌-◌, ◌/◌, ◌%◌, ◌<◌}
use Prim.Native.Char.{Char, code}
use Prim.Native.String.{String}
use mathlib.Core.Path.{◌≡◌, refl, ap}
use mathlib.Core.Bool.{Bool, true, false, not, ◌&&◌, ◌||◌}
use mathlib.Core.List.{List, [], ◌∷◌}
use native.Mathlib.Omega.{arith}
use aegis_runtime.Prelude.Tests.{ltb, leb, ◌==◌, if◌then◌else◌}
use aegis_runtime.Prelude.Lists.{select}

-- The bytes that a character takes in UTF-8.
unfoldable pub utf8_width : Char → ℕ
utf8_width c =
    if ltb (code c) 0x80
    then 1
    else if ltb (code c) 0x800
    then 2
    else if ltb (code c) 0x10000
    then 3
    else 4

-- `s.len()`
abbrev pub byte_len : String → ℕ
byte_len String.[] = 0
byte_len (String.◌∷◌ c s) = utf8_width c + byte_len s

-- `s.is_empty()`
abbrev pub is_empty : String → Bool
is_empty String.[] = true
is_empty (String.◌∷◌ c s) = false

abbrev pub text_append : String → String → String
text_append String.[] t = t
text_append (String.◌∷◌ c s) t = String.◌∷◌ c (text_append s t)

pub utf8_width-pos : (c : Char) → 0 < utf8_width c
unfolding utf8_width
utf8_width-pos c = ground arith

pub text_append-nil : (s : String) → text_append s String.[] ≡ s
text_append-nil String.[] = refl
text_append-nil (String.◌∷◌ c s) = ap (String.◌∷◌ c) (text_append-nil s)

pub byte_len-text_append : (s t : String) → byte_len (text_append s t) ≡ byte_len s + byte_len t
byte_len-text_append String.[] t = omega arith
byte_len-text_append (String.◌∷◌ c s) t = omega (arith, byte_len-text_append s t)

-- `char::is_whitespace`: the characters with the property White_Space of Unicode.
unfoldable pub is_whitespace : Char → Bool
is_whitespace c =
    let n = code c in
    (leb 9 n && leb n 13)
    || n == 0x20
    || n == 0x85
    || n == 0xA0
    || n == 0x1680
    || (leb 0x2000 n && leb n 0x200A)
    || n == 0x2028
    || n == 0x2029
    || n == 0x202F
    || n == 0x205F
    || n == 0x3000

unfoldable pub trim_start : String → String
trim_start String.[] = String.[]
trim_start (String.◌∷◌ c s) =
    let rest = trim_start s in if is_whitespace c then rest else String.◌∷◌ c s

unfoldable pub trim_end : String → String
trim_end String.[] = String.[]
trim_end (String.◌∷◌ c s) =
    let rest = trim_end s in
    if is_whitespace c && is_empty rest then String.[] else String.◌∷◌ c rest

-- `s.trim()`
unfoldable pub trim : String → String
unfolding trim_start trim_end
trim s = trim_end (trim_start s)

-- `s.chars().any(p)`
abbrev pub any_char : (Char → Bool) → String → Bool
any_char p String.[] = false
any_char p (String.◌∷◌ c s) = p c || any_char p s

-- `s.starts_with(p)`
abbrev pub text_starts_with : String → String → Bool
text_starts_with s String.[] = true
text_starts_with String.[] (String.◌∷◌ d p) = false
text_starts_with (String.◌∷◌ c s) (String.◌∷◌ d p) = code c == code d && text_starts_with s p

-- `s.contains(p)`
abbrev pub text_contains : String → String → Bool
text_contains String.[] p = is_empty p
text_contains (String.◌∷◌ c s) p = text_starts_with (String.◌∷◌ c s) p || text_contains s p

-- The characters of a text.
abbrev pub char_count : String → ℕ
char_count String.[] = 0
char_count (String.◌∷◌ c s) = suc (char_count s)

-- `s.replace(from, to)` for a `from` that is not empty: the matches from the left, none overlapping the
-- one before. `skip` characters belong to a match that was already replaced.
unfoldable pub replace_from : (from to : String) → (skip : ℕ) → String → String
replace_from from to skip String.[] = String.[]
replace_from from to (suc skip) (String.◌∷◌ c s) = replace_from from to skip s
replace_from from to zero (String.◌∷◌ c s) =
    let after = text_append to (replace_from from to (char_count from - 1) s) in
    let rest = String.◌∷◌ c (replace_from from to zero s) in
    if text_starts_with (String.◌∷◌ c s) from then after else rest

unfoldable pub replace : String → (from to : String) → String
unfolding replace_from
replace s from to = replace_from from to zero s

-- The pieces between the characters of a kind, empty ones included.
abbrev pub onto_first : Char → List String → List String
onto_first c [] = String.◌∷◌ c String.[] ∷ []
onto_first c (p ∷ ps) = String.◌∷◌ c p ∷ ps

unfoldable pub split_on : (Char → Bool) → String → List String
split_on p String.[] = String.[] ∷ []
split_on p (String.◌∷◌ c s) =
    let rest = split_on p s in if p c then String.[] ∷ rest else onto_first c rest

-- `s.split_whitespace()`
unfoldable pub split_whitespace : String → List String
unfolding split_on
split_whitespace s = select (λ p. not (is_empty p)) (split_on is_whitespace s)

-- A number below 10 ^ fuel in decimal, before a text.
decimal_on : ℕ → ℕ → String → String
decimal_on zero n s = s
decimal_on (suc fuel) n s =
    let digit = nth_digit "0123456789" (n % 10) in
    let rest = decimal_on fuel (n / 10) (text_append digit s) in
    if n / 10 == 0 then text_append digit s else rest
  where
    nth_digit : String → ℕ → String
    nth_digit String.[] i = String.[]
    nth_digit (String.◌∷◌ c s) zero = String.◌∷◌ c String.[]
    nth_digit (String.◌∷◌ c s) (suc i) = nth_digit s i

-- A `u64` in decimal: 20 digits are enough.
unfoldable pub decimal : ℕ → String
unfolding decimal_on
decimal n = decimal_on 20 n ""
