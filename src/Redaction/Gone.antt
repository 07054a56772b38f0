-- ===== src/Redaction/Gone.antt =====
-- A redacted value is gone: about `replace` with a placeholder in brackets.
use Prim.Native.Char.{Char, code}
use aegis_runtime.Json.{Value, collect_strings}
use aegis_runtime.Redaction.{redact_all, longest_first, redact_payload_echoes}
use aegis_runtime.Prelude.{
  ℕ, zero, suc, ◌-◌, String, ◌≡◌, ◌⊎◌, refl, List, [], ◌∷◌, Bool, true, false, ◌||◌, ◌==◌, any_char,
  is_empty, text_append, text_starts_with, text_contains, char_count, replace_from, replace, put_by,
  order_by, In, here, there, Bool-cases, inl, inr, arith,
}

abbrev pub is_bracket : Char → Bool
is_bracket c = code c == 91 || code c == 93

-- A text that has a character and no bracket.
abbrev pub IsWord : String → Type 0
IsWord v = (is_empty v ≡ false) × (any_char is_bracket v ≡ false)

abbrev pub bracketed : String → String
bracketed mid = String.◌∷◌ "[" (text_append mid "]")

-- A match that begins in the middle of a placeholder ends before its closing bracket.
inside :
    (mid rest v : String)
    → any_char is_bracket v ≡ false
    → text_starts_with (text_append (text_append mid "]") rest) v ≡ true
    → text_starts_with mid v ≡ true
inside String.[] rest String.[] plain h = refl
inside String.[] rest (String.◌∷◌ d v) plain h = absurd (ground (arith, plain, h))
inside (String.◌∷◌ c mid) rest String.[] plain h = refl
inside (String.◌∷◌ c mid) rest (String.◌∷◌ d v) plain h =
    ground (arith, plain, h, inside mid rest v)

in_tail :
    (mid rest v : String)
    → IsWord v
    → text_contains (text_append (text_append mid "]") rest) v ≡ true
    → (text_contains mid v ≡ true) ⊎ (text_contains rest v ≡ true)
in_tail String.[] rest String.[] w h = absurd (cc)
in_tail String.[] rest (String.◌∷◌ d v) w h = inr (ground (arith, w, h))
in_tail (String.◌∷◌ c mid) rest v w h =
    let text = String.◌∷◌ c (text_append (text_append mid "]") rest) in
    elim (Bool-cases (text_starts_with text v)) [
      | inl starts ↦ inl (ground (arith, inside (String.◌∷◌ c mid) rest v w.1 starts))
      | inr later ↦ elim (in_tail mid rest v w (ground (arith, h, later))) [
        | inl found ↦ inl (ground (arith, found))
        | inr found ↦ inr found
      ]
    ]

in_placeholder :
    (mid rest v : String)
    → IsWord v
    → text_contains (text_append (bracketed mid) rest) v ≡ true
    → (text_contains mid v ≡ true) ⊎ (text_contains rest v ≡ true)
in_placeholder mid rest String.[] w h = absurd (cc)
in_placeholder mid rest (String.◌∷◌ d v) w h =
    in_tail mid rest (String.◌∷◌ d v) w (ground (arith, w, h))

module _ (mid from v : String) (w : IsWord v) where
  -- What the output starts with, the input started with.
  starts_before :
      (s : String) (v' : String)
      → any_char is_bracket v' ≡ false
      → text_starts_with (replace_from from (bracketed mid) 0 s) v' ≡ true
      → text_starts_with s v' ≡ true
  unfolding replace_from
  starts_before s String.[] plain h = refl
  starts_before String.[] (String.◌∷◌ d v') plain h = h
  starts_before (String.◌∷◌ c s) (String.◌∷◌ d v') plain h =
      elim (Bool-cases (text_starts_with (String.◌∷◌ c s) from)) [
        | inl hit ↦ absurd (ground (arith, plain, rw hit at h))
        | inr miss ↦
            let h' = rw miss at h in ground (arith, h', starts_before s v' (ground (arith, plain)))
      ]

  -- What the output contains, the input contained, or the placeholder does.
  contained_before :
      (skip : ℕ) (s : String)
      → text_contains (replace_from from (bracketed mid) skip s) v ≡ true
      → (text_contains mid v ≡ true) ⊎ (text_contains s v ≡ true)
  unfolding replace_from
  contained_before zero String.[] h = inr h
  contained_before (suc k) String.[] h = inr h
  contained_before (suc k) (String.◌∷◌ c s) h = elim (contained_before k s h) [
    | inl found ↦ inl found
    | inr found ↦ inr (ground (arith, found))
  ]
  contained_before zero (String.◌∷◌ c s) h =
      elim (Bool-cases (text_starts_with (String.◌∷◌ c s) from)) [
        | inl hit ↦ elim (in_placeholder mid _ v w (rw hit at h)) [
          | inl found ↦ inl found
          | inr found ↦ elim (contained_before (char_count from - 1) s found) [
            | inl found' ↦ inl found'
            | inr found' ↦ inr (ground (arith, found'))
          ]
        ]
        | inr miss ↦
            let rest = replace_from from (bracketed mid) 0 s in
            elim (Bool-cases (text_starts_with (String.◌∷◌ c rest) v)) [
              | inl starts ↦
                  inr (ground (arith, starts_before (String.◌∷◌ c s) v w.1 (rw miss starts)))
              | inr later ↦ elim (contained_before zero s (ground (arith, rw miss at h, later))) [
                | inl found ↦ inl found
                | inr found ↦ inr (ground (arith, found))
              ]
            ]
      ]

module _ (mid v : String) (w : IsWord v) (apart : text_contains mid v ≡ false) where
  -- A value that was replaced is gone.
  pub replaced :
      (skip : ℕ) (s : String) → text_contains (replace_from v (bracketed mid) skip s) v ≡ false
  unfolding replace_from
  replaced zero String.[] = w.0
  replaced (suc k) String.[] = w.0
  replaced (suc k) (String.◌∷◌ c s) = replaced k s
  replaced zero (String.◌∷◌ c s) = elim (Bool-cases (text_starts_with (String.◌∷◌ c s) v)) [
    | inl hit ↦ rw hit (absent _ (replaced (char_count v - 1) s))
    | inr miss ↦
        elim (Bool-cases (text_starts_with (String.◌∷◌ c (replace_from v (bracketed mid) 0 s)) v)) [
          | inl starts ↦
              absurd (cc (miss, starts_before mid v v w (String.◌∷◌ c s) v w.1 (rw miss starts)))
          | inr later ↦ rw (miss, later) (replaced 0 s)
        ]
  ]
    where
      absent :
          (rest : String)
          → text_contains rest v ≡ false
          → text_contains (text_append (bracketed mid) rest) v ≡ false
      absent rest none_there =
          elim (Bool-cases (text_contains (text_append (bracketed mid) rest) v)) [
            | inr out ↦ out
            | inl back ↦ elim (in_placeholder mid rest v w back) [
              | inl found ↦ absurd (cc (apart, found))
              | inr found ↦ absurd (cc (none_there, found))
            ]
          ]

  pub kept_out :
      (from s : String)
      → text_contains s v ≡ false
      → text_contains (replace s from (bracketed mid)) v ≡ false
  unfolding replace
  kept_out from s out = elim (Bool-cases (text_contains (replace s from (bracketed mid)) v)) [
    | inr still ↦ still
    | inl back ↦ elim (contained_before mid from v w 0 s back) [
      | inl found ↦ absurd (cc (apart, found))
      | inr found ↦ absurd (cc (out, found))
    ]
  ]

  all_kept_out :
      (vs : List String) (s : String)
      → text_contains s v ≡ false
      → text_contains (redact_all (bracketed mid) vs s) v ≡ false
  unfolding redact_all
  all_kept_out [] s out = out
  all_kept_out (u ∷ vs) s out = elim (Bool-cases (text_contains s u)) [
    | inl hit ↦ rw hit (all_kept_out vs _ (kept_out u s out))
    | inr miss ↦ rw miss (all_kept_out vs s out)
  ]

  -- A value of the list is gone, whatever the other values are, and in whatever order they come.
  pub redact_all-gone :
      (vs : List String) (s : String)
      → In v vs
      → text_contains (redact_all (bracketed mid) vs s) v ≡ false
  unfolding redact_all replace
  redact_all-gone [] s m = elim m [ ]
  redact_all-gone (u ∷ vs) s (there m) = redact_all-gone vs _ m
  redact_all-gone (u ∷ vs) s (here e) = elim (Bool-cases (text_contains s u)) [
    | inl hit ↦ rw hit (all_kept_out vs _ (rw (← e) (replaced 0 s)))
    | inr miss ↦ rw miss (all_kept_out vs s (rw e miss))
  ]

In-put_by :
    {A : Type 0} (le : A → A → Bool) (x a : A) (xs : List A)
    → (a ≡ x) ⊎ In a xs
    → In a (put_by le x xs)
In-put_by le x a [] (inl e) = here e
In-put_by le x a [] (inr m) = elim m [ ]
In-put_by le x a (y ∷ ys) (inl e) = elim (Bool-cases (le x y)) [
  | inl before ↦ rw before (here e)
  | inr after ↦ rw after (there (In-put_by le x a ys (inl e)))
]
In-put_by le x a (y ∷ ys) (inr (here e)) = elim (Bool-cases (le x y)) [
  | inl before ↦ rw before (there (here e))
  | inr after ↦ rw after (here e)
]
In-put_by le x a (y ∷ ys) (inr (there m)) = elim (Bool-cases (le x y)) [
  | inl before ↦ rw before (there (there m))
  | inr after ↦ rw after (there (In-put_by le x a ys (inr m)))
]

pub In-order_by :
    {A : Type 0} (le : A → A → Bool) (a : A) (xs : List A) → In a xs → In a (order_by le xs)
In-order_by le a [] m = elim m [ ]
In-order_by le a (x ∷ xs) (here e) = In-put_by le x a (order_by le xs) (inl e)
In-order_by le a (x ∷ xs) (there m) =
    In-put_by le x a (order_by le xs) (inr (In-order_by le a xs m))

-- No string of four bytes or more that the arguments hold, at any depth, is left in the message, if it
-- has no square bracket and is no part of the word "redacted".
pub redact_payload_echoes-gone :
    (message v : String) (args : Value)
    → In v (collect_strings args)
    → IsWord v
    → text_contains "redacted" v ≡ false
    → text_contains (redact_payload_echoes message args) v ≡ false
unfolding redact_payload_echoes
redact_payload_echoes-gone message v args m w apart =
    redact_all-gone "redacted" v w apart (longest_first (collect_strings args)) message
      (In-order_by _ v (collect_strings args) m)
