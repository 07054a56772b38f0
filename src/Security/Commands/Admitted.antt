-- ===== src/Security/Commands/Admitted.antt =====
-- Which commands and skills src/security.rs and src/enforcement.rs admit.
use aegis_runtime.Json.{Value, string, is_object, is_null, get}
use aegis_runtime.Security.Workspace.{SecurityError}
use aegis_runtime.Security.Commands.{
  is_shell_char, same_words, allowed_forms, admit_local_command, allowed_skills, command_of,
  as_text, check_shell, pre_dispatch_check,
}
use aegis_runtime.Prelude.{
  String, ◌≡◌, refl, sym, ap, ◌∙◌, ◌↔◌, List, [], ◌∷◌, Option, none, some, true, false, not, ◌||◌,
  Result, ok, err, >>=-eq-ok, str_eq, eq_iff, all, any, contains, is_empty, trim, is_whitespace,
  any_char, split_whitespace, In, here, there, arith, Bool-cases, inl, inr,
}

same_words-eq : (ss ts : List String) → same_words ss ts ≡ true → ss ≡ ts
same_words-eq [] [] h = refl
same_words-eq [] (t ∷ ts) h = absurd (cc)
same_words-eq (s ∷ ss) [] h = absurd (cc)
same_words-eq (s ∷ ss) (t ∷ ts) h = ground (arith, eq_iff s t, same_words-eq ss ts)

same_words_refl : (ss : List String) → same_words ss ss ≡ true
same_words_refl [] = refl
same_words_refl (s ∷ ss) = ground (arith, eq_iff s s, same_words_refl ss)

form-In :
    (fs : List (List String)) (ws : List String) → any (λ f. same_words f ws) fs ≡ true → In ws fs
form-In [] ws h = absurd (cc)
form-In (f ∷ fs) ws h = elim (Bool-cases (same_words f ws)) [
  | inl same ↦ here (sym (same_words-eq f ws same))
  | inr other ↦ there (form-In fs ws (ground (arith, other)))
]

In-form :
    (fs : List (List String)) (ws : List String) → In ws fs → any (λ f. same_words f ws) fs ≡ true
In-form (f ∷ fs) ws (here e) = ground (arith, ap (same_words f) e ∙ same_words_refl f)
In-form (f ∷ fs) ws (there m) = ground (arith, In-form fs ws m)
In-form [] ws m = elim m [ ]

-- A local command is admitted exactly when no character of it is one of the shell's and its words are
-- one of the four catalogued forms, whole and in order.
pub admit_local_command_iff :
    (command : String)
    → (admit_local_command command ≡ ok tt)
      ↔ ((any_char is_shell_char command ≡ false) × In (split_whitespace command) allowed_forms)
unfolding admit_local_command
admit_local_command_iff command = (
  λ h. elim (Bool-cases (any_char is_shell_char command)) [
    | inl bad ↦ absurd (ground (arith, bad))
    | inr plain ↦
        elim (Bool-cases (any (λ f. same_words f (split_whitespace command)) allowed_forms)) [
          | inl known ↦ (plain, form-In allowed_forms (split_whitespace command) known)
          | inr unknown ↦ absurd (cc (rw (plain, unknown) at h))
        ]
  ],
  λ (plain, m). rw (plain, In-form allowed_forms (split_whitespace command) m) refl,
)

-- A shell call whose command is a text that is not blank and is admitted.
pub record ShellCall (args : Value) : Type 0 where
  pub command : String
  pub named : get args "command" ≡ some (string command)
  pub typed : is_empty (trim command) ≡ false
  pub admitted : admit_local_command command ≡ ok tt

-- What a dispatch that passes the membrane is.
pub data Dispatchable (skill_name : String) (args : Value) : Type 0 where
  shell :
      str_eq skill_name "bash_eval" ≡ true
      → (is_object args || is_null args) ≡ true
      → ShellCall args
      → Dispatchable skill_name args
  skill :
      str_eq skill_name "bash_eval" ≡ false
      → contains allowed_skills skill_name ≡ true
      → (is_object args || is_null args) ≡ true
      → Dispatchable skill_name args

as_text-ok : (r : Result SecurityError (Unit {0})) → as_text r ≡ ok tt → r ≡ ok tt
as_text-ok (ok u) h = refl
as_text-ok (err e) h = absurd (cc)

blank_text : (s : String) → "" ≡ s → is_empty (trim s) ≡ true
unfolding trim
blank_text s e = rw (← e) refl

command_of-typed :
    (o : Option Value) (s : String)
    → command_of o ≡ ok s
    → is_empty (trim s) ≡ false
    → o ≡ some (string s)
command_of-typed none s h typed = absurd (cc (blank_text s (ground arith), typed))
command_of-typed (some (string t)) s h typed = ground arith
command_of-typed (some _) s h typed = absurd (cc)

check_shell-ShellCall : (args : Value) → check_shell args ≡ ok tt → ShellCall args
check_shell-ShellCall args h =
    let (s, got, rest) = >>=-eq-ok (command_of (get args "command")) _ h in
    elim (Bool-cases (is_empty (trim s))) [
      | inl blank ↦ absurd (cc (rw blank at rest))
      | inr typed ↦ record {
        command = s;
        named = command_of-typed (get args "command") s got typed;
        typed = typed;
        admitted = as_text-ok (admit_local_command s) (rw typed at rest);
      }
    ]

-- No listed name is blank.
none_blank :
    (ss : List String) (s : String)
    → all (λ x. not (is_empty (trim x))) ss ≡ true
    → contains ss s ≡ true
    → is_empty (trim s) ≡ false
none_blank [] s a h = absurd (cc)
none_blank (x ∷ ss) s a h = elim (Bool-cases (str_eq x s)) [
  | inl same ↦ rw (← (eq_iff x s).0 same) (ground (arith, a))
  | inr other ↦ none_blank ss s (ground (arith, a)) (ground (arith, other))
]

listed_typed : (s : String) → contains allowed_skills s ≡ true → is_empty (trim s) ≡ false
unfolding trim is_whitespace
listed_typed s h = none_blank allowed_skills s refl h

ShellCall-check_shell : (args : Value) → ShellCall args → check_shell args ≡ ok tt
ShellCall-check_shell args c = rw (c.named, c.typed, c.admitted) refl

module _ (escape_debug : String → String) (skill_name : String) (args : Value) where
  passed : pre_dispatch_check escape_debug skill_name args ≡ ok tt → Dispatchable skill_name args
  unfolding pre_dispatch_check
  passed h = elim (Bool-cases (is_empty (trim skill_name))) [
    | inl blank ↦ absurd (cc (rw blank at h))
    | inr typed ↦ elim (Bool-cases (contains allowed_skills skill_name)) [
      | inr unlisted ↦ absurd (cc (rw (typed, unlisted) at h))
      | inl listed ↦ elim (Bool-cases (is_object args || is_null args)) [
        | inr other ↦ absurd (cc (rw (typed, listed, other) at h))
        | inl object ↦ elim (Bool-cases (str_eq skill_name "bash_eval")) [
          | inl bash ↦
              shell bash object (check_shell-ShellCall args (rw (typed, listed, object, bash) at h))
          | inr plain ↦ skill plain listed object
        ]
      ]
    ]
  ]

  passes : Dispatchable skill_name args → pre_dispatch_check escape_debug skill_name args ≡ ok tt
  unfolding pre_dispatch_check
  passes (skill plain listed object) =
      rw (listed_typed skill_name listed, listed, object, plain) refl
  passes (shell bash object c) =
      let listed : contains allowed_skills skill_name ≡ true =
        ground (arith, eq_iff "bash_eval" skill_name, eq_iff skill_name "bash_eval") in
      rw (listed_typed skill_name listed, listed, object, bash) (ShellCall-check_shell args c)

  -- The membrane passes exactly the calls of a listed skill with an object or nothing for arguments,
  -- where `bash_eval` needs a command that is a text, not blank, and admitted as a local command.
  pub pre_dispatch_check_iff :
      (pre_dispatch_check escape_debug skill_name args ≡ ok tt) ↔ Dispatchable skill_name args
  pre_dispatch_check_iff = (passed, passes)
