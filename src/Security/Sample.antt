-- ===== src/Security/Sample.antt =====
-- A workspace `/w` with a shell that prints "ok", and a probe that finds everything safe: the sample
-- surroundings of src/security.rs and src/policy_guard.rs with which tests run.
use aegis_runtime.Security.Paths.{Component, root_dir, normal, normalize_path}
use aegis_runtime.Security.Shell.{Outside}
use aegis_runtime.Security.Gate.{F64, Probing}
use aegis_runtime.Prelude.{◌≡◌, List, [], ◌∷◌, none, some, true, ltb, leb, ok, arith}

abbrev pub workspace : List Component
workspace = root_dir ∷ normal "w" ∷ []

abbrev pub outside : Outside
outside = record {
  fs = record { exists = λ p. true; canonicalize = λ p. ok (normalize_path p); is_dir = λ p. true };
  escape_debug = λ s. s;
  sh = λ line dir. ok (record { success = true; code = some 0; stdout = "ok"; stderr = "" });
}

-- 0.9
abbrev pub likely : F64
likely = 0x3FECCCCCCCCCCCCD

abbrev pub probing : Probing
probing = record {
  evaluate =
      λ state ps. ok (record { noul_of = λ k. some likely; choice_of = λ k. some "contained" });
  less = ltb;
  le = leb;
  is_finite = λ x. true;
  parse_f64 = λ s. none;
  show = λ x. "0.9000";
  to_string = λ v. "{}";
}

pub less_trans : (a b c : F64) → ltb a b ≡ true → ltb b c ≡ true → ltb a c ≡ true
less_trans a b c h k = ground arith
