-- ===== src/Workflow/Coordinator/Bodies.antt =====
-- The list of spawned bodies of src/orchestration/workflow.rs: what ending, joining and spawning one
-- does to their names and to the permits.
use aegis_runtime.Workflow.Types.{TaskNode}
use aegis_runtime.Workflow.Executor.{Joined}
use aegis_runtime.Workflow.Coordinator.{unfinished, end_body, take_ended, node_of}
use aegis_runtime.Prelude.{
  Distinct, suc, ◌+◌, ◌≤◌, String, ◌≡◌, refl, sym, ap, List, [], ◌∷◌, ◌++◌, Option, none, some,
  Bool, true, false, str_eq, eq_iff, contains, keys, length, In, here, there, arith, Bool-cases,
  Option-cases, inl, inr,
}

pub keys-end_body :
    (id : String) (j : Joined) (rs : List (String × Option Joined))
    → keys (end_body id j rs) ≡ keys rs
keys-end_body id j [] = refl
keys-end_body id j ((k, some r) ∷ rs) = ap (λ l. k ∷ l) (keys-end_body id j rs)
keys-end_body id j ((k, none) ∷ rs) = elim (Bool-cases (str_eq k id)) [
  | inl same ↦ rw same
  | inr other ↦ rw other (ap (λ l. k ∷ l) (keys-end_body id j rs))
]

pub unfinished-end_body :
    (id : String) (j : Joined) (rs : List (String × Option Joined))
    → unfinished (end_body id j rs) ≤ unfinished rs
unfinished-end_body id j [] = omega arith
unfinished-end_body id j ((k, some r) ∷ rs) = unfinished-end_body id j rs
unfinished-end_body id j ((k, none) ∷ rs) = ground (arith, unfinished-end_body id j rs)

pub length-keys : (rs : List (String × Option Joined)) → length (keys rs) ≡ length rs
length-keys [] = refl
length-keys (r ∷ rs) = ap suc (length-keys rs)

pub unfinished-snoc :
    (id : String) (rs : List (String × Option Joined))
    → unfinished (rs ++ (id, none) ∷ []) ≡ unfinished rs + 1
unfinished-snoc id [] = omega arith
unfinished-snoc id ((k, none) ∷ rs) = omega (arith, unfinished-snoc id rs)
unfinished-snoc id ((k, some j) ∷ rs) = unfinished-snoc id rs

-- Taking the result of an ended body removes that body and frees no permit.
pub record Taken (id : String) (rs rest : List (String × Option Joined)) : Type 0 where
  pub has : contains (keys rs) id ≡ true
  pub gone : contains (keys rest) id ≡ false
  pub others : (k : String) → str_eq id k ≡ false → contains (keys rest) k ≡ contains (keys rs) k
  pub distinct : Distinct (keys rest)
  pub permits : unfinished rest ≡ unfinished rs
  pub fewer : length rs ≡ suc (length rest)

-- The body before the one that is taken stays; its name is another one.
Taken-cons :
    (id k : String) (o : Option Joined) (rs tail : List (String × Option Joined))
    → Distinct (keys ((k, o) ∷ rs))
    → Taken id rs tail
    → Taken id ((k, o) ∷ rs) ((k, o) ∷ tail)
Taken-cons id k o rs tail (fresh, dist) t =
    let other : str_eq k id ≡ false = apart (str_eq k id) refl in
    record {
      has = ground (arith, other, t.has);
      gone = ground (arith, other, t.gone);
      others = λ x ne. ground (arith, t.others x ne);
      distinct = (ground (arith, fresh, t.others k (flip other)), t.distinct);
      permits = same o;
      fewer = omega (arith, t.fewer);
    }
  where
    apart : (b : Bool) → str_eq k id ≡ b → b ≡ false
    apart true e = absurd (cc (rw ((eq_iff k id).0 e) at fresh, t.has))
    apart false e = refl

    flip : str_eq k id ≡ false → str_eq id k ≡ false
    flip e = ground (arith, e, eq_iff k id, eq_iff id k)

    same : (p : Option Joined) → unfinished ((k, p) ∷ tail) ≡ unfinished ((k, p) ∷ rs)
    same none = ap suc t.permits
    same (some _) = t.permits

pub take_ended-Taken :
    (id : String) (rs : List (String × Option Joined)) (j : Joined)
    (rest : List (String × Option Joined))
    → Distinct (keys rs)
    → take_ended id rs ≡ some (j, rest)
    → Taken id rs rest
take_ended-Taken id [] j rest dist e = absurd (ground arith)
take_ended-Taken id ((k, none) ∷ rs) j rest dist e = elim (Option-cases (take_ended id rs)) [
  | inl missing ↦ absurd (ground (arith, missing))
  | inr ((r, tail), found) ↦
      let t = take_ended-Taken id rs r tail dist.1 found in
      let same : rest ≡ (k, none) ∷ tail = ground (arith, found) in
      rw same (Taken-cons id k none rs tail dist t)
]
take_ended-Taken id ((k, some o) ∷ rs) j rest dist e = elim (Bool-cases (str_eq k id)) [
  | inl hit ↦
      let at : k ≡ id = (eq_iff k id).0 hit in
      let same : rest ≡ rs = ground (arith, hit) in
      rw same (record {
        has = ground (arith, hit);
        gone = rw at at dist.0;
        others = λ x ne. ground (arith, at, ne);
        distinct = dist.1;
        permits = refl;
        fewer = refl;
      })
  | inr miss ↦ elim (Option-cases (take_ended id rs)) [
    | inl missing ↦ absurd (ground (arith, miss, missing))
    | inr ((r, tail), found) ↦
        let t = take_ended-Taken id rs r tail dist.1 found in
        let same : rest ≡ (k, some o) ∷ tail = ground (arith, miss, found) in
        rw same (Taken-cons id k (some o) rs tail dist t)
  ]
]

pub node_of-In :
    (ts : List TaskNode) (id : String) (t : TaskNode)
    → node_of ts id ≡ some t
    → In t ts × (t.id ≡ id)
node_of-In [] id t e = absurd (ground arith)
node_of-In (u ∷ ts) id t e = elim (Bool-cases (str_eq u.id id)) [
  | inl hit ↦
      let same : u ≡ t = ground (arith, hit) in
      (here (sym same), rw (← same) ((eq_iff u.id id).0 hit))
  | inr miss ↦ let (m, at) = node_of-In ts id t (ground (arith, miss)) in (there m, at)
]
