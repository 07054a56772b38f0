-- ===== src/Workflow/Builder/Cycle.antt =====
-- `find_cycle` of src/orchestration/workflow.rs returns a cycle of the tasks, in dependency order.
use mathlib.Core.List.{reverse, reverse-append}
use aegis_runtime.Workflow.Types.{TaskNode}
use aegis_runtime.Workflow.Builder.Unseen.{unseen, unseen-lt, unseen-le_self, position-none}
use aegis_runtime.Workflow.Builder.{
  is_left, dep_left, first_left, position, ids_at, walk, find_cycle,
}
use aegis_runtime.Workflow.Builder.Invariant.{Inv, left}
use aegis_runtime.Workflow.Builder.Left.{Known, left-LeftDep, first_left-is_left, is_left-get}
use aegis_runtime.Prelude.{
  ℕ, zero, suc, ◌+◌, ◌<◌, String, ◌≡◌, refl, ap, List, [], ◌∷◌, ◌++◌, true, ◌∙◌, ◌==◌, ==_iff,
  length, get_elem?, All, All-In, In, here, there, arith, none, some, Option-cases, Bool-cases, inl,
  inr, drop,
}

-- Task a lists b as a predecessor.
pub record DependsOn (tasks : List TaskNode) (a b : String) : Type 0 where
  pub task : TaskNode
  pub known : In task tasks
  pub named : task.id ≡ a
  pub dep : In b task.deps

-- Each id is a predecessor of the one behind it, and the last of z.
abbrev pub Chain : List TaskNode → String → List String → String → Type 0
Chain tasks a [] z = DependsOn tasks z a
Chain tasks a (b ∷ bs) z = DependsOn tasks b a × Chain tasks b bs z

-- Each id is a predecessor of the one behind it, and the last of the first.
abbrev pub IsCycle : List TaskNode → List String → Type 0
IsCycle tasks [] = ⊥
IsCycle tasks (a ∷ bs) = Chain tasks a bs a

Chain-snoc :
    (tasks : List TaskNode) (a : String) (bs : List String) (x z : String)
    → Chain tasks a bs x
    → DependsOn tasks z x
    → Chain tasks a (bs ++ x ∷ []) z
Chain-snoc tasks a [] x z c e = (c, e)
Chain-snoc tasks a (b ∷ bs) x z (d, c) e = (d, Chain-snoc tasks b bs x z c e)

get_elem?-In : (ts : List TaskNode) (i : ℕ) (t : TaskNode) → get_elem? ts i ≡ some t → In t ts
get_elem?-In [] i t e = absurd (ground arith)
get_elem?-In (u ∷ ts) zero t e = here (ground arith)
get_elem?-In (u ∷ ts) (suc i) t e = there (get_elem?-In ts i t e)

get_elem?-length :
    (ts : List TaskNode) (i : ℕ) (t : TaskNode) → get_elem? ts i ≡ some t → i < length ts
get_elem?-length [] i t e = absurd (ground arith)
get_elem?-length (u ∷ ts) zero t e = omega arith
get_elem?-length (u ∷ ts) (suc i) t e = omega (arith, get_elem?-length ts i t e)

module _ (tasks : List TaskNode) where
  -- A link from a position to that of a predecessor.
  record Edge (i j : ℕ) : Type 0 where
    task : TaskNode
    dep : TaskNode
    at : get_elem? tasks i ≡ some task
    dep_at : get_elem? tasks j ≡ some dep
    listed : In dep.id task.deps

  abbrev Trail : List ℕ → ℕ → Type 0
  Trail [] cur = ⊥
  Trail (a ∷ []) cur = a ≡ cur
  Trail (a ∷ b ∷ ps) cur = Edge a b × Trail (b ∷ ps) cur

  Trail-snoc : (path : List ℕ) (cur x : ℕ) → Trail path cur → Edge cur x → Trail (path ++ x ∷ []) x
  Trail-snoc [] cur x t e = absurd t
  Trail-snoc (a ∷ []) cur x t e = (rw t e, refl)
  Trail-snoc (a ∷ b ∷ ps) cur x (l, t) e = (l, Trail-snoc (b ∷ ps) cur x t e)

  -- The end of a path that the walk closes.
  Trail-drop :
      (path : List ℕ) (cur x pos : ℕ)
      → Trail path cur
      → position path x ≡ some pos
      → (rest : List ℕ) × (drop pos path ≡ x ∷ rest) × Trail (x ∷ rest) cur
  unfolding position
  Trail-drop [] cur x pos t e = absurd t
  Trail-drop (a ∷ []) cur x pos t e = elim (Bool-cases (a == x)) [
    | inl hit ↦
        let same : a ≡ x = (==_iff a x).0 hit in
        let start : pos ≡ 0 = ground (arith, hit) in ([], rw (start, same), rw same at t)
    | inr miss ↦ absurd (ground (arith, miss))
  ]
  Trail-drop (a ∷ b ∷ ps) cur x pos t e = elim (Bool-cases (a == x)) [
    | inl hit ↦
        let same : a ≡ x = (==_iff a x).0 hit in
        let start : pos ≡ 0 = ground (arith, hit) in (b ∷ ps, rw (start, same), rw same at t)
    | inr miss ↦ elim (Option-cases (position (b ∷ ps) x)) [
      | inl missing ↦ absurd (ground (arith, miss, missing))
      | inr (i, found) ↦
          let (rest, cut, t') = Trail-drop (b ∷ ps) cur x i t.1 found in
          let next : pos ≡ suc i = ground (arith, miss, found) in (rest, rw next cut, t')
    ]
  ]

  -- The ids of a trail from the task `first` at i, read backwards.
  record Backwards (first : TaskNode) (i : ℕ) (rest : List ℕ) (cur : ℕ) : Type 0 where
    last : TaskNode
    others : List String
    last_at : get_elem? tasks cur ≡ some last
    reads : reverse (ids_at tasks (i ∷ rest)) ≡ last.id ∷ others
    chain : (z : String) → DependsOn tasks z first.id → Chain tasks last.id others z

  at-DependsOn :
      (i : ℕ) (t u : TaskNode)
      → get_elem? tasks i ≡ some t
      → In u.id t.deps
      → (v : TaskNode) → get_elem? tasks i ≡ some v
      → DependsOn tasks v.id u.id
  at-DependsOn i t u got listed v got' =
      let same : t ≡ v = ground (arith, got, got') in
      record {
        task = t;
        known = get_elem?-In tasks i t got;
        named = ap (λ n. n.id) same;
        dep = listed;
      }

  Trail-Backwards :
      (i : ℕ) (rest : List ℕ) (cur : ℕ) (t : TaskNode)
      → Trail (i ∷ rest) cur
      → get_elem? tasks i ≡ some t
      → Backwards t i rest cur
  unfolding ids_at
  Trail-Backwards i [] cur t trail got = record {
    last = t;
    others = [];
    last_at = rw (← trail) got;
    reads = rw (got, ids_at);
    chain = λ z d. d;
  }
  Trail-Backwards i (j ∷ rest) cur t (edge, trail) got =
      let b = Trail-Backwards j rest cur edge.dep trail edge.dep_at in
      let link = at-DependsOn i edge.task edge.dep edge.at edge.listed t got in
      record {
        last = b.last;
        others = b.others ++ t.id ∷ [];
        last_at = b.last_at;
        reads =
            rw (got, ids_at)
              (reverse-append (t.id ∷ []) (ids_at tasks (j ∷ rest))
                ∙ ap (λ l. l ++ t.id ∷ []) b.reads);
        chain = λ z d. Chain-snoc tasks b.last.id b.others t.id z (b.chain t.id link) d;
      }

  -- The two ways that a round of the walk ends.
  module _ (fuel : ℕ) (ds : List ℕ) (start : ℕ) (path : List ℕ) (cur : ℕ) (t : TaskNode) (n : ℕ)
      (got : get_elem? tasks cur ≡ some t) (finds : dep_left tasks ds t.deps ≡ some n) where
    walk-close :
        (pos : ℕ)
        → position path n ≡ some pos
        → walk (suc fuel) tasks ds start path cur ≡ some (reverse (ids_at tasks (drop pos path)))
    unfolding walk
    walk-close pos found = ground arith

    walk-next :
        position path n ≡ none
        → walk (suc fuel) tasks ds start path cur ≡ walk fuel tasks ds start (path ++ n ∷ []) n
    unfolding walk
    walk-next new = ground arith

  module _ (ds : List ℕ) (done : List String) (inv : Inv done [] 0 tasks ds)
      (known : All (λ t. All (Known tasks) t.deps) tasks) where
    walk-IsCycle :
        (fuel start : ℕ) (path : List ℕ) (cur : ℕ)
        → Trail path cur
        → is_left ds cur ≡ true
        → unseen (length tasks) path < fuel
        → (c : List String) × (walk fuel tasks ds start path cur ≡ some c) × IsCycle tasks c
    unfolding walk
    walk-IsCycle zero start path cur trail waits room = absurd (omega arith)
    walk-IsCycle (suc fuel) start path cur trail waits room =
        let (t, got) = is_left-get done 0 cur tasks ds inv waits in
        let deps_known =
          All-In (λ u. All (Known tasks) u.deps) known (get_elem?-In tasks cur t got) in
        let d = left-LeftDep tasks ds done inv cur t got waits deps_known in
        elim (Option-cases (position path d.at)) [
          | inr (pos, found) ↦
              let (rest, cut, trail') = Trail-drop path cur d.at pos trail found in
              let b = Trail-Backwards d.at rest cur d.task trail' d.there_is in
              (
                b.last.id ∷ b.others,
                walk-close fuel ds start path cur t d.at got d.finds pos found
                    ∙ ap (λ l. some (reverse (ids_at tasks l))) cut
                    ∙ ap some b.reads,
                b.chain b.last.id (at-DependsOn cur t d.task got d.dep b.last b.last_at),
              )
          | inl new ↦
              let edge : Edge cur d.at = record {
                task = t;
                dep = d.task;
                at = got;
                dep_at = d.there_is;
                listed = d.dep;
              } in
              let (c, returns, closed) =
                walk-IsCycle fuel start (path ++ d.at ∷ []) d.at
                  (Trail-snoc path cur d.at trail edge) d.still_left
                  (omega (
                    arith,
                    unseen-lt (length tasks) d.at path
                        (get_elem?-length tasks d.at d.task d.there_is)
                        (position-none path d.at new),
                  )) in
              (c, walk-next fuel ds start path cur t d.at got d.finds new ∙ returns, closed)
        ]

    pub find_cycle-IsCycle :
        0 < left ds → (c : List String) × (find_cycle tasks ds ≡ some c) × IsCycle tasks c
    unfolding find_cycle
    find_cycle-IsCycle pos =
        let (j, found, waits) = first_left-is_left 0 ds pos in
        let start : first_left 0 ds ≡ some j = found ∙ ap some (omega arith) in
        let (c, returns, closed) =
          walk-IsCycle (length tasks + 1) j (j ∷ []) j refl waits
            (omega (arith, unseen-le_self (length tasks) (j ∷ []))) in
        (c, rw (start, find_cycle) returns, closed)
