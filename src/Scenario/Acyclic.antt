-- ===== src/Scenario/Acyclic.antt =====
-- What `check_no_cycles` decides: whether walks along successors must end.
use iceberg_ttx.Prelude.{
  ℕ, zero, suc, ◌≤◌, String, false, List, [], map, ◌≡◌, ◌≢◌, arith, inl, inr, length, Bool-cases,
  string_eq, has_duplicates, Memᴰ,
}
use iceberg_ttx.Errors.{ok, err, cycle_detected}
use iceberg_ttx.Models.Scenario.{InjectNode}
use iceberg_ttx.Scenario.Graph.{graph, rounds, is_acyclic, check_no_cycles}
use iceberg_ttx.Scenario.Rounds.{
  GraphWalk, GraphWalk-bound, rounds-Core, GraphWalk-mono, stable-GraphWalk, null-eq, head_of,
}
use iceberg_ttx.Scenario.Dict.{
  Follows, Follows-successors, successors-Follows, entry_of, graph-source, graph-has, length-graph,
}

-- A walk of that many steps, each from an inject to a target that it or one of its options names.
pub data Walk (injects : List InjectNode) : String → String → ℕ → Type 0 where
  stay : {a : String} → Walk injects a a zero
  go :
      {b : String} {k : ℕ} (n : InjectNode) (t : String)
      → Memᴰ n injects
      → Follows n t
      → Walk injects t b k
      → Walk injects n.id b (suc k)

Walk-graph :
    (injects : List InjectNode) {a b : String} {k : ℕ}
    → has_duplicates (map (λ (n : InjectNode). n.id) injects) ≡ false
    → Walk injects a b k
    → GraphWalk (graph injects) a b k
Walk-graph injects distinct stay = GraphWalk.stop
Walk-graph injects distinct (go n t m f w) =
    GraphWalk.step (entry_of n) t (graph-has injects n distinct m) (Follows-successors n t f)
      (Walk-graph injects distinct w)

graph-Walk :
    (injects : List InjectNode) {a b : String} {k : ℕ}
    → GraphWalk (graph injects) a b k
    → Walk injects a b k
graph-Walk injects GraphWalk.stop = stay
graph-Walk injects (GraphWalk.step m t h ht w) =
    let (n, mem, e) = graph-source injects m h in
    rw e (go n t mem (successors-Follows n t (rw e at ht)) (graph-Walk injects w))

-- Where the cycle check passes on injects with distinct ids, every walk from inject to inject,
-- along their next injects and those of their options, has at most as many steps as there are
-- injects.
pub check_no_cycles-bounds :
    (injects : List InjectNode) {a b : String} {k : ℕ}
    → has_duplicates (map (λ (n : InjectNode). n.id) injects) ≡ false
    → check_no_cycles injects ≡ ok tt
    → Walk injects a b k
    → k ≤ length injects
unfolding check_no_cycles
check_no_cycles-bounds injects distinct h w = elim (Bool-cases (is_acyclic (graph injects))) [
  | inl e ↦
      let g = graph injects in
      let done : rounds (length g) g ≡ [] = unfold is_acyclic in null-eq (rounds (length g) g) e in
      omega (
        arith,
        GraphWalk-bound (length g) done (Walk-graph injects distinct w),
        length-graph injects,
      )
  | inr e ↦ cc (rw e at h)
]

-- Where the cycle check raises, there are walks of every length from inject to inject, along their
-- next injects and those of their options.
pub check_no_cycles-endless :
    (injects : List InjectNode) (k : ℕ)
    → check_no_cycles injects ≡ err cycle_detected
    → (a : String) × (b : String) × Walk injects a b k
unfolding check_no_cycles is_acyclic
check_no_cycles-endless injects k h =
    let g = graph injects in
    let left : rounds (length g) g ≢ [] = λ e. cc (rw e at h) in
    let (core, c) = rounds-Core (length g) g (omega arith) left in
    let (n, m) = head_of core c.inhabited in
    let (b, w) = stable-GraphWalk k core n c.stable m in
    (n.id, b, graph-Walk injects (GraphWalk-mono c.inside w))
