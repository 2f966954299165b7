-- ===== src/Scenario/Rounds.antt =====
-- What the rounds over a graph leave: nodes from which walks never end.
use iceberg_ttx.Prelude.{
  ℕ, zero, suc, ◌≤◌, String, true, List, [], ◌∷◌, ◌==◌, ◌≡◌, ◌≢◌, refl, ◌∙◌, arith, inl, inr, any,
  null, length, ==→≡, string_eq, ==_refl, Memᴰ, any-mem, mem-any, mem-select_of, mem-select,
  select-cases,
}
use iceberg_ttx.Scenario.Graph.{GraphNode, waits, round, rounds}

-- A walk of that many steps, each from a node of the graph to one of its targets.
pub data GraphWalk (g : List GraphNode) : String → String → ℕ → Type 0 where
  stop : {a : String} → GraphWalk g a a zero
  step :
      {b : String} {k : ℕ} (n : GraphNode) (t : String)
      → Memᴰ n g
      → Memᴰ t n.targets
      → GraphWalk g t b k
      → GraphWalk g n.id b (suc k)

-- A node whose target goes on is still there after a round.
mem-round :
    (g : List GraphNode) (n m : GraphNode)
    → Memᴰ n g
    → Memᴰ m g
    → Memᴰ m.id n.targets
    → Memᴰ n (round g)
unfolding round
mem-round g n m hn hm ht = mem-select_of (waits g) n g hn (
    any-mem (λ t. any (λ o. o.id == t) g) m.id n.targets ht
      (any-mem (λ o. o.id == m.id) m g hm (==_refl m.id)))

-- A round shortens each walk by its last step at most.
GraphWalk-round :
    {g : List GraphNode} {a b : String} {k : ℕ}
    → GraphWalk g a b (suc k)
    → (c : String) × GraphWalk (round g) a c k
GraphWalk-round (step n t hn ht stop) = (n.id, stop)
GraphWalk-round {g} (step n t hn ht (step m u hm hu w)) =
    let (c, w') = GraphWalk-round (step m u hm hu w) in
    (c, step n m.id (mem-round g n m hn hm ht) ht w')

pub GraphWalk-bound :
    (k : ℕ) {g : List GraphNode} {a b : String} {l : ℕ}
    → rounds k g ≡ []
    → GraphWalk g a b l
    → l ≤ k
unfolding rounds
GraphWalk-bound k h stop = omega arith
GraphWalk-bound zero {g} h (step n t hn ht w) = elim (rw h at hn) [ ]
GraphWalk-bound (suc k) {g} h (step n t hn ht w) =
    let (c, w') = GraphWalk-round (step n t hn ht w) in omega (arith, GraphWalk-bound k h w')

-- What is left after enough rounds: nodes of the graph that all wait for one another.
pub record Core (g core : List GraphNode) : Type 0 where
  pub inhabited : core ≢ []
  pub inside : (n : GraphNode) → Memᴰ n core → Memᴰ n g
  pub stable : round core ≡ core

rounds_stable : (k : ℕ) (g : List GraphNode) → round g ≡ g → rounds k g ≡ g
unfolding rounds
rounds_stable zero g h = refl
rounds_stable (suc k) g h = rw h (rounds_stable k g h)

pub rounds-Core :
    (k : ℕ) (g : List GraphNode)
    → length g ≤ k
    → rounds k g ≢ []
    → (core : List GraphNode) × Core g core
unfolding rounds round
rounds-Core zero [] le h = absurd (h refl)
rounds-Core zero (n ∷ g) le h = absurd (omega arith)
rounds-Core (suc k) g le h = elim (select-cases (waits g) g) [
  | inl e ↦ (
    g,
    record {
      inhabited = λ nil. h (unfold round in rw e (rounds_stable k g e ∙ nil));
      inside = λ n m. m;
      stable = e;
    },
  )
  | inr l ↦
      let (core, c) = rounds-Core k (round g) (omega arith) h in
      (
        core,
        record {
          inhabited = c.inhabited;
          inside = λ n m. (mem-select (waits g) n g (c.inside n m)).0;
          stable = c.stable;
        },
      )
]

pub GraphWalk-mono :
    {g h : List GraphNode} {a b : String} {k : ℕ}
    → ((n : GraphNode) → Memᴰ n g → Memᴰ n h)
    → GraphWalk g a b k
    → GraphWalk h a b k
GraphWalk-mono sub stop = stop
GraphWalk-mono sub (step n t hn ht w) = step n t (sub n hn) ht (GraphWalk-mono sub w)

-- In a stable graph each node has a step to another, without end.
pub stable-GraphWalk :
    (k : ℕ) (g : List GraphNode) (n : GraphNode)
    → round g ≡ g
    → Memᴰ n g
    → (b : String) × GraphWalk g n.id b k
unfolding round
stable-GraphWalk zero g n h m = (n.id, stop)
stable-GraphWalk (suc k) g n h m =
    let (_, e) = mem-select (waits g) n g (rw h m) in
    let (t, ht, e') = mem-any (λ t. any (λ o. o.id == t) g) n.targets e in
    let (o, ho, e'') = mem-any (λ o. o.id == t) g e' in
    let (b, w) = stable-GraphWalk k g o h ho in (b, step n t m ht (rw (==→≡ o.id t e'') at w))

pub null-eq : (g : List GraphNode) → null g ≡ true → g ≡ []
null-eq [] h = refl
null-eq (n ∷ g) h = cc

pub head_of : (g : List GraphNode) → g ≢ [] → (n : GraphNode) × Memᴰ n g
head_of [] h = absurd (h refl)
head_of (n ∷ g) h = (n, Memᴰ.head refl)
