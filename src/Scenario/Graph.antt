-- ===== src/Scenario/Graph.antt =====
-- `_check_no_cycles`: the successor graph of the injects, and what `TopologicalSorter.prepare` of
-- the standard library decides about it. It sorts by taking away, round by round, the nodes that
-- wait for no other; a cycle is what can never be taken away.
use iceberg_ttx.Prelude.{
  ℕ, zero, suc, String, Bool, List, [], ◌∷◌, ◌++◌, Option, none, some, ◌==◌, string_eq, any, select,
  null, length, if◌then◌else◌,
}
use iceberg_ttx.Errors.{Result, ValueError, cycle_detected, require}
use iceberg_ttx.Models.Scenario.{InjectNode, InjectOption}

abbrev pub to_list : Option String → List String
to_list none = []
to_list (some t) = t ∷ []

-- [opt.next_inject_id for opt in options if opt.next_inject_id is not None]
unfoldable pub option_targets : List InjectOption → List String
option_targets [] = []
option_targets (o ∷ os) = to_list o.next_inject_id ++ option_targets os

unfoldable pub successors : InjectNode → List String
successors n = option_targets n.options ++ to_list n.next_inject_id

-- graph[inj.id] = successors
pub record GraphNode : Type 0 where
  pub id : String
  pub targets : List String

-- graph[key] = targets: a key that the dict has keeps its place, and its value is replaced.
unfoldable pub set_key : String → List String → List GraphNode → List GraphNode
set_key key targets [] = record { id = key; targets = targets } ∷ []
set_key key targets (m ∷ g) =
    if m.id == key then record { id = key; targets = targets } ∷ g else m ∷ set_key key targets g

unfoldable pub set_keys : List GraphNode → List InjectNode → List GraphNode
unfolding set_key
set_keys g [] = g
set_keys g (n ∷ ns) = set_keys (set_key n.id (successors n) g) ns

unfoldable pub graph : List InjectNode → List GraphNode
unfolding set_keys
graph injects = set_keys [] injects

-- Some node that is still there is a target of `n`.
abbrev pub waits : List GraphNode → GraphNode → Bool
waits g n = any (λ t. any (λ m. m.id == t) g) n.targets

-- One round: the nodes with no target left go.
unfoldable pub round : List GraphNode → List GraphNode
round g = select (waits g) g

unfoldable pub rounds : ℕ → List GraphNode → List GraphNode
rounds zero g = g
rounds (suc k) g = rounds k (round g)

-- As many rounds as there are nodes: each but the last takes a node away.
unfoldable pub is_acyclic : List GraphNode → Bool
unfolding rounds round
is_acyclic g = null (rounds (length g) g)

unfoldable pub check_no_cycles : List InjectNode → Result ValueError (Unit {0})
unfolding is_acyclic graph
check_no_cycles injects = require (is_acyclic (graph injects)) cycle_detected
