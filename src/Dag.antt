-- ===== src/Dag.antt =====
-- The dependency graph of a workflow (internal/workflow/executor/dag.go). `nodes` is the Go map of
-- nodes as a list with distinct names, in the order of insertion. The order in which Go ranges over
-- that map is not specified: it is an argument, `order`, a list of the node names.
pub mod Graph
pub mod Edges
pub mod Declare
pub mod Unvisited
pub mod Walk
pub mod Build
pub mod Ready
pub mod Samples
use ottoflow.Prelude.{
  ℕ, zero, suc, String, Bool, true, false, Option, none, some, List, [], ◌∷◌, ◌++◌, ◌==◌, length,
  contains, insert, lookup, if◌then◌else◌, not,
}
use ottoflow.Api.Step.{Step}

pub record Node : Type 0 where
  pub name : String
  pub step : Step
  pub dependencies : List String
  pub dependents : List String

pub record Dag : Type 0 where
  pub nodes : List Node
  pub edges : List (String × List String)

abbrev pub new_dag : Dag
new_dag = record { nodes = []; edges = [] }

-- `d.nodes[name]`
unfoldable pub find : String → List Node → Option Node
find name [] = none
find name (n ∷ ns) = if n.name == name then some n else find name ns

-- GetNode
unfoldable pub get_node : Dag → String → Option Node
unfolding find
get_node d name = find name d.nodes

-- AddNode keeps the node that is there.
pub add_node : Dag → Step → Dag
unfolding find
add_node d s = elim (find s.name d.nodes) [
  | none ↦ record d {
    nodes = d.nodes ++ record { name = s.name; step = s; dependencies = []; dependents = [] } ∷ [];
  }
  | some _ ↦ d
]

-- `append` unless it is there
pub add_name : String → List String → List String
add_name a xs = if contains a xs then xs else xs ++ a ∷ []

-- A node is a pointer: a write through `d.nodes[name]` is seen in the map.
pub add_dependent : String → String → List Node → List Node
unfolding add_name
add_dependent name a [] = []
add_dependent name a (n ∷ ns) =
    let rest = add_dependent name a ns in
    if n.name == name then record n { dependents = add_name a n.dependents } ∷ ns else n ∷ rest

pub add_dependency : String → String → List Node → List Node
unfolding add_name
add_dependency name a [] = []
add_dependency name a (n ∷ ns) =
    let rest = add_dependency name a ns in
    if n.name == name then record n { dependencies = add_name a n.dependencies } ∷ ns else n ∷ rest

-- `d.edges[from] = append(d.edges[from], to)`
track : String → String → List (String × List String) → List (String × List String)
track from to es = elim (lookup from es) [
  | none ↦ insert from (to ∷ []) es
  | some ts ↦ insert from (ts ++ to ∷ []) es
]

-- AddEdge
pub add_edge : Dag → String → String → Dag
unfolding find track
add_edge d from to = elim (find from d.nodes) [
  | none ↦ d
  | some _ ↦ elim (find to d.nodes) [
    | none ↦ d
    | some _ ↦ record {
      nodes = add_dependency to from (add_dependent from to d.nodes);
      edges = track from to d.edges;
    }
  ]
]

-- `map[string]bool`
abbrev pub Flags : Type 0
Flags = String → Bool

abbrev pub unset : Flags
unset _ = false

abbrev pub mark : String → Bool → Flags → Flags
mark k v f = λ j. if k == j then v else f j

-- What hasCycleDFS leaves: `found` is its answer true, `clear` its answer false with the two maps.
-- `crash` is a nil node dereferenced, and `out_of_fuel` is no outcome of the program; Walk shows
-- that neither comes up.
pub data Outcome : Type 0 where
  found crash out_of_fuel : Outcome
  clear : Flags → Flags → Outcome

-- After a visit without a cycle the caller goes on with the two maps; any other outcome is its own.
pub resume : Outcome → (Flags → Flags → Outcome) → Outcome
resume (clear visited stack) k = k visited stack
resume found k = found
resume crash k = crash
resume out_of_fuel k = out_of_fuel

-- The loop of hasCycleDFS over the dependents of a node, where `visit` is the recursive call.
pub scan : (String → Flags → Flags → Outcome) → List String → Flags → Flags → Outcome
unfolding resume
scan visit [] visited stack = clear visited stack
scan visit (w ∷ ws) visited stack = elim (visited w) [
  | false ↦ resume (visit w visited stack) (scan visit ws)
  | true ↦ elim (stack w) [ true ↦ found | false ↦ scan visit ws visited stack ]
]

-- hasCycleDFS. Fuel bounds the depth of the calls, each of which marks a node as visited.
pub has_cycle_dfs : ℕ → List Node → String → Flags → Flags → Outcome
unfolding find scan resume
has_cycle_dfs zero ns u visited stack = out_of_fuel
has_cycle_dfs (suc f) ns u visited stack = elim (find u ns) [
  | none ↦ crash
  | some n ↦
      resume (scan (has_cycle_dfs f ns) n.dependents (mark u true visited) (mark u true stack))
        (λ visited' stack'. clear visited' (mark u false stack'))
]

-- The loop of HasCycle.
pub cycle_loop : ℕ → List Node → List String → Flags → Flags → Outcome
unfolding has_cycle_dfs resume
cycle_loop f ns [] visited stack = clear visited stack
cycle_loop f ns (u ∷ us) visited stack = elim (visited u) [
  | true ↦ cycle_loop f ns us visited stack
  | false ↦ resume (has_cycle_dfs f ns u visited stack) (cycle_loop f ns us)
]

-- The answer that HasCycle returns, if it returns.
pub answer : Outcome → Option Bool
answer (clear visited stack) = some false
answer found = some true
answer crash = none
answer out_of_fuel = none

-- HasCycle
pub has_cycle : Dag → List String → Option Bool
unfolding cycle_loop answer
has_cycle d order = answer (cycle_loop (length d.nodes) d.nodes order unset unset)

-- GetReadySteps: the loop body, and the loop over the nodes in the order of the map.
unfoldable pub all_completed : Flags → List String → Bool
all_completed completed [] = true
all_completed completed (x ∷ xs) = if not (completed x) then false else all_completed completed xs

unfoldable pub get_ready_steps : Dag → List String → Flags → List String
unfolding find all_completed
get_ready_steps d [] completed = []
get_ready_steps d (name ∷ names) completed =
    let rest = get_ready_steps d names completed in
    if completed name then rest else elim (find name d.nodes) [
      | none ↦ rest
      | some n ↦ if all_completed completed n.dependencies then name ∷ rest else rest
    ]

pub data BuildError : Type 0 where
  missing_dependency : (step dependency : String) → BuildError
  circular_dependencies : BuildError
  no_answer : BuildError  -- HasCycle crashed: not an outcome, by Build

pub data Result (A : Type 0) : Type 0 where
  ok : A → Result A
  err : BuildError → Result A

-- Step 1 of BuildDAG
pub add_nodes : List Step → Dag → Dag
unfolding add_node
add_nodes [] d = d
add_nodes (s ∷ ss) d = add_nodes ss (add_node d s)

-- Step 2: the dependencies of one step, then of all
pub add_dependencies : String → List String → Dag → Result Dag
unfolding get_node add_edge
add_dependencies name [] d = ok d
add_dependencies name (a ∷ as') d = elim (get_node d a) [
  | none ↦ err (missing_dependency name a)
  | some _ ↦ add_dependencies name as' (add_edge d a name)
]

pub add_edges : List Step → Dag → Result Dag
unfolding add_dependencies
add_edges [] d = ok d
add_edges (s ∷ ss) d = elim (add_dependencies s.name s.depends_on d) [
  | ok d' ↦ add_edges ss d'
  | err e ↦ err e
]

-- The order of the map's range is a function of the nodes that are there.
unfoldable pub node_names : List Node → List String
node_names [] = []
node_names (n ∷ ns) = n.name ∷ node_names ns

-- Step 3: the graph, unless HasCycle says that it has a cycle.
pub conclude : Dag → Option Bool → Result Dag
conclude d none = err no_answer
conclude d (some true) = err circular_dependencies
conclude d (some false) = ok d

-- BuildDAG. `range` gives the order in which HasCycle meets the node names.
pub build_dag : (List String → List String) → List Step → Result Dag
unfolding add_nodes add_edges has_cycle node_names conclude
build_dag range steps = elim (add_edges steps (add_nodes steps new_dag)) [
  | err e ↦ err e
  | ok d ↦ conclude d (has_cycle d (range (node_names d.nodes)))
]
