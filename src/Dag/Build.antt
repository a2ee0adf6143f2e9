-- ===== src/Dag/Build.antt =====
-- BuildDAG against its specification on the steps.
use ottoflow.Prelude.{
  String, Bool, true, false, Option, none, some, List, [], ◌∷◌, ◌≡◌, refl, sym, ◌∙◌, contains,
  arith, length,
}
use ottoflow.Api.Step.{Step}
use ottoflow.Dag.{
  Node, Dag, find, new_dag, has_cycle, answer, cycle_loop, unset, Outcome, found, crash,
  out_of_fuel, clear, node_names, add_nodes, add_edges, build_dag, conclude, Result, ok, err,
  missing_dependency, circular_dependencies, no_answer,
}
use ottoflow.Dag.Graph.{
  Graph, Edge, Cycle, successors, predecessors, Chain-map, chain-head, grounded-acyclic,
}
use ottoflow.Dag.Edges.{has_node, forward, backward}
use ottoflow.Dag.Declare.{
  Declared, added, dangling, declares, is_step, add_edges-Declared, add_nodes-Fresh,
}
use ottoflow.Dag.Walk.{IsClosed, Looped, loop-Looped}

-- A step depends on each name that it declares: `a` comes before `b`.
abbrev pub Depends : List Step → Graph
Depends steps a b = declares steps a b ≡ true

-- Go's `range` over a map meets each key.
abbrev pub RangeOk : (List String → List String) → Type 0
RangeOk range = (names : List String) (a : String) → contains a (range names) ≡ contains a names

-- Every dependency names a step.
abbrev pub IsResolved : List Step → Type 0
IsResolved steps = (a b : String) → Depends steps a b → is_step steps a ≡ true

-- The graph holds a node for each step's name, and the declared edges in both directions.
pub record Holds (steps : List Step) (d : Dag) : Type 0 where
  pub nodes : (a : String) → has_node d.nodes a ≡ is_step steps a
  pub forwards : (a b : String) → forward d.nodes a b ≡ declares steps a b
  pub backwards : (a b : String) → backward d.nodes a b ≡ declares steps a b

abbrev pub Verdict : List Step → Result Dag → Type 0
Verdict steps (ok d) = Holds steps d × IsResolved steps × (¬ Cycle (Depends steps))
Verdict steps (err (missing_dependency b a)) = Depends steps a b × (is_step steps a ≡ false)
Verdict steps (err circular_dependencies) = IsResolved steps × Cycle (Depends steps)
Verdict steps (err no_answer) = ⊥

pub contains-node_names : (a : String) (ns : List Node) → contains a (node_names ns) ≡ has_node ns a
unfolding node_names find
contains-node_names a [] = refl
contains-node_names a (n ∷ ns) = ground (arith, contains-node_names a ns)

-- The answer of HasCycle, for a graph whose dependents are nodes and an order with every node.
abbrev Answered : Graph → Option Bool → Type 0
Answered g none = ⊥
Answered g (some true) = Cycle g
Answered g (some false) = ¬ Cycle g

module _ (ns : List Node) (closed : IsClosed ns) where
  -- A node on a cycle has a successor, so it is a node.
  is_node : (v w : String) → Edge ns v w → has_node ns v ≡ true
  unfolding successors
  is_node v w e = ground arith

  Answered-Looped :
      (order : List String)
      → ((a : String) → contains a order ≡ has_node ns a)
      → (o : Outcome) → Looped ns closed order o
      → Answered (Edge ns) (answer o)
  unfolding answer
  Answered-Looped order range found h = h
  Answered-Looped order range crash h = h
  Answered-Looped order range out_of_fuel h = h
  Answered-Looped order range (clear v s) h = λ (x, walk).
      let (w, e) = chain-head walk in grounded-acyclic x (h x (range x ∙ is_node x w e)) walk

  answer-Answered :
      (order : List String)
      → ((a : String) → contains a order ≡ has_node ns a)
      → Answered (Edge ns) (answer (cycle_loop (length ns) ns order unset unset))
  answer-Answered order range =
      Answered-Looped order range (cycle_loop (length ns) ns order unset unset)
        (loop-Looped ns closed order (λ a m. sym (range a) ∙ m))

-- HasCycle, on a graph whose dependents are nodes and for any order of its map, returns, and
-- returns true exactly when the graph has a cycle.
pub has_cycle-Answered :
    (d : Dag) (order : List String)
    → IsClosed d.nodes
    → ((a : String) → contains a order ≡ has_node d.nodes a)
    → Answered (Edge d.nodes) (has_cycle d order)
unfolding has_cycle
has_cycle-Answered d order closed range = answer-Answered d.nodes closed order range

is_step_of_declares :
    (steps : List Step) (a b : String) → declares steps a b ≡ true → is_step steps b ≡ true
is_step_of_declares [] a b e = cc
is_step_of_declares (s ∷ steps) a b e = ground (arith, is_step_of_declares steps a b)

-- The graph without nodes.
nothing_found : (a : String) → has_node [] a ≡ false
unfolding find
nothing_found a = refl

nothing_forward : (a b : String) → forward [] a b ≡ false
unfolding find successors
nothing_forward a b = refl

nothing_backward : (a b : String) → backward [] a b ≡ false
unfolding find predecessors
nothing_backward a b = refl

module _ (range : List String → List String) (ranges : RangeOk range) (steps : List Step) where
  conclude-Verdict :
      (d : Dag)
      → Holds steps d
      → IsResolved steps
      → (o : Option Bool) → Answered (Edge d.nodes) o
      → Verdict steps (conclude d o)
  unfolding conclude
  conclude-Verdict d h resolved none a = a
  conclude-Verdict d h resolved (some true) (v, walk) =
      (resolved, (v, Chain-map (λ a b e. sym (h.forwards a b) ∙ e) walk))
  conclude-Verdict d h resolved (some false) acyclic =
      (h, resolved, λ (v, walk). acyclic (v, Chain-map (λ a b e. h.forwards a b ∙ e) walk))

  closed_of_Holds : (d : Dag) → Holds steps d → IsClosed d.nodes
  closed_of_Holds d h u w e = h.nodes w ∙ is_step_of_declares steps u w (sym (h.forwards u w) ∙ e)

  -- After the second step, whichever way it went.
  Declared-Verdict :
      (ns : List Node)
      → ((a : String) → has_node ns a ≡ is_step steps a)
      → ((a b : String) → forward ns a b ≡ false)
      → ((a b : String) → backward ns a b ≡ false)
      → (r : Result Dag) → Declared (declares steps) ns r
      → Verdict steps
          (elim r [ err e ↦ err e | ok d ↦ conclude d (has_cycle d (range (node_names d.nodes))) ])
  Declared-Verdict ns nodes none_forward none_backward (ok _) (added {d} h known) =
      let holds : Holds steps d = record {
        nodes = λ a. h.nodes a ∙ nodes a;
        forwards = λ a b. ground (arith, h.forwards a b, none_forward a b);
        backwards = λ a b. ground (arith, h.backwards a b, none_backward a b);
      } in
      let order = range (node_names d.nodes) in
      conclude-Verdict d holds (λ a b e. sym (nodes a) ∙ known a b e) (has_cycle d order)
        (has_cycle-Answered d order (closed_of_Holds d holds)
          (λ a. ranges (node_names d.nodes) a ∙ contains-node_names a d.nodes))
  Declared-Verdict ns nodes none_forward none_backward (err _) (dangling {a} {b} e missing) =
      (e, sym (nodes a) ∙ missing)

  -- For every list of steps and every order in which Go ranges over the map of nodes, BuildDAG
  -- returns one of three results. A graph: then every declared dependency names a step, no chain
  -- of dependencies leads from a step to itself, and the graph has a node for each step's name and
  -- an edge, among the dependents and among the dependencies, for exactly the declared ones. A
  -- missing dependency: then it is declared and names no step. Circular dependencies: then every
  -- dependency names a step and such a chain exists.
  pub build_dag-Verdict : Verdict steps (build_dag range steps)
  unfolding build_dag
  build_dag-Verdict =
      let fresh = add_nodes-Fresh steps new_dag in
      let ns = (add_nodes steps new_dag).nodes in
      Declared-Verdict ns (λ a. ground (arith, fresh.nodes a, nothing_found a))
        (λ a b. fresh.no_forwards a b ∙ nothing_forward a b)
        (λ a b. fresh.no_backwards a b ∙ nothing_backward a b)
        (add_edges steps (add_nodes steps new_dag))
        (add_edges-Declared steps (add_nodes steps new_dag)
          (λ a e. ground (arith, fresh.nodes a, e)))
