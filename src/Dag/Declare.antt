-- ===== src/Dag/Declare.antt =====
-- What BuildDAG's first two steps leave: nodes for the steps' names, and an edge for each declared
-- dependency, unless one of them names no step.
use ottoflow.Prelude.{
  String, Bool, true, false, none, some, List, [], ◌∷◌, ◌++◌, ◌≡◌, refl, ◌==◌, ◌||◌, ◌&&◌, contains,
  arith, eq_iff, if◌then◌else◌, Option-cases, any, inl, inr, ◌∙◌,
}
use ottoflow.Api.Step.{Step}
use ottoflow.Dag.{
  Node, Dag, find, get_node, add_node, add_dependent, add_edge, add_nodes, add_dependencies,
  add_edges, Result, ok, err, missing_dependency,
}
use ottoflow.Dag.Graph.{successors, predecessors}
use ottoflow.Dag.Edges.{
  has_node, forward, backward, find-add_dependent, find-add_dependency, forward-add_dependent,
  forward-add_dependency, backward-add_dependent, backward-add_dependency,
}

-- The effect of an operation that keeps the nodes and adds the edges that `new` tells.
pub record Adds (new : String → String → Bool) (ns ms : List Node) : Type 0 where
  pub nodes : (u : String) → has_node ms u ≡ has_node ns u
  pub forwards : (a b : String) → forward ms a b ≡ (new a b || forward ns a b)
  pub backwards : (a b : String) → backward ms a b ≡ (new a b || backward ns a b)

add_edge-Adds :
    (d : Dag) (from to : String)
    → has_node d.nodes from ≡ true
    → has_node d.nodes to ≡ true
    → Adds (λ a b. from == a && to == b) d.nodes (add_edge d from to).nodes
unfolding add_edge
add_edge-Adds d from to hf ht = elim (Option-cases (find from d.nodes)) [
  | inl e ↦ absurd (ground (arith, e))
  | inr (n, e) ↦ elim (Option-cases (find to d.nodes)) [
    | inl e' ↦ absurd (ground (arith, e'))
    | inr (m, e') ↦
        rw (e, e', add_edge)
          (record {
            nodes = λ u. ground (
              arith,
              find-add_dependency to from u (add_dependent from to d.nodes),
              find-add_dependent from to u d.nodes,
            );
            forwards = λ a b. ground (
              arith,
              forward-add_dependency to from a b (add_dependent from to d.nodes),
              forward-add_dependent from to a b d.nodes,
            );
            backwards = λ a b. ground (
              arith,
              backward-add_dependency to from a b (add_dependent from to d.nodes),
              find-add_dependent from to to d.nodes,
              backward-add_dependent from to a b d.nodes,
            );
          })
  ]
]

Adds-none : (ns : List Node) → Adds (λ a b. false) ns ns
Adds-none ns = record { nodes = λ u. refl; forwards = λ a b. refl; backwards = λ a b. refl }

Adds-trans :
    {f g : String → String → Bool} {ns ms ls : List Node}
    → Adds f ns ms
    → Adds g ms ls
    → Adds (λ a b. f a b || g a b) ns ls
Adds-trans {f} {g} {ns} {ms} {ls} h k = record {
  nodes = λ u. k.nodes u ∙ h.nodes u;
  forwards = λ a b. ground (arith, k.forwards a b, h.forwards a b);
  backwards = λ a b. ground (arith, k.backwards a b, h.backwards a b);
}

Adds-cong :
    {f g : String → String → Bool} {ns ms : List Node}
    → ((a b : String) → f a b ≡ g a b)
    → Adds f ns ms
    → Adds g ns ms
Adds-cong e h = record {
  nodes = h.nodes;
  forwards = λ a b. ground (arith, e a b, h.forwards a b);
  backwards = λ a b. ground (arith, e a b, h.backwards a b);
}

-- The steps of that name declare the dependency.
abbrev pub declares : List Step → String → String → Bool
declares ss a b = any (λ s. s.name == b && contains a s.depends_on) ss

abbrev pub is_step : List Step → String → Bool
is_step ss a = any (λ s. s.name == a) ss

-- The result of declaring dependencies `new`: all of them edges, or the first that names no node.
pub data Declared (new : String → String → Bool) (ns : List Node) : Result Dag → Type 0 where
  added :
      {d : Dag}
      → Adds new ns d.nodes
      → ((a b : String) → new a b ≡ true → has_node ns a ≡ true)
      → Declared new ns (ok d)
  dangling :
      {a b : String}
      → new a b ≡ true
      → has_node ns a ≡ false
      → Declared new ns (err (missing_dependency b a))

-- More dependencies, after those of `f`.
Declared-after :
    {f g : String → String → Bool} {ns ms : List Node} (r : Result Dag)
    → Adds f ns ms
    → ((a b : String) → f a b ≡ true → has_node ns a ≡ true)
    → Declared g ms r
    → Declared (λ a b. f a b || g a b) ns r
Declared-after {f} {g} r h known (added k later) =
    added (Adds-trans h k) (λ a b e. ground (arith, known a b, later a b, h.nodes a))
Declared-after {f} {g} r h known (dangling {a} {b} e missing) =
    dangling (ground (arith, e)) (ground (arith, h.nodes a))

Declared-cong :
    {f g : String → String → Bool} {ns : List Node} (r : Result Dag)
    → ((a b : String) → f a b ≡ g a b)
    → Declared f ns r
    → Declared g ns r
Declared-cong r e (added k known) =
    added (Adds-cong e k) (λ a b h. known a b (ground (arith, e a b)))
Declared-cong r e (dangling {a} {b} h missing) = dangling (ground (arith, e a b)) missing

add_dependencies-Declared :
    (name : String) (as' : List String) (d : Dag)
    → has_node d.nodes name ≡ true
    → Declared (λ a b. name == b && contains a as') d.nodes (add_dependencies name as' d)
unfolding add_dependencies get_node
add_dependencies-Declared name [] d h =
    added (Adds-cong (λ a b. ground arith) (Adds-none d.nodes)) (λ a b e. absurd (ground arith))
add_dependencies-Declared name (x ∷ as') d h = elim (Option-cases (find x d.nodes)) [
  | inl e ↦
      rw (e, get_node, add_dependencies)
        (dangling {a = x} {b = name} (ground (arith, eq_iff name name, eq_iff x x)) (rw e refl))
  | inr (n, e) ↦
      let step = add_edge-Adds d x name (rw e refl) h in
      rw (e, get_node, add_dependencies)
        (Declared-cong (add_dependencies name as' (add_edge d x name))
          (λ a b. ground (arith, eq_iff x a, eq_iff name b))
          (Declared-after (add_dependencies name as' (add_edge d x name)) step
            (λ a b t. ground (arith, eq_iff x a))
            (add_dependencies-Declared name as' (add_edge d x name) (step.nodes name ∙ h))))
]

-- One step's dependencies, and then those of the others.
Declared-then :
    {f g : String → String → Bool} {ns : List Node} (ss : List Step) (r : Result Dag)
    → Declared f ns r
    → ((d : Dag) → Adds f ns d.nodes → Declared g d.nodes (add_edges ss d))
    → Declared (λ a b. f a b || g a b) ns (elim r [ ok d' ↦ add_edges ss d' | err e ↦ err e ])
Declared-then ss (ok _) (added {d} h known) rest =
    Declared-after (add_edges ss d) h known (rest d h)
Declared-then ss (err _) (dangling {a} {b} h missing) rest = dangling (ground (arith, h)) missing

pub add_edges-Declared :
    (ss : List Step) (d : Dag)
    → ((a : String) → is_step ss a ≡ true → has_node d.nodes a ≡ true)
    → Declared (declares ss) d.nodes (add_edges ss d)
unfolding add_edges
add_edges-Declared [] d h = added (Adds-none d.nodes) (λ a b e. absurd cc)
add_edges-Declared (s ∷ ss) d h =
    Declared-then ss (add_dependencies s.name s.depends_on d)
      (add_dependencies-Declared s.name s.depends_on d
        (h s.name (ground (arith, eq_iff s.name s.name))))
      (λ d' k. add_edges-Declared ss d' (λ a e. k.nodes a ∙ h a (ground (arith, e))))

find-append :
    (a : String) (ns : List Node) (n : Node)
    → find a (ns ++ n ∷ [])
      ≡ elim (find a ns) [ some m ↦ some m | none ↦ if n.name == a then some n else none ]
unfolding find
find-append a [] n = ground arith
find-append a (m ∷ ns) n = ground (arith, find-append a ns n)

-- Adding the steps `ss` to a graph without edges.
pub record Fresh (ss : List Step) (ns ms : List Node) : Type 0 where
  pub nodes : (a : String) → has_node ms a ≡ (is_step ss a || has_node ns a)
  pub no_forwards : (a b : String) → forward ms a b ≡ forward ns a b
  pub no_backwards : (a b : String) → backward ms a b ≡ backward ns a b

add_node-Fresh : (s : Step) (d : Dag) → Fresh (s ∷ []) d.nodes (add_node d s).nodes
unfolding add_node successors predecessors
add_node-Fresh s d = elim (Option-cases (find s.name d.nodes)) [
  | inl e ↦
      let n : Node = record { name = s.name; step = s; dependencies = []; dependents = [] } in
      record {
        nodes = λ a. ground (arith, e, find-append a d.nodes n, eq_iff s.name a);
        no_forwards = λ a b. ground (arith, e, find-append a d.nodes n);
        no_backwards = λ a b. ground (arith, e, find-append b d.nodes n);
      }
  | inr (m, e) ↦
      rw (e, add_node)
        (record {
          nodes = λ a. ground (arith, e, eq_iff s.name a);
          no_forwards = λ a b. refl;
          no_backwards = λ a b. refl;
        })
]

pub add_nodes-Fresh : (ss : List Step) (d : Dag) → Fresh ss d.nodes (add_nodes ss d).nodes
unfolding add_nodes
add_nodes-Fresh [] d = record {
  nodes = λ a. refl;
  no_forwards = λ a b. refl;
  no_backwards = λ a b. refl;
}
add_nodes-Fresh (s ∷ ss) d =
    let one = add_node-Fresh s d in
    let rest = add_nodes-Fresh ss (add_node d s) in
    record {
      nodes = λ a. ground (arith, one.nodes a, rest.nodes a);
      no_forwards = λ a b. rest.no_forwards a b ∙ one.no_forwards a b;
      no_backwards = λ a b. rest.no_backwards a b ∙ one.no_backwards a b;
    }
