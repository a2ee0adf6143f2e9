-- ===== src/Dag/Graph.antt =====
-- The graph that the nodes of a Dag hold, walks in a graph, and cycles.
use mathlib.Core.WellFounded.{Acc}
use ottoflow.Prelude.{String, true, none, some, List, [], ◌≡◌, contains}
use ottoflow.Dag.{Node, find}

-- The dependents of a node by its name.
unfoldable pub successors : List Node → String → List String
unfolding find
successors ns u = elim (find u ns) [ none ↦ [] | some n ↦ n.dependents ]

pub successors-find :
    (ns : List Node) (u : String) (n : Node) → find u ns ≡ some n → successors ns u ≡ n.dependents
unfolding successors
successors-find ns u n e = rw (e, successors)

pub successors-none : (ns : List Node) (u : String) → find u ns ≡ none → successors ns u ≡ []
unfolding successors
successors-none ns u e = rw (e, successors)

-- The dependencies of a node by its name.
unfoldable pub predecessors : List Node → String → List String
unfolding find
predecessors ns u = elim (find u ns) [ none ↦ [] | some n ↦ n.dependencies ]

abbrev pub Graph : Type 1
Graph = String → String → Type 0

-- An edge from a node to each of its dependents.
abbrev pub Edge : List Node → Graph
Edge ns u w = contains w (successors ns u) ≡ true

-- A walk of one or more edges.
pub data Chain (g : Graph) : String → String → Type 0 where
  one : {a b : String} → g a b → Chain g a b
  more : {a b c : String} → g a b → Chain g b c → Chain g a c

abbrev pub Cycle : Graph → Type 0
Cycle g = (v : String) × Chain g v v

-- All walks from the node are finite.
abbrev pub IsGrounded : Graph → String → Type 0
IsGrounded g = Acc (λ w u. g u w)

module _ {g : Graph} where
  pub extend : {a b c : String} → Chain g a b → g b c → Chain g a c
  extend (one e) f = more e (one f)
  extend (more e w) f = more e (extend w f)

  pub grounded-acyclic : (v : String) → IsGrounded g v → ¬ Chain g v v
  grounded-acyclic v (Acc.intro _ h) (one e) = grounded-acyclic v (h v e) (one e)
  grounded-acyclic v (Acc.intro _ h) (more {b = w} e c) = grounded-acyclic w (h w e) (extend c e)

  -- The first edge of a walk.
  pub chain-head : {a b : String} → Chain g a b → (w : String) × g a w
  chain-head {b = b} (one e) = (b, e)
  chain-head (more {b = w} e c) = (w, e)

-- A walk of a graph is one of any larger graph.
pub Chain-map :
    {g h : Graph} → ((a b : String) → g a b → h a b) → {a b : String} → Chain g a b → Chain h a b
Chain-map f (one {a} {b} e) = one (f a b e)
Chain-map f (more {a} {b} e c) = more (f a b e) (Chain-map f c)
