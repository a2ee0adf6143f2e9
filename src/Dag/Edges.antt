-- ===== src/Dag/Edges.antt =====
-- What each operation on a Dag does to its nodes, dependents and dependencies.
use ottoflow.Prelude.{
  String, Bool, List, [], ◌∷◌, ◌≡◌, refl, ◌==◌, ◌||◌, ◌&&◌, contains, contains-append, is_some,
  arith, eq_iff,
}
use ottoflow.Dag.{Node, find, add_name, add_dependent, add_dependency}
use ottoflow.Dag.Graph.{successors, predecessors}

abbrev pub has_node : List Node → String → Bool
has_node ns a = is_some (find a ns)

-- Is there an edge, as the dependents and as the dependencies have it?
abbrev pub forward : List Node → String → String → Bool
forward ns a b = contains b (successors ns a)

abbrev pub backward : List Node → String → String → Bool
backward ns a b = contains a (predecessors ns b)

contains-add_name :
    (x a : String) (xs : List String) → contains x (add_name a xs) ≡ (a == x || contains x xs)
unfolding add_name
contains-add_name x a xs = ground (arith, contains-append x xs (a ∷ []), eq_iff a x)

pub find-add_dependent :
    (name a u : String) (ns : List Node) → has_node (add_dependent name a ns) u ≡ has_node ns u
unfolding add_dependent find
find-add_dependent name a u [] = refl
find-add_dependent name a u (n ∷ ns) = ground (arith, find-add_dependent name a u ns)

pub find-add_dependency :
    (name a u : String) (ns : List Node) → has_node (add_dependency name a ns) u ≡ has_node ns u
unfolding add_dependency find
find-add_dependency name a u [] = refl
find-add_dependency name a u (n ∷ ns) = ground (arith, find-add_dependency name a u ns)

pub forward-add_dependent :
    (name w a b : String) (ns : List Node)
    → forward (add_dependent name w ns) a b
      ≡ (has_node ns name && name == a && w == b || forward ns a b)
unfolding add_dependent find successors
forward-add_dependent name w a b [] = refl
forward-add_dependent name w a b (n ∷ ns) = ground (
  arith,
  forward-add_dependent name w a b ns,
  contains-add_name b w n.dependents,
  eq_iff n.name name,
  eq_iff n.name a,
  eq_iff name a,
)

pub backward-add_dependent :
    (name w a b : String) (ns : List Node)
    → backward (add_dependent name w ns) a b ≡ backward ns a b
unfolding add_dependent find predecessors
backward-add_dependent name w a b [] = refl
backward-add_dependent name w a b (n ∷ ns) = ground (arith, backward-add_dependent name w a b ns)

pub forward-add_dependency :
    (name w a b : String) (ns : List Node) → forward (add_dependency name w ns) a b ≡ forward ns a b
unfolding add_dependency find successors
forward-add_dependency name w a b [] = refl
forward-add_dependency name w a b (n ∷ ns) = ground (arith, forward-add_dependency name w a b ns)

pub backward-add_dependency :
    (name w a b : String) (ns : List Node)
    → backward (add_dependency name w ns) a b
      ≡ (has_node ns name && name == b && w == a || backward ns a b)
unfolding add_dependency find predecessors
backward-add_dependency name w a b [] = refl
backward-add_dependency name w a b (n ∷ ns) = ground (
  arith,
  backward-add_dependency name w a b ns,
  contains-add_name a w n.dependencies,
  eq_iff n.name name,
  eq_iff n.name b,
  eq_iff name b,
)
