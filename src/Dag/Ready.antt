-- ===== src/Dag/Ready.antt =====
-- GetReadySteps: which steps are ready, and that an acyclic graph with an open step has one.
use ottoflow.Prelude.{
  ℕ, zero, suc, ◌≤◌, ◌<◌, String, true, false, not, List, [], ◌∷◌, ◌≡◌, refl, sym, ◌∙◌, ◌&&◌, ◌↔◌,
  ◌⊎◌, inl, inr, contains, arith, eq_iff, Bool-cases, String-cases, subst,
}
use ottoflow.Api.Step.{Step}
use ottoflow.Dag.{
  Dag, Flags, mark, unset, all_completed, get_ready_steps, node_names, build_dag, ok,
}
use ottoflow.Dag.Graph.{Chain, one, more, Cycle, predecessors}
use ottoflow.Dag.Edges.{has_node}
use ottoflow.Dag.Declare.{is_step}
use ottoflow.Dag.Unvisited.{unvisited, unvisited-mark}
use ottoflow.Dag.Build.{Depends, RangeOk, Verdict, build_dag-Verdict, contains-node_names}

-- The first name of a list that is not completed.
first_open :
    (completed : Flags) (xs : List String)
    → (all_completed completed xs ≡ true)
      ⊎ ((b : String) × (contains b xs ≡ true) × (completed b ≡ false))
unfolding all_completed
first_open completed [] = inl refl
first_open completed (x ∷ xs) = elim (Bool-cases (completed x)) [
  | inl e ↦ elim (first_open completed xs) [
    | inl h ↦ inl (ground (arith, e, h))
    | inr (b, m, h) ↦ inr (b, ground (arith, m), h)
  ]
  | inr e ↦ inr (x, ground (arith, eq_iff x x), e)
]

all_completed-mem :
    (completed : Flags) (xs : List String) (b : String)
    → all_completed completed xs ≡ true
    → contains b xs ≡ true
    → completed b ≡ true
unfolding all_completed
all_completed-mem completed [] b h m = cc
all_completed-mem completed (x ∷ xs) b h m = elim (String-cases x b) [
  | inl (p, t) ↦ subst (λ y. completed y ≡ true) p (ground arith)
  | inr (p, t) ↦ all_completed-mem completed xs b (ground arith) (ground arith)
]

-- Membership in the result as one test.
contains-get_ready_steps :
    (d : Dag) (order : List String) (completed : Flags) (a : String)
    → contains a (get_ready_steps d order completed) ≡ (
        contains a order
        && not (completed a)
        && (has_node d.nodes a && all_completed completed (predecessors d.nodes a)))
unfolding get_ready_steps predecessors
contains-get_ready_steps d [] completed a = refl
contains-get_ready_steps d (x ∷ xs) completed a = elim (String-cases x a) [
  | inl (p, t) ↦
      subst
        (λ y. contains y (get_ready_steps d (x ∷ xs) completed) ≡ (
          contains y (x ∷ xs)
          && not (completed y)
          && (has_node d.nodes y && all_completed completed (predecessors d.nodes y))))
        p (ground (arith, eq_iff x x, contains-get_ready_steps d xs completed x))
  | inr (p, t) ↦ ground (arith, contains-get_ready_steps d xs completed a)
]

all_completed_of :
    (completed : Flags) (xs : List String)
    → ((b : String) → contains b xs ≡ true → completed b ≡ true)
    → all_completed completed xs ≡ true
all_completed_of completed xs h = elim (first_open completed xs) [
  | inl e ↦ e
  | inr (b, m, e) ↦ absurd (cc (h b m, e))
]

module _ (range : List String → List String) (ranges : RangeOk range) (steps : List Step) (d : Dag)
    (built : build_dag range steps ≡ ok d) where
  verdict : Verdict steps (ok d)
  verdict = subst (Verdict steps) built (build_dag-Verdict range ranges steps)

  module _ (order : List String) (covers : (a : String) → contains a order ≡ is_step steps a)
      (completed : Flags) where
    abbrev ready : List String
    ready = get_ready_steps d order completed

    ready_of :
        (a : String)
        → is_step steps a ≡ true
        → completed a ≡ false
        → all_completed completed (predecessors d.nodes a) ≡ true
        → contains a ready ≡ true
    ready_of a s e all = ground (
      arith,
      contains-get_ready_steps d order completed a,
      covers a,
      verdict.0.nodes a,
      s,
      e,
      all,
    )

    of_ready :
        (a : String)
        → contains a ready ≡ true
        → (is_step steps a ≡ true)
          × (completed a ≡ false)
          × (all_completed completed (predecessors d.nodes a) ≡ true)
    of_ready a m =
        let mem = contains-get_ready_steps d order completed a in
        (ground (arith, covers a), ground arith, ground arith)

    -- For a graph that BuildDAG returned, and any order of its nodes, GetReadySteps returns the
    -- steps that are not completed and whose declared dependencies are all completed: every such
    -- step, and no other.
    pub get_ready_steps_iff :
        (a : String)
        → (contains a ready ≡ true) ↔ (
            (is_step steps a ≡ true)
            × (completed a ≡ false)
            × ((b : String) → Depends steps b a → completed b ≡ true))
    get_ready_steps_iff a = (
      λ m.
          let (s, e, all) = of_ready a m in
          (
            s,
            e,
            λ b h.
                all_completed-mem completed (predecessors d.nodes a) b all
                  (verdict.0.backwards b a ∙ h),
          ),
      λ (s, e, h). ready_of a s e (
          all_completed_of completed (predecessors d.nodes a)
            (λ b m. h b (sym (verdict.0.backwards b a) ∙ m))),
    )

    passed :
        (a : String) (seen : Flags)
        → is_step steps a ≡ true
        → seen a ≡ false
        → unvisited (mark a true seen) (node_names d.nodes) < unvisited seen (node_names d.nodes)
    passed a seen s new =
        unvisited-mark a seen (node_names d.nodes)
          (contains-node_names a d.nodes ∙ (verdict.0.nodes a ∙ s)) new

    -- Down from an open step to a dependency that is open, until one is ready. From the step that
    -- it is at, a chain of dependencies leads up to each step that it passed.
    descend :
        (f : ℕ) (a : String) (seen : Flags)
        → is_step steps a ≡ true
        → completed a ≡ false
        → seen a ≡ false
        → ((x : String) → seen x ≡ true → Chain (Depends steps) a x)
        → unvisited seen (node_names d.nodes) ≤ f
        → ((b : String) × (contains b ready ≡ true)) ⊎ Cycle (Depends steps)
    descend zero a seen s e new up few = absurd (omega (arith, passed a seen s new))
    descend (suc f) a seen s e new up few = elim (first_open completed (predecessors d.nodes a)) [
      | inl all ↦ inl (a, ready_of a s e all)
      | inr (b, m, open_b) ↦
          let before : Depends steps b a = sym (verdict.0.backwards b a) ∙ m in
          elim (String-cases a b) [
            | inl (p, t) ↦ inr (a, subst (λ y. Chain (Depends steps) y a) (sym p) (one before))
            | inr (p, t) ↦ elim (Bool-cases (seen b)) [
              | inl again ↦ inr (b, more before (up b again))
              | inr fresh ↦
                  descend f b (mark a true seen) (verdict.1 b a before) open_b
                    (ground (arith, t, fresh)) (above b before) (omega (arith, passed a seen s new))
            ]
          ]
    ]
      where
        above :
            (b : String)
            → Depends steps b a
            → (x : String) → mark a true seen x ≡ true
            → Chain (Depends steps) b x
        above b before x on = elim (String-cases a x) [
          | inl (p, t) ↦ subst (Chain (Depends steps) b) p (one before)
          | inr (p, t) ↦ more before (up x (ground arith))
        ]

    -- For a graph that BuildDAG returned, and any order of its nodes: as long as some step is not
    -- completed, GetReadySteps returns a step.
    pub get_ready_steps_progress :
        (a : String)
        → is_step steps a ≡ true
        → completed a ≡ false
        → (b : String) × (contains b ready ≡ true)
    get_ready_steps_progress a s e =
        elim (descend (unvisited unset (node_names d.nodes)) a unset s e refl (λ x on. absurd cc)
          (omega arith)) [ inl found ↦ found | inr cycle ↦ absurd (verdict.2 cycle) ]
