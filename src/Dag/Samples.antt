-- ===== src/Dag/Samples.antt =====
-- A workflow of two steps, the second of which depends on the first, and one that depends on itself.
use ottoflow.Prelude.{String, true, false, none, List, [], ◌∷◌, ◌≡◌, refl, ◌↔◌, contains}
use ottoflow.Api.Step.{Step, Workflow, plain_step, fail, continue}
use ottoflow.Dag.{
  Dag, unset, ok, err, build_dag, get_ready_steps, find, get_node, add_node, add_name,
  add_dependent, add_dependency, track, add_edge, resume, scan, has_cycle_dfs, cycle_loop, answer,
  has_cycle, add_nodes, add_dependencies, add_edges, node_names, conclude, circular_dependencies,
}
use ottoflow.Dag.Build.{RangeOk, Verdict, build_dag-Verdict, Depends}
use ottoflow.Dag.Ready.{get_ready_steps_iff, get_ready_steps_progress}
use ottoflow.Dag.Declare.{is_step}

abbrev pub same_order : List String → List String
same_order names = names

pub same_order-RangeOk : RangeOk same_order
same_order-RangeOk names a = refl

abbrev pub report : Step
report = record (plain_step "report" ("fetch" ∷ []) continue) {
  expressions = record { name = "total"; expression = "steps.fetch.total" } ∷ [];
}

abbrev pub two_steps : List Step
two_steps = plain_step "fetch" [] fail ∷ report ∷ []

abbrev pub two_workflow : Workflow
two_workflow = record {
  name = "audit";
  namespace = "ops";
  variables = [];
  steps = two_steps;
  outputs = [];
  max_concurrent_steps = none;
  max_concurrent_runs = none;
}

abbrev pub two_dag : Dag
two_dag = record {
  nodes =
      record {
        name = "fetch";
        step = plain_step "fetch" [] fail;
        dependencies = [];
        dependents = "report" ∷ [];
      }
      ∷ record { name = "report"; step = report; dependencies = "fetch" ∷ []; dependents = [] }
      ∷ [];
  edges = ("fetch", "report" ∷ []) ∷ [];
}

pub two_dag-built : build_dag same_order two_steps ≡ ok two_dag
unfolding build_dag add_nodes add_node add_edges add_dependencies add_edge add_name add_dependent
    add_dependency track get_node find has_cycle cycle_loop has_cycle_dfs scan resume answer
    conclude node_names
two_dag-built = refl

self_dependent :
    build_dag same_order (plain_step "loop" ("loop" ∷ []) fail ∷ []) ≡ err circular_dependencies
unfolding build_dag add_nodes add_node add_edges add_dependencies add_edge add_name add_dependent
    add_dependency track get_node find has_cycle cycle_loop has_cycle_dfs scan resume answer
    conclude node_names
self_dependent = refl

two_order-covers : (a : String) → contains a ("fetch" ∷ "report" ∷ []) ≡ is_step two_steps a
two_order-covers a = refl

build_dag-Verdict_example : Verdict two_steps (build_dag same_order two_steps)
build_dag-Verdict_example = build_dag-Verdict same_order same_order-RangeOk two_steps

get_ready_steps_iff_example :
    (contains "fetch" (get_ready_steps two_dag ("fetch" ∷ "report" ∷ []) unset) ≡ true) ↔ (
      (is_step two_steps "fetch" ≡ true)
      × (unset "fetch" ≡ false)
      × ((b : String) → Depends two_steps b "fetch" → unset b ≡ true))
get_ready_steps_iff_example =
    get_ready_steps_iff same_order same_order-RangeOk two_steps two_dag two_dag-built
      ("fetch" ∷ "report" ∷ []) two_order-covers unset "fetch"

get_ready_steps_progress_example :
    (b : String) × (contains b (get_ready_steps two_dag ("fetch" ∷ "report" ∷ []) unset) ≡ true)
get_ready_steps_progress_example =
    get_ready_steps_progress same_order same_order-RangeOk two_steps two_dag two_dag-built
      ("fetch" ∷ "report" ∷ []) two_order-covers unset "report" refl refl
