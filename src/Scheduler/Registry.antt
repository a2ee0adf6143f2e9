-- ===== src/Scheduler/Registry.antt =====
-- The registry of schedules (internal/workflow/controller/scheduler.go: AddSchedule, RemoveSchedule,
-- HasSchedule). The cron engine is the map from its entries to the keys that they fire for; it gives
-- each new entry a number that was not used before.
pub mod Exact
use ottoflow.Prelude.{
  ℕ, zero, suc, ◌≤◌, ◌<◌, String, Bool, true, false, Option, none, some, List, [], ◌∷◌, ◌≡◌, refl,
  sym, ap, ◌∙◌, subst, ◌≢◌, ◌==◌, ◌⊎◌, inl, inr, if◌then◌else◌, eqb, is_some, lookup, erase, insert,
  lookup-erase, lookup-insert, arith, eq_iff, Bool-cases, String-cases,
}

pub record Schedule : Type 0 where
  pub schedule : String
  pub timezone : String

pub record Registry : Type 0 where
  pub engine : List (ℕ × String)
  pub next : ℕ
  pub entries : List (String × ℕ)
  pub workflows : List (String × String)
  pub cron_specs : List (String × Schedule)

-- The key that a live entry fires for.
abbrev pub fires : ℕ → List (ℕ × String) → Option String
fires i [] = none
fires i (e ∷ es) = if eqb e.0 i then some e.1 else fires i es

-- cron.Remove
abbrev pub removed : ℕ → List (ℕ × String) → List (ℕ × String)
removed i [] = []
removed i (e ∷ es) = if eqb e.0 i then removed i es else e ∷ removed i es

abbrev pub drop_entry : String → Option ℕ → Registry → Registry
drop_entry key none s = s
drop_entry key (some i) s = record s { engine = removed i s.engine; entries = erase key s.entries }

-- AddSchedule, by whether the engine accepts the schedule
unfoldable pub add_schedule : (Schedule → Bool) → String → String → Schedule → Registry → Registry
add_schedule valid key workflow spec s =
    let r : Registry = drop_entry key (lookup key s.entries) s in
    if valid spec
    then record {
      engine = (r.next, key) ∷ r.engine;
      next = suc r.next;
      entries = insert key r.next r.entries;
      workflows = insert key workflow r.workflows;
      cron_specs = insert key spec r.cron_specs;
    }
    else r

abbrev pub forget_key : String → Option ℕ → Registry → Registry
forget_key key none s = s
forget_key key (some i) s = record s {
  engine = removed i s.engine;
  entries = erase key s.entries;
  workflows = erase key s.workflows;
  cron_specs = erase key s.cron_specs;
}

-- RemoveSchedule
unfoldable pub remove_schedule : String → Registry → Registry
remove_schedule key s = forget_key key (lookup key s.entries) s

-- HasSchedule
abbrev pub has_schedule : String → Registry → Bool
has_schedule key s = is_some (lookup key s.entries)

pub data Operation : Type 0 where
  add : String → String → Schedule → Operation
  remove : String → Operation

unfoldable pub operate : (Schedule → Bool) → Operation → Registry → Registry
unfolding add_schedule remove_schedule
operate valid (add key workflow spec) s = add_schedule valid key workflow spec s
operate valid (remove key) s = remove_schedule key s

abbrev pub operate_all : (Schedule → Bool) → List Operation → Registry → Registry
operate_all valid [] s = s
operate_all valid (o ∷ os) s = operate_all valid os (operate valid o s)

abbrev pub no_schedules : Registry
no_schedules = record { engine = []; next = 1; entries = []; workflows = []; cron_specs = [] }
