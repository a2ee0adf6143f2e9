-- ===== src/Executor/Order.antt =====
-- No step is touched once it has left the phase Pending, and none leaves it before the steps that
-- it depends on are done.
use ottoflow.Prelude.{
  String, Bool, true, false, List, [], ◌∷◌, ◌≡◌, refl, sym, ◌∙◌, inl, inr, ap, subst, ◌||◌, arith,
  Bool-cases, Option-cases, String-cases, contains, contains_self,
}
use ottoflow.Api.Step.{Step}
use ottoflow.Api.Run.{StepStatus}
use ottoflow.Dag.{Flags, mark, unset}
use ottoflow.Dag.Build.{Depends}
use ottoflow.Executor.{
  Env, Exec, returned, paused, failed_with, Next, next, stop, get_status, is_step_done, is_pending,
  find_step, statuses, run_step, run_ready, completed_steps,
}
use ottoflow.Executor.Ran.{
  Statuses, pending_at, Frozen, Others, Frozen-trans, Frozen-Others, Ran, find_step-name,
  run_step-Ran, run_step-passes,
}

-- The map completedSteps, by name.
abbrev pub completed : List Step → Statuses → Flags
completed steps m = completed_steps steps m unset

pub completed_steps-congr :
    (steps : List Step) (m m' : Statuses) (f g : Flags) (a : String)
    → get_status a m' ≡ get_status a m
    → g a ≡ f a
    → completed_steps steps m' g a ≡ completed_steps steps m f a
unfolding completed_steps
completed_steps-congr [] m m' f g a e h = h
completed_steps-congr (s ∷ ss) m m' f g a e h =
    completed_steps-congr ss m m' (mark s.name _ f) (mark s.name _ g) a e
      (elim (String-cases s.name a) [
        | inl (p, t) ↦
            rw t (ap (is_step_done s) (subst (λ n. get_status n m' ≡ get_status n m) (sym p) e))
        | inr (p, t) ↦ rw t h
      ])

pub done_pending :
    (s : Step) (st : StepStatus) → is_step_done s st ≡ true → is_pending st.phase ≡ false
unfolding is_step_done
done_pending s st h = ground arith

-- A completed step is not pending.
completed_pending :
    (steps : List Step) (m : Statuses) (f : Flags) (a : String)
    → (f a ≡ true → pending_at a m ≡ false)
    → completed_steps steps m f a ≡ true
    → pending_at a m ≡ false
unfolding completed_steps
completed_pending [] m f a h e = h e
completed_pending (s ∷ ss) m f a h e =
    completed_pending ss m (mark s.name _ f) a
      (λ marked. elim (String-cases s.name a) [
        | inl (p, t) ↦
            subst (λ n. pending_at n m ≡ false) p
              (done_pending s (get_status s.name m) (rw t at marked))
        | inr (p, t) ↦ h (rw t at marked)
      ])
      e

-- What is completed stays so while statuses that are not pending stay as they are.
pub completed-Frozen :
    (steps : List Step) (m m' : Statuses) (a : String)
    → Frozen m m'
    → completed steps m a ≡ true
    → completed steps m' a ≡ true
completed-Frozen steps m m' a h e =
    completed_steps-congr steps m m' unset unset a
      (h a (completed_pending steps m unset a (λ f. absurd cc) e)) refl
    ∙ e

-- A step that has left the phase Pending depends on steps that are done.
abbrev pub IsOrdered : List Step → Statuses → Type 0
IsOrdered steps m =
    (a b : String) → Depends steps a b → pending_at b m ≡ false → completed steps m a ≡ true

-- One status changes, that of a step whose dependencies are done.
IsOrdered-Others :
    (steps : List Step) (name : String) (m m' : Statuses)
    → pending_at name m ≡ true
    → ((a : String) → Depends steps a name → completed steps m a ≡ true)
    → Others name m m'
    → IsOrdered steps m
    → IsOrdered steps m'
IsOrdered-Others steps name m m' p deps others h a b before e =
    completed-Frozen steps m m' a (Frozen-Others name m m' p others) (elim (String-cases name b) [
      | inl (q, t) ↦ deps a (subst (Depends steps a) (sym q) before)
      | inr (q, t) ↦ h a b before (ap (λ s. is_pending s.phase) (sym (others b t)) ∙ e)
    ])

module _ {W : Type 0} (env : Env W) (steps : List Step) where
  -- Both properties, from one state to a later one.
  pub record Keeps (m m' : Statuses) : Type 0 where
    pub frozen : Frozen m m'
    pub ordered : IsOrdered steps m → IsOrdered steps m'

  pub Keeps-refl : (m : Statuses) → Keeps m m
  Keeps-refl m = record { frozen = λ n e. refl; ordered = λ h. h }

  pub Keeps-trans : (m m' m'' : Statuses) → Keeps m m' → Keeps m' m'' → Keeps m m''
  Keeps-trans m m' m'' h k = record {
    frozen = Frozen-trans m m' m'' h.frozen k.frozen;
    ordered = λ o. k.ordered (h.ordered o);
  }

  abbrev pub NextKeeps : Statuses → Next W → Type 0
  NextKeeps m (next b y) = Keeps m (statuses y)
  NextKeeps m (stop e y) = Keeps m (statuses y)

  -- The dependencies of a name are completed.
  abbrev Ready : Statuses → String → Type 0
  Ready m name = (a : String) → Depends steps a name → completed steps m a ≡ true

  Others-Keeps :
      (name : String) (m m' : Statuses)
      → pending_at name m ≡ true
      → Ready m name
      → Others name m m'
      → Keeps m m'
  Others-Keeps name m m' p ready others = record {
    frozen = Frozen-Others name m m' p others;
    ordered = IsOrdered-Others steps name m m' p ready others;
  }

  Ran-Keeps :
      (s : Step) (x : Exec W) (r : Next W)
      → pending_at s.name (statuses x) ≡ true
      → Ready (statuses x) s.name
      → Ran env s x r
      → NextKeeps (statuses x) r
  Ran-Keeps s x (next b y) p ready h = Others-Keeps s.name (statuses x) (statuses y) p ready h.1
  Ran-Keeps s x (stop returned y) p ready h = absurd h
  Ran-Keeps s x (stop (paused e) y) p ready h =
      Others-Keeps s.name (statuses x) (statuses y) p ready h.0
  Ran-Keeps s x (stop (failed_with e) y) p ready h =
      Others-Keeps s.name (statuses x) (statuses y) p ready h.0

  run_step-Keeps :
      (name : String) (x : Exec W)
      → Ready (statuses x) name
      → NextKeeps (statuses x) (run_step env steps name x)
  unfolding run_step
  run_step-Keeps name x ready = elim (Option-cases (find_step name steps)) [
    | inl e ↦ rw (e, run_step) (Keeps-refl (statuses x))
    | inr (s, e) ↦
        let named = find_step-name env name steps s e in
        elim (Bool-cases (pending_at name (statuses x))) [
          | inl p ↦
              Ran-Keeps s x (run_step env steps name x)
                (subst (λ n. pending_at n (statuses x) ≡ true) (sym named) p)
                (subst (Ready (statuses x)) (sym named) ready) (run_step-Ran env steps name s x e p)
          | inr p ↦ rw (run_step-passes env steps name s x e p) (Keeps-refl (statuses x))
        ]
  ]

  resume-Keeps :
      (m : Statuses) (names : List String) (any : Bool) (r : Next W)
      → NextKeeps m r
      → ((y : Exec W) (b : Bool)
          → Keeps m (statuses y)
          → NextKeeps (statuses y) (run_ready env steps names b y))
      → NextKeeps m
          (elim r [ stop e y ↦ stop e y | next b y ↦ run_ready env steps names (b || any) y ])
  resume-Keeps m names any (stop e y) h rest = h
  resume-Keeps m names any (next b y) h rest =
      after (run_ready env steps names (b || any) y) (rest y (b || any) h)
    where
      after : (r : Next W) → NextKeeps (statuses y) r → NextKeeps m r
      after (next c z) k = Keeps-trans m (statuses y) (statuses z) h k
      after (stop e z) k = Keeps-trans m (statuses y) (statuses z) h k

  pub run_ready-Keeps :
      (names : List String) (any : Bool) (x : Exec W)
      → ((name : String) → contains name names ≡ true → Ready (statuses x) name)
      → NextKeeps (statuses x) (run_ready env steps names any x)
  unfolding run_ready
  run_ready-Keeps [] any x ready = Keeps-refl (statuses x)
  run_ready-Keeps (name ∷ names) any x ready =
      resume-Keeps (statuses x) names any (run_step env steps name x)
        (run_step-Keeps name x (ready name (contains_self name names)))
        (λ y b k. run_ready-Keeps names b y (λ n m a before.
          completed-Frozen steps (statuses x) (statuses y) a k.frozen
            (ready n (ground (arith, m)) a before)))
