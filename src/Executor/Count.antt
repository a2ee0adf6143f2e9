-- ===== src/Executor/Count.antt =====
-- Steps with distinct names, and the number of those that are still pending.
use ottoflow.Prelude.{
  ℕ, suc, ◌≤◌, ◌<◌, String, true, false, some, List, [], ◌∷◌, ◌≡◌, refl, sym, ◌∙◌, inl, inr, ap,
  subst, ◌==◌, if◌then◌else◌, arith, eq_refl, Bool-cases, String-cases, length,
}
use ottoflow.Api.Step.{Step}
use ottoflow.Dag.{Flags, mark}
use ottoflow.Dag.Declare.{is_step}
use ottoflow.Executor.{get_status, is_step_done, is_pending, find_step, completed_steps, all_done}
use ottoflow.Executor.Ran.{Statuses, pending_at, Frozen}

-- No two steps have the same name.
abbrev pub IsDistinct : List Step → Type 0
IsDistinct [] = Unit {0}
IsDistinct (s ∷ ss) = (is_step ss s.name ≡ false) × IsDistinct ss

pub find_step-of-is_step :
    (ss : List Step) (a : String) → is_step ss a ≡ true → (s : Step) × (find_step a ss ≡ some s)
unfolding find_step
find_step-of-is_step [] a h = cc
find_step-of-is_step (s ∷ ss) a h = elim (Bool-cases (s.name == a)) [
  | inl e ↦ (s, rw e refl)
  | inr e ↦ let (t, h') = find_step-of-is_step ss a (ground arith) in (t, rw e h')
]

pub is_step-of-find_step :
    (ss : List Step) (a : String) (s : Step) → find_step a ss ≡ some s → is_step ss a ≡ true
unfolding find_step
is_step-of-find_step [] a s h = cc
is_step-of-find_step (t ∷ ss) a s h = ground (arith, is_step-of-find_step ss a s)

pub completed_steps-absent :
    (ss : List Step) (m : Statuses) (f : Flags) (a : String)
    → is_step ss a ≡ false
    → completed_steps ss m f a ≡ f a
unfolding completed_steps
completed_steps-absent [] m f a h = refl
completed_steps-absent (s ∷ ss) m f a h =
    completed_steps-absent ss m (mark s.name _ f) a (ground arith) ∙ ground arith

-- With distinct names, a step is completed when its own status says that it is done.
pub completed_steps-find :
    (ss : List Step) (m : Statuses) (f : Flags) (a : String) (s : Step)
    → IsDistinct ss
    → find_step a ss ≡ some s
    → completed_steps ss m f a ≡ is_step_done s (get_status a m)
unfolding completed_steps find_step
completed_steps-find [] m f a s h e = cc
completed_steps-find (t ∷ ss) m f a s h e = elim (String-cases t.name a) [
  | inl (p, q) ↦
      completed_steps-absent ss m (mark t.name _ f) a (subst (λ n. is_step ss n ≡ false) p h.0)
      ∙ (ground arith ∙ (same (rw q at e) ∙ ap (λ n. is_step_done s (get_status n m)) p))
  | inr (p, q) ↦ completed_steps-find ss m (mark t.name _ f) a s h.1 (rw q at e)
]
  where
    same :
        some t ≡ some s
        → is_step_done t (get_status t.name m) ≡ is_step_done s (get_status t.name m)
    same r = ground arith

-- A step that is not done, if not all are.
pub not_done :
    (ss : List Step) (m : Statuses)
    → IsDistinct ss
    → all_done ss m ≡ false
    → (s : Step) × (find_step s.name ss ≡ some s) × (is_step_done s (get_status s.name m) ≡ false)
unfolding all_done find_step
not_done [] m h e = cc
not_done (t ∷ ss) m h e = elim (Bool-cases (is_step_done t (get_status t.name m))) [
  | inl d ↦
      let (s, found, open_s) = not_done ss m h.1 (ground arith) in
      elim (String-cases t.name s.name) [
        | inl (p, q) ↦
            absurd
              (cc (subst (λ n. is_step ss n ≡ false) p h.0, is_step-of-find_step ss s.name s found))
        | inr (p, q) ↦ (s, rw q found, open_s)
      ]
  | inr d ↦ (t, rw eq_refl refl, d)
]

pub pending_count : List Step → Statuses → ℕ
pending_count [] m = 0
pending_count (s ∷ ss) m =
    let rest = pending_count ss m in if pending_at s.name m then suc rest else rest

pub pending_count-le : (ss : List Step) (m : Statuses) → pending_count ss m ≤ length ss
unfolding pending_count
pending_count-le [] m = omega arith
pending_count-le (s ∷ ss) m = ground (arith, pending_count-le ss m)

pub pending_count_mono :
    (ss : List Step) (m m' : Statuses) → Frozen m m' → pending_count ss m' ≤ pending_count ss m
unfolding pending_count
pending_count_mono [] m m' h = omega arith
pending_count_mono (s ∷ ss) m m' h = ground (
  arith,
  pending_count_mono ss m m' h,
  h s.name,
  ap (λ t. is_pending t.phase) {x = get_status s.name m'} {y = get_status s.name m},
)

pub pending_count-lt :
    (ss : List Step) (m m' : Statuses) (a : String)
    → Frozen m m'
    → is_step ss a ≡ true
    → pending_at a m ≡ true
    → pending_at a m' ≡ false
    → pending_count ss m' < pending_count ss m
unfolding pending_count
pending_count-lt [] m m' a h s p q = cc
pending_count-lt (t ∷ ss) m m' a h s p q = elim (String-cases t.name a) [
  | inl (r, e) ↦
      rw
        (
          subst (λ n. pending_at n m ≡ true) (sym r) p,
          subst (λ n. pending_at n m' ≡ false) (sym r) q,
        )
        (omega (arith, pending_count_mono ss m m' h))
  | inr (r, e) ↦ ground (
    arith,
    pending_count-lt ss m m' a h,
    h t.name,
    ap (λ u. is_pending u.phase) {x = get_status t.name m'} {y = get_status t.name m},
  )
]

pub pending_count-pos :
    (ss : List Step) (m : Statuses) (a : String)
    → is_step ss a ≡ true
    → pending_at a m ≡ true
    → 0 < pending_count ss m
unfolding pending_count
pending_count-pos [] m a s p = cc
pending_count-pos (t ∷ ss) m a s p = elim (String-cases t.name a) [
  | inl (r, e) ↦ rw (subst (λ n. pending_at n m ≡ true) (sym r) p) (omega arith)
  | inr (r, e) ↦ ground (arith, pending_count-pos ss m a)
]
