-- ===== src/Checkpoint/Progress.antt =====
-- The checkpoint is the most advanced snapshot that was saved, in whatever order the writes of the
-- goroutines come (checkpoint.go: SaveAsync, Load).
use ottoflow.Prelude.{
  ℕ, ◌≤◌, String, true, false, Option, none, some, List, [], ◌∷◌, ◌≡◌, refl, ◌==◌, inl, inr,
  if◌then◌else◌, leb, arith, eq_iff, sym, ◌∙◌, ap, subst, Bool-cases, String-cases,
}
use ottoflow.Checkpoint.{
  Snapshot, terminal_step_count, ConfigMap, Answer, granted, conflict, refused, Manager, decoded,
  is_covered, overwrite, replacement, or_stored, save, save_text, served, load_decoded, Call, step,
  saves, found, absent, load_text, load,
}

abbrev pub larger : ℕ → ℕ → ℕ
larger a b = if leb a b then b else a

larger-zero : (n : ℕ) → n ≡ larger 0 n
larger-zero n = ground arith

abbrev pub progress_of : Manager → Option Snapshot → ℕ
progress_of m none = 0
progress_of m (some s) =
    if s.workflow_run_uid == m.run_uid then terminal_step_count s.step_statuses else 0

-- The finished steps of what is stored for the run.
abbrev pub progress : Manager → Option ConfigMap → ℕ
progress m none = 0
progress m (some cm) = progress_of m (decoded m.codec cm.checkpoint)

abbrev pub after : Manager → Call → ℕ → ℕ
after m e n = served e.answer (larger n (terminal_step_count e.snapshot.step_statuses)) n

-- The most finished steps of the snapshots whose write is granted.
abbrev pub most : Manager → List Call → ℕ → ℕ
most m [] n = n
most m (e ∷ es) n = most m es (after m e n)

-- The run's own snapshots, which encoding/json writes and reads back.
abbrev pub AreOwn : Manager → List Call → Type 0
AreOwn m [] = Unit {0}
AreOwn m (e ∷ es) =
    (e.snapshot.workflow_run_uid ≡ m.run_uid)
    × ((raw : String) × (m.codec.encode e.snapshot ≡ some raw)
        × (m.codec.decode raw ≡ some e.snapshot))
    × AreOwn m es

covered-larger :
    (m : Manager) (s old : Snapshot)
    → is_covered m s old ≡ true
    → progress_of m (some old)
      ≡ larger (progress_of m (some old)) (terminal_step_count s.step_statuses)
unfolding is_covered
covered-larger m s old h = ground (arith, h)

uncovered-larger :
    (m : Manager) (s old : Snapshot)
    → is_covered m s old ≡ false
    → terminal_step_count s.step_statuses
      ≡ larger (progress_of m (some old)) (terminal_step_count s.step_statuses)
unfolding is_covered
uncovered-larger m s old h = ground (arith, h)

module _ (m : Manager) (empty : m.codec.decode "" ≡ none) (on : m.enabled ≡ true) where
  progress_of-own :
      (s : Snapshot)
      → s.workflow_run_uid ≡ m.run_uid
      → progress_of m (some s) ≡ terminal_step_count s.step_statuses
  progress_of-own s own = ground (arith, own, eq_iff s.workflow_run_uid m.run_uid)

  -- The write over nothing that belongs to the run.
  written :
      (s : Snapshot) (raw : String)
      → s.workflow_run_uid ≡ m.run_uid
      → m.codec.decode raw ≡ some s
      → progress_of m (m.codec.decode raw) ≡ larger 0 (terminal_step_count s.step_statuses)
  written s raw own e =
      ap (progress_of m) e
      ∙ (progress_of-own s own ∙ larger-zero (terminal_step_count s.step_statuses))

  overwrite-progress :
      (s : Snapshot) (raw : String) (old : Option Snapshot) (cm : ConfigMap)
      → s.workflow_run_uid ≡ m.run_uid
      → m.codec.decode raw ≡ some s
      → decoded m.codec cm.checkpoint ≡ old
      → progress m (or_stored (overwrite m s raw old) (some cm))
        ≡ larger (progress_of m old) (terminal_step_count s.step_statuses)
  overwrite-progress s raw none cm own e d = written s raw own e
  overwrite-progress s raw (some old) cm own e d =
      let count : ℕ = terminal_step_count s.step_statuses in
      let first : progress_of m (m.codec.decode raw) ≡ count =
        ap (progress_of m) e ∙ progress_of-own s own in
      let kept : progress_of m (decoded m.codec cm.checkpoint) ≡ progress_of m (some old) =
        ap (progress_of m) d in
      elim (Bool-cases (is_covered m s old)) [
        | inl h ↦ rw (h) (kept ∙ covered-larger m s old h)
        | inr h ↦ rw (h) (first ∙ uncovered-larger m s old h)
      ]

  replacement-progress :
      (s : Snapshot) (raw : String) (stored : Option ConfigMap)
      → s.workflow_run_uid ≡ m.run_uid
      → m.codec.decode raw ≡ some s
      → progress m (or_stored (replacement m s raw stored) stored)
        ≡ larger (progress m stored) (terminal_step_count s.step_statuses)
  unfolding replacement
  replacement-progress s raw none own e = written s raw own e
  replacement-progress s raw (some cm) own e = overwrite-progress s raw _ cm own e refl

  served-progress :
      (a : Answer) (new old : Option ConfigMap) (n : ℕ)
      → progress m new ≡ n
      → progress m (served a new old) ≡ served a n (progress m old)
  served-progress granted new old n h = h
  served-progress conflict new old n h = refl
  served-progress refused new old n h = refl

  save-progress :
      (s : Snapshot) (raw : String) (stored : Option ConfigMap)
      → s.workflow_run_uid ≡ m.run_uid
      → m.codec.encode s ≡ some raw
      → m.codec.decode raw ≡ some s
      → progress m (save m s stored)
        ≡ larger (progress m stored) (terminal_step_count s.step_statuses)
  unfolding save
  save-progress s raw stored own enc dec =
      ap (λ b. progress m (if b then save_text m s (m.codec.encode s) stored else stored)) on
      ∙ (ap (λ o. progress m (save_text m s o stored)) enc
          ∙ replacement-progress s raw stored own dec)

  step-progress :
      (e : Call) (raw : String) (stored : Option ConfigMap)
      → e.snapshot.workflow_run_uid ≡ m.run_uid
      → m.codec.encode e.snapshot ≡ some raw
      → m.codec.decode raw ≡ some e.snapshot
      → progress m (step m e stored) ≡ after m e (progress m stored)
  unfolding step
  step-progress e raw stored own enc dec =
      served-progress e.answer (save m e.snapshot stored) stored _
        (save-progress e.snapshot raw stored own enc dec)

  pub saves-progress :
      (es : List Call) (stored : Option ConfigMap)
      → AreOwn m es
      → progress m (saves m es stored) ≡ most m es (progress m stored)
  unfolding saves
  saves-progress [] stored own = refl
  saves-progress (e ∷ es) stored (own, (raw, enc, dec), owns) =
      saves-progress es (step m e stored) owns
      ∙ ap (most m es) (step-progress e raw stored own enc dec)

  empty_text : 1 ≤ progress_of m (m.codec.decode "") → ⊥
  empty_text h = omega (arith, ap (progress_of m) empty, h)

  found_of :
      (o : Option Snapshot)
      → 1 ≤ progress_of m o
      → (s : Snapshot) × (load_decoded m o ≡ found s)
        × (terminal_step_count s.step_statuses ≡ progress_of m o)
  found_of none h = absurd (omega (arith, h))
  found_of (some s) h = elim (Bool-cases (s.workflow_run_uid == m.run_uid)) [
    | inl own ↦ (
      s,
      ap (λ b. if b then found s else absent) own,
      ap (λ b. if b then terminal_step_count s.step_statuses else 0) (sym own),
    )
    | inr other ↦ absurd (
        omega (
          arith,
          subst (λ n. 1 ≤ n) (ap (λ b. if b then terminal_step_count s.step_statuses else 0) other)
              h,
        ))
  ]

  load_text-progress :
      (o : Option String)
      → 1 ≤ progress_of m (decoded m.codec o)
      → (s : Snapshot) × (load_text m o ≡ found s)
        × (terminal_step_count s.step_statuses ≡ progress_of m (decoded m.codec o))
  load_text-progress none h = absurd (empty_text h)
  load_text-progress (some raw) h = elim (String-cases raw "") [
    | inl (e, t) ↦ absurd (empty_text (subst (λ r. 1 ≤ progress_of m (m.codec.decode r)) e h))
    | inr (ne, t) ↦
        subst
          (λ b.
            (s : Snapshot) × ((if b then absent else load_decoded m (m.codec.decode raw)) ≡ found s)
            × (terminal_step_count s.step_statuses ≡ progress_of m (m.codec.decode raw)))
          (sym t) (found_of (m.codec.decode raw) h)
  ]

  -- What is stored with some progress is found by Load.
  load-progress :
      (stored : Option ConfigMap)
      → 1 ≤ progress m stored
      → (s : Snapshot) × (load m stored ≡ found s)
        × (terminal_step_count s.step_statuses ≡ progress m stored)
  unfolding load
  load-progress none h = absurd (omega (arith, h))
  load-progress (some cm) h =
      subst
        (λ b.
          (s : Snapshot) × ((if b then load_text m cm.checkpoint else absent) ≡ found s)
          × (terminal_step_count s.step_statuses ≡ progress m (some cm)))
        (sym on) (load_text-progress cm.checkpoint h)

  -- For a run with checkpointing, whose snapshots encoding/json writes and reads back: whatever the
  -- order in which the calls of SaveAsync are served, and whichever are refused or conflict, Load
  -- then finds a snapshot with as many finished steps as the most advanced one that was granted or
  -- that was stored before, if that has a finished step.
  pub load-saves :
      (es : List Call) (stored : Option ConfigMap)
      → AreOwn m es
      → 1 ≤ most m es (progress m stored)
      → (s : Snapshot) × (load m (saves m es stored) ≡ found s)
        × (terminal_step_count s.step_statuses ≡ most m es (progress m stored))
  load-saves es stored own some_step =
      let run : progress m (saves m es stored) ≡ most m es (progress m stored) =
        saves-progress es stored own in
      subst
        (λ n.
          (s : Snapshot) × (load m (saves m es stored) ≡ found s)
          × (terminal_step_count s.step_statuses ≡ n))
        run (load-progress (saves m es stored) (subst (λ n. 1 ≤ n) (sym run) some_step))
