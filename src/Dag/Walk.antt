-- ===== src/Dag/Walk.antt =====
-- The depth-first search of hasCycleDFS: it ends within its fuel, `found` comes with a cycle, and
-- after `clear` every walk from a finished node is finite.
use mathlib.Core.WellFounded.{Acc}
use ottoflow.Prelude.{
  ℕ, zero, suc, ◌≤◌, ◌<◌, String, true, false, List, [], ◌∷◌, ◌≡◌, refl, sym, inl, inr, contains,
  is_some, length, arith, eq_iff, Bool-cases, Option-cases, String-cases, ◌∙◌, contains_self, subst,
}
use ottoflow.Dag.{
  Node, find, Flags, mark, unset, Outcome, found, crash, out_of_fuel, clear, resume, scan,
  has_cycle_dfs, cycle_loop, node_names,
}
use ottoflow.Dag.Unvisited.{
  unvisited, Grows, unvisited_mono, mark-Grows, unvisited-mark, find-names, unvisited-unset,
  length-names,
}
use ottoflow.Dag.Graph.{Edge, Chain, one, Cycle, IsGrounded, extend, successors-find}

module _ (ns : List Node) where
  -- Every dependent of a node is a node.
  abbrev pub IsClosed : Type 0
  IsClosed = (u w : String) → Edge ns u w → is_some (find w ns) ≡ true

  record Sound (visited stack : Flags) : Type 0 where
    below : Grows stack visited
    done : (x : String) → visited x ≡ true → stack x ≡ false → IsGrounded (Edge ns) x

  record Kept (visited stack visited' stack' : Flags) : Type 0 where
    grows : Grows visited visited'
    same : (x : String) → stack' x ≡ stack x
    sound : Sound visited' stack'

  -- What a visit of `w` leaves.
  abbrev Visited : String → Flags → Flags → Outcome → Type 0
  Visited w visited stack found = Cycle (Edge ns)
  Visited w visited stack (clear visited' stack') =
      Kept visited stack visited' stack' × (visited' w ≡ true)
  Visited w visited stack crash = ⊥
  Visited w visited stack out_of_fuel = ⊥

  -- What the loop over the dependents `ws` leaves.
  abbrev Scanned : List String → Flags → Flags → Outcome → Type 0
  Scanned ws visited stack found = Cycle (Edge ns)
  Scanned ws visited stack (clear visited' stack') =
      Kept visited stack visited' stack'
      × ((w : String) → contains w ws ≡ true → IsGrounded (Edge ns) w)
  Scanned ws visited stack crash = ⊥
  Scanned ws visited stack out_of_fuel = ⊥

  -- Every node of the stack has a walk to `w`.
  abbrev Leads : Flags → String → Type 0
  Leads stack w = (x : String) → stack x ≡ true → Chain (Edge ns) x w

  abbrev names : List String
  names = node_names ns

  -- What a visit within `k` levels of calls is for.
  abbrev VisitOk : ℕ → (String → Flags → Flags → Outcome) → Type 0
  VisitOk k visit =
      (w : String) (visited stack : Flags)
      → Sound visited stack
      → visited w ≡ false
      → is_some (find w ns) ≡ true
      → Leads stack w
      → unvisited visited names ≤ k
      → Visited w visited stack (visit w visited stack)

  Kept-refl : (v s : Flags) → Sound v s → Kept v s v s
  Kept-refl v s h = record { grows = λ x e. e; same = λ x. refl; sound = h }

  Kept-trans : (v s v' s' v'' s'' : Flags) → Kept v s v' s' → Kept v' s' v'' s'' → Kept v s v'' s''
  Kept-trans v s v' s' v'' s'' h k = record {
    grows = λ x e. k.grows x (h.grows x e);
    same = λ x. k.same x ∙ h.same x;
    sound = k.sound;
  }

  IsGrounded-of_done :
      (v s : Flags) (w : String) → Sound v s → v w ≡ true → s w ≡ false → IsGrounded (Edge ns) w
  IsGrounded-of_done v s w h e f = h.done w e f

  -- The stack does not hold a node that is not visited.
  off_stack : (v s : Flags) (w : String) → Sound v s → v w ≡ false → s w ≡ false
  off_stack v s w h e = elim (Bool-cases (s w)) [
    | inl on ↦ absurd (cc (e, h.below w on))
    | inr off ↦ off
  ]

  -- One dependent `w` is done with, and the loop over the others left `o`.
  Scanned-cons :
      (w : String) (ws : List String) (v s v' s' : Flags) (o : Outcome)
      → Kept v s v' s'
      → IsGrounded (Edge ns) w
      → Scanned ws v' s' o
      → Scanned (w ∷ ws) v s o
  Scanned-cons w ws v s v' s' found k g h = h
  Scanned-cons w ws v s v' s' crash k g h = h
  Scanned-cons w ws v s v' s' out_of_fuel k g h = h
  Scanned-cons w ws v s v' s' (clear v'' s'') k g (kept, rest) = (
    Kept-trans v s v' s' v'' s'' k kept,
    λ x m. elim (String-cases w x) [
      | inl (p, t) ↦ subst (IsGrounded (Edge ns)) p g
      | inr (p, t) ↦ rest x (ground arith)
    ],
  )

  -- What the loop over `ws` is for: nodes to which every node of the stack has a walk.
  abbrev ScanOk : ℕ → List String → (Flags → Flags → Outcome) → Type 0
  ScanOk k ws loop =
      (v s : Flags)
      → Sound v s
      → ((w : String) → contains w ws ≡ true → (is_some (find w ns) ≡ true) × Leads s w)
      → unvisited v names ≤ k
      → Scanned ws v s (loop v s)

  resume-Scanned :
      (k : ℕ) (w : String) (ws : List String) (loop : Flags → Flags → Outcome)
      → ScanOk k ws loop
      → (v s : Flags) (o : Outcome) → Visited w v s o
      → s w ≡ false
      → ((x : String) → contains x ws ≡ true → (is_some (find x ns) ≡ true) × Leads s x)
      → unvisited v names ≤ k
      → Scanned (w ∷ ws) v s (resume o loop)
  unfolding resume
  resume-Scanned k w ws loop ok v s found h off leads few = h
  resume-Scanned k w ws loop ok v s crash h off leads few = h
  resume-Scanned k w ws loop ok v s out_of_fuel h off leads few = h
  resume-Scanned k w ws loop ok v s (clear v' s') (kept, seen) off leads few =
      Scanned-cons w ws v s v' s' (loop v' s') kept (kept.sound.done w seen (kept.same w ∙ off)) (
        ok v' s' kept.sound
          (λ x m. ((leads x m).0, λ y on. (leads x m).1 y (sym (kept.same y) ∙ on)))
          (omega (arith, unvisited_mono v v' names kept.grows)))

  scan-ScanOk :
      (k : ℕ) (visit : String → Flags → Flags → Outcome)
      → VisitOk k visit
      → (ws : List String) → ScanOk k ws (scan visit ws)
  unfolding scan
  scan-ScanOk k visit ok [] v s h leads few = (Kept-refl v s h, λ w m. cc)
  scan-ScanOk k visit ok (w ∷ ws) v s h leads few =
      let here = leads w (contains_self w ws) in
      let later = λ (x : String) (m : contains x ws ≡ true). leads x (ground arith) in
      let loop = scan-ScanOk k visit ok ws in
      elim (Bool-cases (v w)) [
        | inl seen ↦ elim (Bool-cases (s w)) [
          | inl on ↦ rw (seen, on, scan) (w, here.1 w on)
          | inr off ↦
              rw (seen, off, scan)
                (Scanned-cons w ws v s v s (scan visit ws v s) (Kept-refl v s h) (h.done w seen off)
                  (loop v s h later few))
        ]
        | inr new ↦
            rw (new, scan)
              (resume-Scanned k w ws (scan visit ws) loop v s (visit w v s)
                (ok w v s h new here.0 here.1 few) (off_stack v s w h new) later few)
      ]

  -- Going down: the stack with `u` on it leads to each successor of `u`.
  Leads-mark :
      (u : String) (s : Flags) → Leads s u → (w : String) → Edge ns u w → Leads (mark u true s) w
  Leads-mark u s leads w e x on = elim (String-cases u x) [
    | inl (p, t) ↦ subst (λ y. Chain (Edge ns) y w) p (one e)
    | inr (p, t) ↦ extend (leads x (ground arith)) e
  ]

  Sound-mark : (u : String) (v s : Flags) → Sound v s → Sound (mark u true v) (mark u true s)
  Sound-mark u v s h = record {
    below = λ x on. ground (arith, h.below x);
    done = λ x seen off. h.done x (ground arith) (ground arith);
  }

  -- Coming back: `u` is done, since all its successors are.
  leave-Visited :
      (u : String) (v s : Flags) (ws : List String)
      → Sound v s
      → v u ≡ false
      → ((w : String) → Edge ns u w → contains w ws ≡ true)
      → (o : Outcome) → Scanned ws (mark u true v) (mark u true s) o
      → Visited u v s (resume o (λ v' s'. clear v' (mark u false s')))
  unfolding resume
  leave-Visited u v s ws h new all found r = r
  leave-Visited u v s ws h new all crash r = r
  leave-Visited u v s ws h new all out_of_fuel r = r
  leave-Visited u v s ws h new all (clear v' s') (kept, rest) = (
    record {
      grows = λ x seen. kept.grows x (mark-Grows u v x seen);
      same = restored;
      sound = record {
        below = λ x on. kept.sound.below x (still x on);
        done = λ x seen off. elim (String-cases u x) [
          | inl (p, t) ↦ subst (IsGrounded (Edge ns)) p (Acc.intro u (λ w e. rest w (all w e)))
          | inr (p, t) ↦ kept.sound.done x seen (ground arith)
        ];
      };
    },
    kept.grows u (ground (arith, eq_iff u u)),
  )
    where
      restored : (x : String) → mark u false s' x ≡ s x
      restored x = elim (String-cases u x) [
        | inl (p, t) ↦ rw t (sym (subst (λ y. s y ≡ false) p (off_stack v s u h new)))
        | inr (p, t) ↦ ground (arith, kept.same x)
      ]

      still : (x : String) → mark u false s' x ≡ true → s' x ≡ true
      still x on = ground arith

  module _ (closed : IsClosed) where
    dfs-step : (f : ℕ) → VisitOk f (has_cycle_dfs f ns) → VisitOk (suc f) (has_cycle_dfs (suc f) ns)
    unfolding has_cycle_dfs
    dfs-step f ok u v s h new node leads few = elim (Option-cases (find u ns)) [
      | inl e ↦ absurd (ground (arith, e))
      | inr (n, e) ↦
          let ws = n.dependents in
          let edges = successors-find ns u n e in
          let v' = mark u true v in
          let s' = mark u true s in
          let fewer = unvisited-mark u v names (find-names u ns n e) new in
          rw (e, has_cycle_dfs)
            (leave-Visited u v s ws h new (λ w m. rw edges at m)
              (scan (has_cycle_dfs f ns) ws v' s')
              (scan-ScanOk f (has_cycle_dfs f ns) ok ws v' s' (Sound-mark u v s h)
                (λ w m.
                  let out : Edge ns u w = rw edges m in
                  (closed u w out, Leads-mark u s leads w out))
                (omega arith)))
    ]

    nonempty :
        (u : String) (v : Flags) → is_some (find u ns) ≡ true → v u ≡ false → 0 < unvisited v names
    nonempty u v node new = elim (Option-cases (find u ns)) [
      | inl e ↦ absurd (ground (arith, e))
      | inr (n, e) ↦ omega (arith, unvisited-mark u v names (find-names u ns n e) new)
    ]

    -- A visit with as much fuel as there are nodes left to visit.
    dfs-VisitOk : (f : ℕ) → VisitOk f (has_cycle_dfs f ns)
    dfs-VisitOk zero u v s h new node leads few = absurd (omega (arith, nonempty u v node new))
    dfs-VisitOk (suc f) u v s h new node leads few =
        dfs-step f (dfs-VisitOk f) u v s h new node leads few

    -- What the loop of HasCycle leaves, started with an empty stack.
    abbrev pub Looped : List String → Outcome → Type 0
    Looped us found = Cycle (Edge ns)
    Looped us (clear v s) = (u : String) → contains u us ≡ true → IsGrounded (Edge ns) u
    Looped us crash = ⊥
    Looped us out_of_fuel = ⊥

    Looped-cons :
        (u : String) (us : List String)
        → IsGrounded (Edge ns) u
        → (o : Outcome) → Looped us o
        → Looped (u ∷ us) o
    Looped-cons u us g found h = h
    Looped-cons u us g crash h = h
    Looped-cons u us g out_of_fuel h = h
    Looped-cons u us g (clear v s) h = λ x m. elim (String-cases u x) [
      | inl (p, t) ↦ subst (IsGrounded (Edge ns)) p g
      | inr (p, t) ↦ h x (ground arith)
    ]

    resume-Looped :
        (f : ℕ) (u : String) (us : List String) (loop : Flags → Flags → Outcome) (v s : Flags)
        → ((v' s' : Flags)
            → Sound v' s'
            → ((x : String) → s' x ≡ false)
            → unvisited v' names ≤ f
            → Looped us (loop v' s'))
        → ((x : String) → s x ≡ false)
        → unvisited v names ≤ f
        → (o : Outcome) → Visited u v s o
        → Looped (u ∷ us) (resume o loop)
    unfolding resume
    resume-Looped f u us loop v s rest idle few found h = h
    resume-Looped f u us loop v s rest idle few crash h = h
    resume-Looped f u us loop v s rest idle few out_of_fuel h = h
    resume-Looped f u us loop v s rest idle few (clear v' s') (kept, seen) =
        let idle' = λ (x : String). kept.same x ∙ idle x in
        Looped-cons u us (kept.sound.done u seen (idle' u)) (loop v' s')
          (rest v' s' kept.sound idle' (omega (arith, unvisited_mono v v' names kept.grows)))

    cycle_loop-Looped :
        (f : ℕ) (us : List String) (v s : Flags)
        → ((u : String) → contains u us ≡ true → is_some (find u ns) ≡ true)
        → Sound v s
        → ((x : String) → s x ≡ false)
        → unvisited v names ≤ f
        → Looped us (cycle_loop f ns us v s)
    unfolding cycle_loop
    cycle_loop-Looped f [] v s nodes h idle few = λ u m. cc
    cycle_loop-Looped f (u ∷ us) v s nodes h idle few =
        let loop =
          λ (v' s' : Flags). cycle_loop-Looped f us v' s' (λ x m. nodes x (ground arith)) in
        elim (Bool-cases (v u)) [
          | inl seen ↦
              rw (seen, cycle_loop)
                (Looped-cons u us (h.done u seen (idle u)) (cycle_loop f ns us v s)
                  (loop v s h idle few))
          | inr new ↦
              rw (new, cycle_loop)
                (resume-Looped f u us (cycle_loop f ns us) v s loop idle few
                  (has_cycle_dfs f ns u v s)
                  (dfs-VisitOk f u v s h new (nodes u (contains_self u us))
                    (λ x on. absurd (cc (on, idle x))) few))
        ]

    -- The loop from the start.
    pub loop-Looped :
        (us : List String)
        → ((u : String) → contains u us ≡ true → is_some (find u ns) ≡ true)
        → Looped us (cycle_loop (length ns) ns us unset unset)
    loop-Looped us nodes =
        cycle_loop-Looped (length ns) us unset unset nodes
          (record { below = λ x on. cc; done = λ x seen off. cc }) (λ x. refl)
          (omega (arith, unvisited-unset names, length-names ns))
