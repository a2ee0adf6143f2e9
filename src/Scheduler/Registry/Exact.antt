-- ===== src/Scheduler/Registry/Exact.antt =====
-- The cron engine and the registry agree (internal/workflow/controller/scheduler.go).
use ottoflow.Prelude.{
  ℕ, suc, ◌<◌, String, Bool, true, false, Option, none, some, List, [], ◌∷◌, ◌≡◌, refl, sym, ap,
  ◌∙◌, subst, ◌==◌, inl, inr, if◌then◌else◌, eqb, lookup, erase, insert, lookup-erase,
  lookup-insert, arith, eq_iff, Bool-cases, String-cases,
}
use ottoflow.Scheduler.Registry.{
  Schedule, Registry, fires, removed, drop_entry, add_schedule, forget_key, remove_schedule,
  Operation, add, remove, operate, operate_all, no_schedules,
}

-- The live entries are those that are registered, each for its key.
pub record IsExact (s : Registry) : Type 0 where
  pub registered : (i : ℕ) (k : String) → fires i s.engine ≡ some k → lookup k s.entries ≡ some i
  pub live : (i : ℕ) (k : String) → lookup k s.entries ≡ some i → fires i s.engine ≡ some k
  pub used : (i : ℕ) (k : String) → fires i s.engine ≡ some k → i < s.next

fires-removed :
    (i j : ℕ) (es : List (ℕ × String))
    → fires j (removed i es) ≡ (if eqb i j then none else fires j es)
fires-removed i j [] = ground arith
fires-removed i j (e ∷ es) = ground (arith, fires-removed i j es)

if-none :
    {A : Type 0} (b : Bool) (o : Option A) (x : A)
    → (if b then none else o) ≡ some x
    → (b ≡ false) × (o ≡ some x)
if-none true o x h = absurd (ground (arith, h))
if-none false o x h = (refl, h)

eqb-true : (i j : ℕ) → eqb i j ≡ true → i ≡ j
eqb-true i j h = ground (arith, h)

same_text : (k j : String) → Path (Option String) (some k) (some j) → (k == j) ≡ true
same_text k j h = ground (arith, h, eq_iff k j)

same_number : (i j : ℕ) → Path (Option ℕ) (some i) (some j) → eqb i j ≡ true
same_number i j h = ground (arith, h)

less-eqb : (i n : ℕ) → i < n → eqb n i ≡ false
less-eqb i n h = ground (arith, h)

-- Without the entry of a key, for the entries and the engine that are left.
module _ (key : String) (id : ℕ) (s : Registry) (at : lookup key s.entries ≡ some id)
    (k : IsExact s) where
  dropped-registered :
      (i : ℕ) (name : String)
      → fires i (removed id s.engine) ≡ some name
      → lookup name (erase key s.entries) ≡ some i
  dropped-registered i name h =
      let (other, firing) =
        if-none (eqb id i) (fires i s.engine) name (sym (fires-removed id i s.engine) ∙ h) in
      elim (String-cases key name) [
        | inl (e, t) ↦ absurd (
            cc (
              other,
              same_number id i
                  (sym at ∙ (ap (λ z. lookup z s.entries) e ∙ k.registered i name firing)),
            ))
        | inr (e, t) ↦
            lookup-erase key name s.entries
            ∙ (ap (λ b. if b then none else lookup name s.entries) t ∙ k.registered i name firing)
      ]

  dropped-live :
      (i : ℕ) (name : String)
      → lookup name (erase key s.entries) ≡ some i
      → fires i (removed id s.engine) ≡ some name
  dropped-live i name h =
      let (other, found) =
        if-none (key == name) (lookup name s.entries) i
          (sym (lookup-erase key name s.entries) ∙ h) in
      elim (Bool-cases (eqb id i)) [
        | inl e ↦ absurd (
            cc (
              other,
              same_text key name (
                  sym (k.live id key at)
                  ∙ (ap (λ z. fires z s.engine) (eqb-true id i e) ∙ k.live i name found)),
            ))
        | inr e ↦
            fires-removed id i s.engine
            ∙ (ap (λ b. if b then none else fires i s.engine) e ∙ k.live i name found)
      ]

  dropped-used : (i : ℕ) (name : String) → fires i (removed id s.engine) ≡ some name → i < s.next
  dropped-used i name h =
      k.used i name
        (if-none (eqb id i) (fires i s.engine) name (sym (fires-removed id i s.engine) ∙ h)).1

drop_entry-IsExact :
    (key : String) (o : Option ℕ) (s : Registry)
    → lookup key s.entries ≡ o
    → IsExact s
    → IsExact (drop_entry key o s)
drop_entry-IsExact key none s at k = k
drop_entry-IsExact key (some id) s at k = record {
  registered = dropped-registered key id s at k;
  live = dropped-live key id s at k;
  used = dropped-used key id s at k;
}

forget_key-IsExact :
    (key : String) (o : Option ℕ) (s : Registry)
    → lookup key s.entries ≡ o
    → IsExact s
    → IsExact (forget_key key o s)
forget_key-IsExact key none s at k = k
forget_key-IsExact key (some id) s at k = record {
  registered = dropped-registered key id s at k;
  live = dropped-live key id s at k;
  used = dropped-used key id s at k;
}

-- Behind drop_entry the key has no entry.
drop_entry-free :
    (key : String) (o : Option ℕ) (s : Registry)
    → lookup key s.entries ≡ o
    → lookup key (drop_entry key o s).entries ≡ none
drop_entry-free key none s at = at
drop_entry-free key (some id) s at = lookup-erase key key s.entries ∙ ground (arith, eq_iff key key)

-- A new entry for a key without one.
abbrev added : String → String → Schedule → Registry → Registry
added key workflow spec r = record {
  engine = (r.next, key) ∷ r.engine;
  next = suc r.next;
  entries = insert key r.next r.entries;
  workflows = insert key workflow r.workflows;
  cron_specs = insert key spec r.cron_specs;
}

added-IsExact :
    (key workflow : String) (spec : Schedule) (r : Registry)
    → lookup key r.entries ≡ none
    → IsExact r
    → IsExact (added key workflow spec r)
added-IsExact key workflow spec r vacant k = record {
  registered = λ i name h. elim (Bool-cases (eqb r.next i)) [
    | inl e ↦
        inserted name
        ∙ (ap (λ b. if b then some r.next else lookup name r.entries)
              (same_text key name (sym (ap (fired i) e) ∙ h))
            ∙ ap some (eqb-true r.next i e))
    | inr e ↦
        let old : lookup name r.entries ≡ some i = k.registered i name (sym (ap (fired i) e) ∙ h) in
        elim (String-cases key name) [
          | inl (same, t) ↦
              absurd (ground (arith, sym vacant ∙ (ap (λ z. lookup z r.entries) same ∙ old)))
          | inr (other, t) ↦
              inserted name ∙ (ap (λ b. if b then some r.next else lookup name r.entries) t ∙ old)
        ]
  ];
  live = λ i name h. elim (String-cases key name) [
    | inl (same, t) ↦
        ap (fired i) (
          same_number r.next i (
            sym (inserted name ∙ ap (λ b. if b then some r.next else lookup name r.entries) t) ∙ h))
        ∙ ap some same
    | inr (other, t) ↦
        let firing : fires i r.engine ≡ some name = k.live i name (
          sym (inserted name ∙ ap (λ b. if b then some r.next else lookup name r.entries) t) ∙ h) in
        ap (fired i) (less-eqb i r.next (k.used i name firing)) ∙ firing
  ];
  used = λ i name h. elim (Bool-cases (eqb r.next i)) [
    | inl e ↦ omega (arith, eqb-true r.next i e)
    | inr e ↦ omega (arith, k.used i name (sym (ap (fired i) e) ∙ h))
  ];
}
  where
    fired : ℕ → Bool → Option String
    fired i b = if b then some key else fires i r.engine

    inserted :
        (name : String)
        → lookup name (insert key r.next r.entries)
          ≡ (if key == name then some r.next else lookup name r.entries)
    inserted name = lookup-insert key name r.next r.entries

add_schedule-IsExact :
    (valid : Schedule → Bool) (key workflow : String) (spec : Schedule) (s : Registry)
    → IsExact s
    → IsExact (add_schedule valid key workflow spec s)
unfolding add_schedule
add_schedule-IsExact valid key workflow spec s k =
    let r : Registry = drop_entry key (lookup key s.entries) s in
    let exact : IsExact r = drop_entry-IsExact key (lookup key s.entries) s refl k in
    elim (Bool-cases (valid spec)) [
      | inl e ↦
          subst (λ b. IsExact (if b then added key workflow spec r else r)) (sym e)
            (added-IsExact key workflow spec r (drop_entry-free key (lookup key s.entries) s refl)
              exact)
      | inr e ↦ subst (λ b. IsExact (if b then added key workflow spec r else r)) (sym e) exact
    ]

operate-IsExact :
    (valid : Schedule → Bool) (o : Operation) (s : Registry)
    → IsExact s
    → IsExact (operate valid o s)
unfolding operate remove_schedule
operate-IsExact valid (add key workflow spec) s k = add_schedule-IsExact valid key workflow spec s k
operate-IsExact valid (remove key) s k = forget_key-IsExact key (lookup key s.entries) s refl k

operate_all-IsExact :
    (valid : Schedule → Bool) (os : List Operation) (s : Registry)
    → IsExact s
    → IsExact (operate_all valid os s)
operate_all-IsExact valid [] s k = k
operate_all-IsExact valid (o ∷ os) s k =
    operate_all-IsExact valid os (operate valid o s) (operate-IsExact valid o s k)

-- Whatever schedules are added, replaced and removed, whether or not the engine accepts them, an
-- entry of the cron engine fires for a key just when it is the one that is registered for it: no key
-- has two live entries, and none is live for a key without a schedule.
pub operate_all-no_schedules :
    (valid : Schedule → Bool) (os : List Operation) → IsExact (operate_all valid os no_schedules)
operate_all-no_schedules valid os = operate_all-IsExact valid os no_schedules (record {
  registered = λ i k h. absurd (ground (arith, h));
  live = λ i k h. absurd (ground (arith, h));
  used = λ i k h. absurd (ground (arith, h));
})
