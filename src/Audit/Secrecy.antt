-- ===== src/Audit/Secrecy.antt =====
-- No sensitive output is in the redacted context, and the rest of it is there
-- (internal/workflow/executor/audit_redaction.go).
use ottoflow.Prelude.{
  ℕ, zero, suc, String, Bool, true, false, Option, none, some, List, [], ◌∷◌, ◌||◌, ◌≡◌, refl, sym,
  ap, ◌∙◌, subst, ◌⊎◌, inl, inr, if◌then◌else◌, contains, Bool-cases, String-cases, or-false, arith,
}
use ottoflow.Api.Json.{
  Json, null, bool, num, str, arr, obj, Items, nil, cons, Fields, end, field, get, field_names,
}
use ottoflow.Audit.Redaction.{
  placeholder, is_output_key, redact_value, redact_fields, redact_items, redact_named_map,
  redact_named_fields, redact_sensitive_context,
}
use ottoflow.Audit.Paths.{
  Segment, key, index, nth, enter, at, enter_some, leads, is_secret, hidden, ends_named,
}

abbrev pub map_some : (Json → Json) → Option Json → Option Json
map_some f none = none
map_some f (some v) = some (f v)

-- What becomes of a value, by whether the key of a map of outputs leads to it.
abbrev pub redact_entry : List String → Bool → Json → Json
redact_entry names true v = redact_named_map names v
redact_entry names false v = redact_value names v

redact_entry_if :
    (names : List String) (b : Bool) (v : Json)
    → (if b then redact_named_map names v else redact_value names v) ≡ redact_entry names b v
redact_entry_if names true v = refl
redact_entry_if names false v = refl

-- What becomes of an entry of a map of outputs, by whether its key is sensitive.
abbrev pub redact_named_entry : List String → Bool → Json → Json
redact_named_entry names b v = if b then str placeholder else redact_value names v

-- Nothing, or the placeholder.
abbrev pub Masked : Option Json → Type 0
Masked o = (o ≡ none) ⊎ (o ≡ some (str placeholder))

module _ (names : List String) where
  nth-redact_items :
      (i : ℕ) (xs : Items)
      → nth i (redact_items names xs) ≡ map_some (redact_value names) (nth i xs)
  unfolding redact_items
  nth-redact_items i nil = refl
  nth-redact_items zero (cons v xs) = refl
  nth-redact_items (suc i) (cons v xs) = nth-redact_items i xs

  get-redact_fields :
      (k : String) (fs : Fields)
      → get k (redact_fields names fs) ≡ map_some (redact_entry names (is_output_key k)) (get k fs)
  unfolding redact_fields
  get-redact_fields k end = refl
  get-redact_fields k (field j v fs) = elim (String-cases j k) [
    | inl (e, t) ↦ rw (t) (
        ap some (redact_entry_if names (is_output_key j) v)
        ∙ ap (λ x. some (redact_entry names (is_output_key x) v)) e)
    | inr (ne, t) ↦ rw (t) (get-redact_fields k fs)
  ]

  get-redact_named_fields :
      (k : String) (fs : Fields)
      → get k (redact_named_fields names fs)
        ≡ map_some (redact_named_entry names (contains k names)) (get k fs)
  unfolding redact_named_fields
  get-redact_named_fields k end = refl
  get-redact_named_fields k (field j v fs) = elim (String-cases j k) [
    | inl (e, t) ↦ rw (t) (ap (λ x. some (redact_named_entry names (contains x names) v)) e)
    | inr (ne, t) ↦ rw (t) (get-redact_named_fields k fs)
  ]

  enter-redact_entry :
      (s : Segment) (named : Bool) (v : Json)
      → is_secret names named s ≡ false
      → enter s (redact_entry names named v)
        ≡ map_some (redact_entry names (leads named s)) (enter s v)
  unfolding redact_value
  enter-redact_entry (key k) true (obj fs) h =
      get-redact_named_fields k fs ∙ ap (λ b. map_some (redact_named_entry names b) (get k fs)) h
  enter-redact_entry (key k) false (obj fs) h = get-redact_fields k fs
  enter-redact_entry (index i) true (arr xs) h = nth-redact_items i xs
  enter-redact_entry (index i) false (arr xs) h = nth-redact_items i xs
  enter-redact_entry (key k) true (arr xs) h = refl
  enter-redact_entry (key k) true null h = refl
  enter-redact_entry (key k) true (bool b) h = refl
  enter-redact_entry (key k) true (num n) h = refl
  enter-redact_entry (key k) true (str s) h = refl
  enter-redact_entry (key k) false (arr xs) h = refl
  enter-redact_entry (key k) false null h = refl
  enter-redact_entry (key k) false (bool b) h = refl
  enter-redact_entry (key k) false (num n) h = refl
  enter-redact_entry (key k) false (str s) h = refl
  enter-redact_entry (index i) true (obj fs) h = refl
  enter-redact_entry (index i) true null h = refl
  enter-redact_entry (index i) true (bool b) h = refl
  enter-redact_entry (index i) true (num n) h = refl
  enter-redact_entry (index i) true (str s) h = refl
  enter-redact_entry (index i) false (obj fs) h = refl
  enter-redact_entry (index i) false null h = refl
  enter-redact_entry (index i) false (bool b) h = refl
  enter-redact_entry (index i) false (num n) h = refl
  enter-redact_entry (index i) false (str s) h = refl

  enter_some-redact_entry :
      (s : Segment) (named : Bool) (o : Option Json)
      → is_secret names named s ≡ false
      → enter_some s (map_some (redact_entry names named) o)
        ≡ map_some (redact_entry names (leads named s)) (enter_some s o)
  enter_some-redact_entry s named none h = refl
  enter_some-redact_entry s named (some v) h = enter-redact_entry s named v h

  at-redact_entry :
      (p : List Segment) (named : Bool) (o : Option Json)
      → hidden names named p ≡ false
      → at p (map_some (redact_entry names named) o)
        ≡ map_some (redact_entry names (ends_named named p)) (at p o)
  at-redact_entry [] named o h = refl
  at-redact_entry (s ∷ p) named o h =
      let (open_key, open_rest) = or-false (is_secret names named s) _ h in
      ap (at p) (enter_some-redact_entry s named o open_key)
      ∙ at-redact_entry p (leads named s) (enter_some s o) open_rest

  at-Masked : (p : List Segment) (o : Option Json) → Masked o → Masked (at p o)
  at-Masked [] o h = h
  at-Masked (s ∷ p) o (inl e) = at-Masked p (enter_some s o) (inl (ap (enter_some s) e))
  at-Masked (key k ∷ p) o (inr e) =
      at-Masked p (enter_some (key k) o) (inl (ap (enter_some (key k)) e))
  at-Masked (index i ∷ p) o (inr e) =
      at-Masked p (enter_some (index i) o) (inl (ap (enter_some (index i)) e))

  redact_named_entry-Masked :
      (k : String) (o : Option Json)
      → contains k names ≡ true
      → Masked (map_some (redact_named_entry names (contains k names)) o)
  redact_named_entry-Masked k none h = inl refl
  redact_named_entry-Masked k (some v) h = inr (ap (λ b. some (redact_named_entry names b v)) h)

  enter-Masked :
      (s : Segment) (named : Bool) (v : Json)
      → is_secret names named s ≡ true
      → Masked (enter s (redact_entry names named v))
  unfolding redact_value
  enter-Masked (key k) true (obj fs) h =
      subst Masked (sym (get-redact_named_fields k fs)) (redact_named_entry-Masked k (get k fs) h)
  enter-Masked (key k) true (arr xs) h = inl refl
  enter-Masked (key k) true null h = inl refl
  enter-Masked (key k) true (bool b) h = inl refl
  enter-Masked (key k) true (num n) h = inl refl
  enter-Masked (key k) true (str s) h = inl refl
  enter-Masked (key k) false v h = ground (arith, h)
  enter-Masked (index i) named v h = ground (arith, h)

  enter_some-Masked :
      (s : Segment) (named : Bool) (o : Option Json)
      → is_secret names named s ≡ true
      → Masked (enter_some s (map_some (redact_entry names named) o))
  enter_some-Masked s named none h = inl refl
  enter_some-Masked s named (some v) h = enter-Masked s named v h

  at-hidden :
      (p : List Segment) (named : Bool) (o : Option Json)
      → hidden names named p ≡ true
      → Masked (at p (map_some (redact_entry names named) o))
  at-hidden [] named o h = ground (arith, h)
  at-hidden (s ∷ p) named o h = elim (Bool-cases (is_secret names named s)) [
    | inl e ↦ at-Masked p _ (enter_some-Masked s named o e)
    | inr e ↦
        subst (λ x. Masked (at p x)) (sym (enter_some-redact_entry s named o e))
          (at-hidden p (leads named s) (enter_some s o)
            (subst (λ b. (b || hidden names (leads named s) p) ≡ true) e h))
  ]

-- Below a sensitive key of a map of outputs, at any depth of the context and through any arrays,
-- the redacted context has nothing but the placeholder. Such a map is the value of a key `outputs`
-- or `variables`, other than of such a key that stands directly in a map of outputs.
pub redact_sensitive_context-hidden :
    (names : List String) (context : Fields) (p : List Segment)
    → hidden names false p ≡ true
    → Masked (at p (some (obj (redact_sensitive_context context names))))
unfolding redact_sensitive_context redact_value
redact_sensitive_context-hidden names context p h = at-hidden names p false (some (obj context)) h

abbrev pub count : Items → ℕ
count nil = 0
count (cons v xs) = suc (count xs)

-- The value that stands for another: the same null, Boolean, number or text, an array of as many
-- entries, or an object with the same keys.
abbrev pub IsKept : Json → Json → Type 0
IsKept null w = w ≡ null
IsKept (bool b) w = w ≡ bool b
IsKept (num n) w = w ≡ num n
IsKept (str s) w = w ≡ str s
IsKept (arr xs) w = (ys : Items) × (w ≡ arr ys) × (count ys ≡ count xs)
IsKept (obj fs) w = (gs : Fields) × (w ≡ obj gs) × (field_names gs ≡ field_names fs)

abbrev pub IsKeptAt : Option Json → Option Json → Type 0
IsKeptAt none o = o ≡ none
IsKeptAt (some v) o = (w : Json) × (o ≡ some w) × IsKept v w

module _ (names : List String) where
  count-redact_items : (xs : Items) → count (redact_items names xs) ≡ count xs
  unfolding redact_items
  count-redact_items nil = refl
  count-redact_items (cons v xs) = ap suc (count-redact_items xs)

  names-redact_fields : (fs : Fields) → field_names (redact_fields names fs) ≡ field_names fs
  unfolding redact_fields
  names-redact_fields end = refl
  names-redact_fields (field k v fs) = ap (λ l. k ∷ l) (names-redact_fields fs)

  names-redact_named_fields :
      (fs : Fields) → field_names (redact_named_fields names fs) ≡ field_names fs
  unfolding redact_named_fields
  names-redact_named_fields end = refl
  names-redact_named_fields (field k v fs) = ap (λ l. k ∷ l) (names-redact_named_fields fs)

  redact_entry-IsKept : (named : Bool) (v : Json) → IsKept v (redact_entry names named v)
  unfolding redact_value
  redact_entry-IsKept true null = refl
  redact_entry-IsKept true (bool b) = refl
  redact_entry-IsKept true (num n) = refl
  redact_entry-IsKept true (str s) = refl
  redact_entry-IsKept true (arr xs) = (redact_items names xs, refl, count-redact_items xs)
  redact_entry-IsKept true (obj fs) =
      (redact_named_fields names fs, refl, names-redact_named_fields fs)
  redact_entry-IsKept false null = refl
  redact_entry-IsKept false (bool b) = refl
  redact_entry-IsKept false (num n) = refl
  redact_entry-IsKept false (str s) = refl
  redact_entry-IsKept false (arr xs) = (redact_items names xs, refl, count-redact_items xs)
  redact_entry-IsKept false (obj fs) = (redact_fields names fs, refl, names-redact_fields fs)

  map_some-IsKeptAt :
      (named : Bool) (o : Option Json) → IsKeptAt o (map_some (redact_entry names named) o)
  map_some-IsKeptAt named none = refl
  map_some-IsKeptAt named (some v) = (redact_entry names named v, refl, redact_entry-IsKept named v)

-- At a path that passes no sensitive key of a map of outputs, the redacted context has nothing
-- where the context has nothing, the same null, Boolean, number or text where it has one, an array
-- with as many entries where it has an array, and an object with the same keys where it has one.
pub redact_sensitive_context-visible :
    (names : List String) (context : Fields) (p : List Segment)
    → hidden names false p ≡ false
    → IsKeptAt
        (at p (some (obj context)))
        (at p (some (obj (redact_sensitive_context context names))))
unfolding redact_sensitive_context redact_value
redact_sensitive_context-visible names context p h =
    subst (IsKeptAt (at p (some (obj context))))
      (sym (at-redact_entry names p false (some (obj context)) h))
      (map_some-IsKeptAt names (ends_named false p) (at p (some (obj context))))
