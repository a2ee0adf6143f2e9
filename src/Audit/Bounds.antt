-- ===== src/Audit/Bounds.antt =====
-- What SaveAuditSnapshot stores, and when it fails (internal/workflow/executor/checkpoint.go).
use ottoflow.Prelude.{
  ◌≤◌, ◌<◌, String, Option, none, some, List, [], ◌∷◌, ◌≡◌, refl, sym, subst, ◌⊎◌, inl, inr,
  if◌then◌else◌, leb, arith, Bool-cases, lookup, lookup-insert,
}
use ottoflow.Checkpoint.{Snapshot}
use ottoflow.Audit.Size.{
  size_threshold, Encoding, truncate_audit_snapshot, minimal_audit_snapshot, Chosen, marshal_error,
  too_large, text, fitting, choose, OwnerReference, ConfigMap, created, updated, Read, not_found,
  unreadable, existing, Write, written, already_exists, conflict, refused, Attempt, Outcome,
  not_marshalled, above_threshold, not_stored, stored, after_create, after_update, store_once,
  store, store_chosen, save_audit_snapshot,
}

-- The snapshots that SaveAuditSnapshot tries.
abbrev pub IsView : Encoding → Snapshot → Snapshot → Type 0
IsView enc s v = (v ≡ s) ⊎ (v ≡ truncate_audit_snapshot enc s) ⊎ (v ≡ minimal_audit_snapshot s)

-- A text within the threshold that writes one of them.
abbrev pub Fits : Encoding → Snapshot → String → Type 0
Fits enc s raw =
    (enc.byte_count raw ≤ size_threshold)
    × ((v : Snapshot) × IsView enc s v × (enc.marshal v ≡ some raw))

abbrev pub IsChosen : Encoding → Snapshot → Chosen → Type 0
IsChosen enc s marshal_error = (v : Snapshot) × IsView enc s v × (enc.marshal v ≡ none)
IsChosen enc s too_large =
    (raw : String) × (enc.marshal (minimal_audit_snapshot s) ≡ some raw)
    × (size_threshold < enc.byte_count raw)
IsChosen enc s (text raw) = Fits enc s raw

abbrev pub Holds : List OwnerReference → String → ConfigMap → Type 0
Holds owners raw cm = (lookup "snapshot" cm.entries ≡ some raw) × (cm.owners ≡ owners)

-- What a read and a write of an attempt come to: nothing read makes it a creation, and an object
-- that was read an update.
abbrev pub Grants : Read → Write → Type 0
Grants not_found w = w ≡ written
Grants unreadable w = ⊥
Grants (existing cm) w = w ≡ written

-- The answers with which the policy calls the closure again.
abbrev pub Retries : Read → Write → Type 0
Retries not_found w = (w ≡ already_exists) ⊎ (w ≡ conflict)
Retries unreadable w = ⊥
Retries (existing cm) w = w ≡ conflict

-- The answers that end the calls without a write.
abbrev pub Refuses : Read → Write → Type 0
Refuses not_found w = w ≡ refused
Refuses unreadable w = Unit {0}
Refuses (existing cm) w = (w ≡ already_exists) ⊎ (w ≡ refused)

-- Some attempt is granted, and those before it are retried.
abbrev pub IsGranted : List Attempt → Type 0
IsGranted [] = ⊥
IsGranted (a ∷ rest) = Grants a.read a.write ⊎ (Retries a.read a.write × IsGranted rest)

-- Attempts are retried until none is left, or one is refused.
abbrev pub IsGivenUp : List Attempt → Type 0
IsGivenUp [] = Unit {0}
IsGivenUp (a ∷ rest) = Refuses a.read a.write ⊎ (Retries a.read a.write × IsGivenUp rest)

abbrev pub IsStored : Encoding → List OwnerReference → Snapshot → List Attempt → Outcome → Type 0
IsStored enc owners s attempts not_marshalled =
    (v : Snapshot) × IsView enc s v × (enc.marshal v ≡ none)
IsStored enc owners s attempts above_threshold =
    (raw : String) × (enc.marshal (minimal_audit_snapshot s) ≡ some raw)
    × (size_threshold < enc.byte_count raw)
IsStored enc owners s attempts not_stored = ((raw : String) × Fits enc s raw) × IsGivenUp attempts
IsStored enc owners s attempts (stored cm) =
    ((raw : String) × Fits enc s raw × Holds owners raw cm) × IsGranted attempts

fitting-IsChosen :
    (enc : Encoding) (s v : Snapshot) (o : Option String) (otherwise : Chosen)
    → IsView enc s v
    → enc.marshal v ≡ o
    → ((raw : String)
        → o ≡ some raw
        → size_threshold < enc.byte_count raw
        → IsChosen enc s otherwise)
    → IsChosen enc s (fitting enc o otherwise)
unfolding fitting
fitting-IsChosen enc s v none otherwise is_view e k = (v, is_view, e)
fitting-IsChosen enc s v (some raw) otherwise is_view e k =
    elim (Bool-cases (leb (enc.byte_count raw) size_threshold)) [
      | inl h ↦
          subst (λ b. IsChosen enc s (if b then text raw else otherwise)) (sym h)
            (ground (arith, h), (v, is_view, e))
      | inr h ↦
          subst (λ b. IsChosen enc s (if b then text raw else otherwise)) (sym h)
            (k raw refl (ground (arith, h)))
    ]

choose-IsChosen : (enc : Encoding) (s : Snapshot) → IsChosen enc s (choose enc s)
unfolding choose
choose-IsChosen enc s = fitting-IsChosen enc s s (enc.marshal s) _ (inl refl) refl (λ _ _ _.
    fitting-IsChosen enc s (truncate_audit_snapshot enc s)
      (enc.marshal (truncate_audit_snapshot enc s)) _ (inr (inl refl)) refl
      (λ _ _ _.
        fitting-IsChosen enc s (minimal_audit_snapshot s) (enc.marshal (minimal_audit_snapshot s))
          too_large (inr (inr refl)) refl (λ raw e h. (raw, e, h))))

created-Holds :
    (owners : List OwnerReference) (raw : String) → Holds owners raw (created owners raw)
unfolding created
created-Holds owners raw = (refl, refl)

updated-Holds :
    (owners : List OwnerReference) (raw : String) (cm : ConfigMap)
    → Holds owners raw (updated owners raw cm)
unfolding updated
updated-Holds owners raw cm = (lookup-insert "snapshot" "snapshot" raw cm.entries, refl)

-- What the calls of the closure leave, by the answers that they get.
abbrev pub Ended : List OwnerReference → String → List Attempt → Outcome → Type 0
Ended owners raw attempts not_marshalled = ⊥
Ended owners raw attempts above_threshold = ⊥
Ended owners raw attempts not_stored = IsGivenUp attempts
Ended owners raw attempts (stored cm) = Holds owners raw cm × IsGranted attempts

Ended-retried :
    (owners : List OwnerReference) (raw : String) (a : Attempt) (rest : List Attempt) (o : Outcome)
    → Retries a.read a.write
    → Ended owners raw rest o
    → Ended owners raw (a ∷ rest) o
Ended-retried owners raw a rest not_marshalled t k = k
Ended-retried owners raw a rest above_threshold t k = k
Ended-retried owners raw a rest not_stored t k = inr (t, k)
Ended-retried owners raw a rest (stored cm) t k = (k.0, inr (t, k.1))

module _ (owners : List OwnerReference) (raw : String) (rest : List Attempt) (o : Outcome)
    (k : Ended owners raw rest o) where
  after_create-Ended :
      (w : Write)
      → Ended owners raw
          (record { read = not_found; write = w } ∷ rest)
          (after_create (created owners raw) w o)
  unfolding after_create
  after_create-Ended written = (created-Holds owners raw, inl refl)
  after_create-Ended already_exists =
      Ended-retried owners raw (record { read = not_found; write = already_exists }) rest o
        (inl refl) k
  after_create-Ended conflict =
      Ended-retried owners raw (record { read = not_found; write = conflict }) rest o (inr refl) k
  after_create-Ended refused = inl refl

  after_update-Ended :
      (cm : ConfigMap) (w : Write)
      → Ended owners raw
          (record { read = existing cm; write = w } ∷ rest)
          (after_update (updated owners raw cm) w o)
  unfolding after_update
  after_update-Ended cm written = (updated-Holds owners raw cm, inl refl)
  after_update-Ended cm conflict =
      Ended-retried owners raw (record { read = existing cm; write = conflict }) rest o refl k
  after_update-Ended cm already_exists = inl (inl refl)
  after_update-Ended cm refused = inl (inr refl)

  store_once-Ended :
      (r : Read) (w : Write)
      → Ended owners raw (record { read = r; write = w } ∷ rest) (store_once owners raw r w o)
  unfolding store_once
  store_once-Ended not_found w = after_create-Ended w
  store_once-Ended unreadable w = inl tt
  store_once-Ended (existing cm) w = after_update-Ended cm w

store-Ended :
    (owners : List OwnerReference) (raw : String) (attempts : List Attempt)
    → Ended owners raw attempts (store owners raw attempts)
unfolding store
store-Ended owners raw [] = tt
store-Ended owners raw (a ∷ rest) =
    store_once-Ended owners raw rest (store owners raw rest) (store-Ended owners raw rest) a.read
      a.write

Ended-IsStored :
    (enc : Encoding) (owners : List OwnerReference) (s : Snapshot) (raw : String)
    (attempts : List Attempt) (o : Outcome)
    → Fits enc s raw
    → Ended owners raw attempts o
    → IsStored enc owners s attempts o
Ended-IsStored enc owners s raw attempts not_marshalled fits k = absurd k
Ended-IsStored enc owners s raw attempts above_threshold fits k = absurd k
Ended-IsStored enc owners s raw attempts not_stored fits k = ((raw, fits), k)
Ended-IsStored enc owners s raw attempts (stored cm) fits k = ((raw, fits, k.0), k.1)

store_chosen-IsStored :
    (enc : Encoding) (owners : List OwnerReference) (s : Snapshot) (c : Chosen)
    (attempts : List Attempt)
    → IsChosen enc s c
    → IsStored enc owners s attempts (store_chosen owners c attempts)
store_chosen-IsStored enc owners s marshal_error attempts h = h
store_chosen-IsStored enc owners s too_large attempts h = h
store_chosen-IsStored enc owners s (text raw) attempts h =
    Ended-IsStored enc owners s raw attempts (store owners raw attempts) h
      (store-Ended owners raw attempts)

-- SaveAuditSnapshot stores a ConfigMap, and then the API server granted a write, after conflicts
-- at most, and the ConfigMap has under its key a text of at most 900 KiB that encodes the snapshot,
-- its truncated view or its minimal one, and the run is its only owner, also where it replaces an
-- older ConfigMap of that name; or it stores nothing, where an encoding fails, or where the minimal
-- view is larger than that, or where there is a text that fits but the API server refuses a read or
-- a write after conflicts at most, or every attempt ends in a conflict.
pub save_audit_snapshot-IsStored :
    (enc : Encoding) (owners : List OwnerReference) (s : Snapshot) (attempts : List Attempt)
    → IsStored enc owners s attempts (save_audit_snapshot enc owners s attempts)
unfolding save_audit_snapshot
save_audit_snapshot-IsStored enc owners s attempts =
    store_chosen-IsStored enc owners s (choose enc s) attempts (choose-IsChosen enc s)
