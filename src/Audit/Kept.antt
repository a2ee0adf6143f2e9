-- ===== src/Audit/Kept.antt =====
-- What the truncation of a context leaves (internal/workflow/executor/checkpoint.go).
use ottoflow.Prelude.{
  ℕ, zero, suc, ◌≤◌, String, Bool, true, false, List, [], ◌∷◌, ◌++◌, ◌≡◌, refl, ap, ◌∙◌, ◌&&◌, inl,
  inr, leb, arith, Bool-cases, and-true,
}
use ottoflow.Api.Json.{Json, null, bool, num, str, arr, obj, Items, nil, cons, Fields, end, field}
use ottoflow.Audit.Truncate.{
  max_array_entries, count, first, child_path, truncate_arrays, truncate_fields, truncate_items,
  truncated_keys, truncated_field_keys, truncated_item_keys,
}

-- Has no array of the document more entries than the limit?
abbrev mutual
  pub within : Json → Bool
  within (obj fs) = within_fields fs
  within (arr xs) = leb (count xs) max_array_entries && within_items xs
  within null = true
  within (bool b) = true
  within (num n) = true
  within (str s) = true

  pub within_fields : Fields → Bool
  within_fields end = true
  within_fields (field k v fs) = within v && within_fields fs

  pub within_items : Items → Bool
  within_items nil = true
  within_items (cons v xs) = within v && within_items xs

first-within : (n : ℕ) (xs : Items) → within_items xs ≡ true → within_items (first n xs) ≡ true
first-within zero xs h = refl
first-within (suc n) nil h = refl
first-within (suc n) (cons v xs) h =
    let (h_v, h_xs) = and-true (within v) (within_items xs) h in rw (h_v) (first-within n xs h_xs)

count-first : (n : ℕ) (xs : Items) → count (first n xs) ≤ n
count-first zero xs = omega arith
count-first (suc n) nil = omega arith
count-first (suc n) (cons v xs) = omega (arith, count-first n xs)

count-truncate_items :
    (decimal : ℕ → String) (xs : Items) → count (truncate_items decimal xs) ≡ count xs
unfolding truncate_items
count-truncate_items decimal nil = refl
count-truncate_items decimal (cons v xs) = ap suc (count-truncate_items decimal xs)

within-and : (a b : Bool) → a ≡ true → b ≡ true → (a && b) ≡ true
within-and a b h k = ground arith

leb-true : (a b : ℕ) → a ≤ b → leb a b ≡ true
leb-true a b h = ground arith

mutual
  unfolding truncate_arrays

  within-truncated : (decimal : ℕ → String) (v : Json) → within (truncate_arrays decimal v) ≡ true
  within-truncated decimal (obj fs) = within-truncated_fields decimal fs
  within-truncated decimal (arr xs) = elim (Bool-cases (leb (count xs) max_array_entries)) [
    | inl h ↦ rw (h) (
        within-and _ _ (ap (λ n. leb n max_array_entries) (count-truncate_items decimal xs) ∙ h)
          (within-truncated_items decimal xs))
    | inr h ↦ rw (h) (
        within-and
          (leb (count (first max_array_entries (truncate_items decimal xs))) max_array_entries
            && within_items (first max_array_entries (truncate_items decimal xs)))
          true
          (within-and _ _ (leb-true _ _ (count-first max_array_entries (truncate_items decimal xs)))
            (first-within max_array_entries (truncate_items decimal xs)
              (within-truncated_items decimal xs)))
          refl)
  ]
  within-truncated decimal null = refl
  within-truncated decimal (bool b) = refl
  within-truncated decimal (num n) = refl
  within-truncated decimal (str s) = refl

  within-truncated_fields :
      (decimal : ℕ → String) (fs : Fields) → within_fields (truncate_fields decimal fs) ≡ true
  within-truncated_fields decimal end = refl
  within-truncated_fields decimal (field k v fs) =
      within-and _ _ (within-truncated decimal v) (within-truncated_fields decimal fs)

  within-truncated_items :
      (decimal : ℕ → String) (xs : Items) → within_items (truncate_items decimal xs) ≡ true
  within-truncated_items decimal nil = refl
  within-truncated_items decimal (cons v xs) =
      within-and _ _ (within-truncated decimal v) (within-truncated_items decimal xs)

mutual
  unfolding truncate_arrays

  truncate_arrays-same :
      (decimal : ℕ → String) (v : Json) → within v ≡ true → truncate_arrays decimal v ≡ v
  truncate_arrays-same decimal (obj fs) h = ap obj (truncate_fields-same decimal fs h)
  truncate_arrays-same decimal (arr xs) h =
      let (h_n, h_xs) = and-true (leb (count xs) max_array_entries) (within_items xs) h in
      rw (h_n) (ap arr (truncate_items-same decimal xs h_xs))
  truncate_arrays-same decimal null h = refl
  truncate_arrays-same decimal (bool b) h = refl
  truncate_arrays-same decimal (num n) h = refl
  truncate_arrays-same decimal (str s) h = refl

  truncate_fields-same :
      (decimal : ℕ → String) (fs : Fields)
      → within_fields fs ≡ true
      → truncate_fields decimal fs ≡ fs
  truncate_fields-same decimal end h = refl
  truncate_fields-same decimal (field k v fs) h =
      let (h_v, h_fs) = and-true (within v) (within_fields fs) h in
      rw (truncate_arrays-same decimal v h_v, truncate_fields-same decimal fs h_fs) refl

  truncate_items-same :
      (decimal : ℕ → String) (xs : Items) → within_items xs ≡ true → truncate_items decimal xs ≡ xs
  truncate_items-same decimal nil h = refl
  truncate_items-same decimal (cons v xs) h =
      let (h_v, h_xs) = and-true (within v) (within_items xs) h in
      rw (truncate_arrays-same decimal v h_v, truncate_items-same decimal xs h_xs) refl

abbrev pub is_empty : List String → Bool
is_empty [] = true
is_empty (x ∷ xs) = false

is_empty-append : (xs ys : List String) → is_empty (xs ++ ys) ≡ (is_empty xs && is_empty ys)
is_empty-append [] ys = refl
is_empty-append (x ∷ xs) ys = refl

mutual
  unfolding truncated_keys

  is_empty-keys : (path : String) (v : Json) → is_empty (truncated_keys path v) ≡ within v
  is_empty-keys path (obj fs) = is_empty-field_keys path fs
  is_empty-keys path (arr xs) = elim (Bool-cases (leb (count xs) max_array_entries)) [
    | inl h ↦ rw (h) (is_empty-item_keys path max_array_entries xs h)
    | inr h ↦ rw (h) refl
  ]
  is_empty-keys path null = refl
  is_empty-keys path (bool b) = refl
  is_empty-keys path (num n) = refl
  is_empty-keys path (str s) = refl

  is_empty-field_keys :
      (path : String) (fs : Fields) → is_empty (truncated_field_keys path fs) ≡ within_fields fs
  is_empty-field_keys path end = refl
  is_empty-field_keys path (field k v fs) =
      is_empty-append (truncated_keys (child_path path k) v) (truncated_field_keys path fs)
      ∙ rw (is_empty-keys (child_path path k) v, is_empty-field_keys path fs) refl

  is_empty-item_keys :
      (path : String) (n : ℕ) (xs : Items)
      → leb (count xs) n ≡ true
      → is_empty (truncated_item_keys path n xs) ≡ within_items xs
  is_empty-item_keys path n nil h = refl
  is_empty-item_keys path zero (cons v xs) h = ground (arith, h)
  is_empty-item_keys path (suc n) (cons v xs) h =
      is_empty-append (truncated_keys path v) (truncated_item_keys path n xs)
      ∙ rw (is_empty-keys path v, is_empty-item_keys path n xs (ground (arith, h))) refl

-- No array of the truncated view of a document has more than 50 entries, at any depth.
pub truncate_arrays-within :
    (decimal : ℕ → String) (v : Json) → within (truncate_arrays decimal v) ≡ true
truncate_arrays-within decimal v = within-truncated decimal v

-- A document whose arrays all have at most 50 entries is its own truncated view and no key of it is
-- recorded as truncated; and of any other document a key is recorded.
pub truncate_arrays-recorded :
    (decimal : ℕ → String) (path : String) (v : Json)
    → (within v ≡ true → truncate_arrays decimal v ≡ v)
      × (is_empty (truncated_keys path v) ≡ within v)
truncate_arrays-recorded decimal path v = (truncate_arrays-same decimal v, is_empty-keys path v)
