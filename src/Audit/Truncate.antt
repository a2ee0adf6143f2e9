-- ===== src/Audit/Truncate.antt =====
-- The view of a context with its arrays cut short (internal/workflow/executor/checkpoint.go:
-- truncateArraysRecursive). What the recursion appends to the keys is a function of its own.
use ottoflow.Prelude.{ℕ, zero, suc, String, true, List, [], ◌∷◌, ◌++◌, ◌==◌, if◌then◌else◌, leb}
use Prim.Native.String.{◌++◌ as append}
use ottoflow.Api.Json.{Json, null, bool, num, str, arr, obj, Items, nil, cons, Fields, end, field}

abbrev pub max_array_entries : ℕ
max_array_entries = 50

abbrev pub count : Items → ℕ
count nil = 0
count (cons v xs) = suc (count xs)

abbrev pub first : ℕ → Items → Items
first zero xs = nil
first (suc n) nil = nil
first (suc n) (cons v xs) = cons v (first n xs)

abbrev pub child_path : String → String → String
child_path path k = if path == "" then k else append path (append "." k)

-- The map in place of a long array, by its length as encoding/json writes it.
abbrev pub cut_array : String → Items → Fields
cut_array original_count kept = field "truncated" (bool true) (
    field "originalCount" (num original_count)
      (field "keptCount" (num "50") (field "items" (arr kept) end)))

unfoldable mutual
  -- truncateArraysRecursive: the value
  pub truncate_arrays : (ℕ → String) → Json → Json
  truncate_arrays decimal (obj fs) = obj (truncate_fields decimal fs)
  truncate_arrays decimal (arr xs) =
      let kept : Items = truncate_items decimal xs in
      if leb (count xs) max_array_entries
      then arr kept
      else obj (cut_array (decimal (count xs)) (first max_array_entries kept))
  truncate_arrays decimal null = null
  truncate_arrays decimal (bool b) = bool b
  truncate_arrays decimal (num n) = num n
  truncate_arrays decimal (str s) = str s

  pub truncate_fields : (ℕ → String) → Fields → Fields
  truncate_fields decimal end = end
  truncate_fields decimal (field k v fs) =
      field k (truncate_arrays decimal v) (truncate_fields decimal fs)

  pub truncate_items : (ℕ → String) → Items → Items
  truncate_items decimal nil = nil
  truncate_items decimal (cons v xs) = cons (truncate_arrays decimal v) (truncate_items decimal xs)

unfoldable mutual
  -- truncateArraysRecursive: the keys
  pub truncated_keys : String → Json → List String
  truncated_keys path (obj fs) = truncated_field_keys path fs
  truncated_keys path (arr xs) =
      if leb (count xs) max_array_entries
      then truncated_item_keys path max_array_entries xs
      else path ∷ truncated_item_keys path max_array_entries xs
  truncated_keys path null = []
  truncated_keys path (bool b) = []
  truncated_keys path (num n) = []
  truncated_keys path (str s) = []

  pub truncated_field_keys : String → Fields → List String
  truncated_field_keys path end = []
  truncated_field_keys path (field k v fs) =
      truncated_keys (child_path path k) v ++ truncated_field_keys path fs

  -- The keys of the first elements
  pub truncated_item_keys : String → ℕ → Items → List String
  truncated_item_keys path n nil = []
  truncated_item_keys path zero (cons v xs) = []
  truncated_item_keys path (suc n) (cons v xs) =
      truncated_keys path v ++ truncated_item_keys path n xs
