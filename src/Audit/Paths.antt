-- ===== src/Audit/Paths.antt =====
-- Where a document has a value, and where redactSensitiveContext hides it: a description by paths,
-- independent of the recursion (internal/workflow/executor/audit_redaction.go).
use ottoflow.Prelude.{
  ℕ, zero, suc, String, Bool, false, not, Option, none, some, List, [], ◌∷◌, ◌&&◌, ◌||◌, contains,
}
use ottoflow.Api.Json.{Json, arr, obj, Items, nil, cons, get}
use ottoflow.Audit.Redaction.{is_output_key}

pub data Segment : Type 0 where
  key : String → Segment
  index : ℕ → Segment

abbrev pub nth : ℕ → Items → Option Json
nth i nil = none
nth zero (cons v xs) = some v
nth (suc i) (cons v xs) = nth i xs

abbrev pub enter : Segment → Json → Option Json
enter (key k) (obj fs) = get k fs
enter (index i) (arr xs) = nth i xs
enter _ _ = none

abbrev pub enter_some : Segment → Option Json → Option Json
enter_some s none = none
enter_some s (some v) = enter s v

-- The value at a path.
abbrev pub at : List Segment → Option Json → Option Json
at [] o = o
at (s ∷ p) o = at p (enter_some s o)

-- A key leads to a map of outputs, except within such a map.
abbrev pub leads : Bool → Segment → Bool
leads named (key k) = not named && is_output_key k
leads named (index i) = false

abbrev pub is_secret : List String → Bool → Segment → Bool
is_secret names named (key k) = named && contains k names
is_secret names named (index i) = false

-- Does the path pass a sensitive key of a map of outputs?
abbrev pub hidden : List String → Bool → List Segment → Bool
hidden names named [] = false
hidden names named (s ∷ p) = is_secret names named s || hidden names (leads named s) p

-- Does the path end at a map of outputs?
abbrev pub ends_named : Bool → List Segment → Bool
ends_named named [] = named
ends_named named (s ∷ p) = ends_named (leads named s) p
