-- ===== src/Prelude/Assoc.antt =====
-- A Go map with text keys, as an association list.
use Prim.Native.String.{String}
use mathlib.Core.Path.{◌≡◌, refl}
use mathlib.Core.Option.{Option, none, some}
use mathlib.Core.List.{List, [], ◌∷◌}
use native.Mathlib.Omega.{arith}
use text.Mathlib.Text.{◌==◌}
use text.Mathlib.TextEquality.{eq_iff}
use ottoflow.Prelude.Tests.{if◌then◌else◌}

module _ {ℓ} {V : Type ℓ} where
  -- `v, ok := entries[name]`
  abbrev pub lookup : String → List (String × V) → Option V
  lookup name [] = none
  lookup name (entry ∷ entries) = if entry.0 == name then some entry.1 else lookup name entries

  abbrev pub keys : List (String × V) → List String
  keys [] = []
  keys (entry ∷ entries) = entry.0 ∷ keys entries

  -- `delete(entries, name)`
  abbrev pub erase : String → List (String × V) → List (String × V)
  erase name [] = []
  erase name (entry ∷ entries) =
      if entry.0 == name then erase name entries else entry ∷ erase name entries

  -- `entries[name] = value`
  abbrev pub insert : String → V → List (String × V) → List (String × V)
  insert name value [] = (name, value) ∷ []
  insert name value (entry ∷ entries) =
      if entry.0 == name then (name, value) ∷ entries else entry ∷ insert name value entries

  pub lookup-erase :
      (name other : String) (entries : List (String × V))
      → lookup other (erase name entries) ≡ (if name == other then none else lookup other entries)
  lookup-erase name other [] = ground arith
  lookup-erase name other (entry ∷ entries) = ground (
    arith,
    lookup-erase name other entries,
    eq_iff name other,
    eq_iff entry.0 name,
    eq_iff entry.0 other,
  )

  pub lookup-insert :
      (name other : String) (value : V) (entries : List (String × V))
      → lookup other (insert name value entries)
        ≡ (if name == other then some value else lookup other entries)
  lookup-insert name other value [] = refl
  lookup-insert name other value (entry ∷ entries) = ground (
    arith,
    lookup-insert name other value entries,
    eq_iff name other,
    eq_iff entry.0 name,
    eq_iff entry.0 other,
  )
