-- ===== src/Prelude/Lists.antt =====
-- Lists measured by native numbers, and membership of texts as a test.
use Prim.Native.Nat.{ℕ, zero, suc, ◌+◌, ◌-◌, ◌≤◌}
use Prim.Native.String.{String}
use mathlib.Core.Path.{◌≡◌, refl, ap}
use mathlib.Core.Bool.{Bool, true, false, ◌&&◌, ◌||◌}
use mathlib.Core.List.{List, [], ◌∷◌, ◌++◌}
use native.Mathlib.Omega.{arith}
use text.Mathlib.Text.{◌==◌}
use text.Mathlib.TextEquality.{eq_iff}
use ottoflow.Prelude.Tests.{if◌then◌else◌}

module _ {ℓ} {A : Type ℓ} where
  abbrev pub length : List A → ℕ
  length [] = 0
  length (x ∷ xs) = suc (length xs)

  abbrev pub take : ℕ → List A → List A
  take zero xs = []
  take (suc n) [] = []
  take (suc n) (x ∷ xs) = x ∷ take n xs

  abbrev pub drop : ℕ → List A → List A
  drop zero xs = xs
  drop (suc n) [] = []
  drop (suc n) (x ∷ xs) = drop n xs

  abbrev pub filter : (A → Bool) → List A → List A
  filter p [] = []
  filter p (x ∷ xs) = if p x then x ∷ filter p xs else filter p xs

  abbrev pub any : (A → Bool) → List A → Bool
  any p [] = false
  any p (x ∷ xs) = p x || any p xs

  abbrev pub all : (A → Bool) → List A → Bool
  all p [] = true
  all p (x ∷ xs) = p x && all p xs

  pub length-append : (xs ys : List A) → length (xs ++ ys) ≡ length xs + length ys
  length-append [] ys = omega arith
  length-append (x ∷ xs) ys = omega (arith, length-append xs ys)

  pub length-take-le : (n : ℕ) (xs : List A) → length (take n xs) ≤ n
  length-take-le zero xs = omega arith
  length-take-le (suc n) [] = omega arith
  length-take-le (suc n) (x ∷ xs) = omega (arith, length-take-le n xs)

  pub length-drop : (n : ℕ) (xs : List A) → length (drop n xs) ≡ length xs - n
  length-drop zero xs = omega arith
  length-drop (suc n) [] = omega arith
  length-drop (suc n) (x ∷ xs) = omega (arith, length-drop n xs)

-- Is the text in the list?
abbrev pub contains : String → List String → Bool
contains a [] = false
contains a (x ∷ xs) = x == a || contains a xs

pub contains-append :
    (a : String) (xs ys : List String) → contains a (xs ++ ys) ≡ (contains a xs || contains a ys)
contains-append a [] ys = refl
contains-append a (x ∷ xs) ys = ground (arith, contains-append a xs ys)

pub contains_self : (a : String) (xs : List String) → contains a (a ∷ xs) ≡ true
contains_self a xs = ground (arith, eq_iff a a)

-- A list that contains a text is not empty, and conversely a first element is contained.
pub contains-take :
    (a : String) (n : ℕ) (xs : List String) → contains a (take n xs) ≡ true → contains a xs ≡ true
contains-take a zero [] h = h
contains-take a zero (x ∷ xs) h = ground arith
contains-take a (suc n) [] h = h
contains-take a (suc n) (x ∷ xs) h = ground (arith, contains-take a n xs)

pub contains-drop :
    (a : String) (n : ℕ) (xs : List String) → contains a (drop n xs) ≡ true → contains a xs ≡ true
contains-drop a zero xs h = h
contains-drop a (suc n) [] h = h
contains-drop a (suc n) (x ∷ xs) h = ground (arith, contains-drop a n xs)

pub contains-filter :
    (a : String) (p : String → Bool) (xs : List String)
    → contains a (filter p xs) ≡ (contains a xs && p a)
contains-filter a p [] = refl
contains-filter a p (x ∷ xs) =
    ground (arith, contains-filter a p xs, eq_iff x a, ap p {x = x} {y = a})
