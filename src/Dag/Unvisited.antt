-- ===== src/Dag/Unvisited.antt =====
-- How many names a search has still to visit: the measure that bounds its depth.
use ottoflow.Prelude.{
  ℕ, suc, ◌≤◌, ◌<◌, String, true, false, some, List, [], ◌∷◌, ◌≡◌, refl, inl, inr, contains, length,
  arith, eq_iff, String-cases, if◌then◌else◌,
}
use ottoflow.Dag.{Node, find, Flags, mark, unset, node_names}

-- The names that are not yet visited.
pub unvisited : Flags → List String → ℕ
unvisited visited [] = 0
unvisited visited (x ∷ xs) = let rest = unvisited visited xs in if visited x then rest else suc rest

abbrev pub Grows : Flags → Flags → Type 0
Grows f g = (x : String) → f x ≡ true → g x ≡ true

pub unvisited_mono : (f g : Flags) (xs : List String) → Grows f g → unvisited g xs ≤ unvisited f xs
unfolding unvisited
unvisited_mono f g [] h = omega arith
unvisited_mono f g (x ∷ xs) h = ground (arith, unvisited_mono f g xs h, h x)

pub mark-Grows : (u : String) (f : Flags) → Grows f (mark u true f)
mark-Grows u f x h = ground (arith, eq_iff u x)

pub unvisited-mark :
    (u : String) (f : Flags) (xs : List String)
    → contains u xs ≡ true
    → f u ≡ false
    → unvisited (mark u true f) xs < unvisited f xs
unfolding unvisited
unvisited-mark u f [] h e = cc
unvisited-mark u f (x ∷ xs) h e =
    let mono = unvisited_mono f (mark u true f) xs (mark-Grows u f) in
    elim (String-cases x u) [
      | inl (p, t) ↦ ground (arith, mono, eq_iff u x, eq_iff x u, p, ap_flag p)
      | inr (p, t) ↦ ground (arith, unvisited-mark u f xs, eq_iff u x, eq_iff x u)
    ]
  where
    ap_flag : x ≡ u → f x ≡ false
    ap_flag p = rw p e

pub find-names :
    (u : String) (ns : List Node) (n : Node)
    → find u ns ≡ some n
    → contains u (node_names ns) ≡ true
unfolding find node_names
find-names u [] n h = cc
find-names u (m ∷ ns) n h = ground (arith, find-names u ns n)

pub unvisited-unset : (us : List String) → unvisited unset us ≡ length us
unfolding unvisited
unvisited-unset [] = refl
unvisited-unset (u ∷ us) = ground (arith, unvisited-unset us)

pub length-names : (ms : List Node) → length (node_names ms) ≡ length ms
unfolding node_names
length-names [] = refl
length-names (m ∷ ms) = ground (arith, length-names ms)
