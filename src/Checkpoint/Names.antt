-- ===== src/Checkpoint/Names.antt =====
-- The names of the ConfigMaps of a run (internal/workflow/executor/checkpoint.go). A text is the
-- list of its codes; names of runs are ASCII. The hash, with its format, is an argument.
use ottoflow.Prelude.{
  ℕ, suc, ◌+◌, ◌-◌, ◌≤◌, List, [], ◌∷◌, ◌++◌, ◌≡◌, ◌≢◌, refl, sym, ap, ◌∙◌, ◌&&◌, if◌then◌else◌,
  leb, eqb, length, take, arith, length-append, length-take-le, Bool-cases, inl, inr,
}

-- strings.ToLower on a code
unfoldable pub lower : ℕ → ℕ
lower c = if leb b'A' c && leb c b'Z' then c + 32 else c

-- strings.ReplaceAll(…, "_", "-") on a code
abbrev pub dashed : ℕ → ℕ
dashed c = if eqb c b'_' then b'-' else c

abbrev pub map_codes : (ℕ → ℕ) → List ℕ → List ℕ
map_codes f [] = []
map_codes f (c ∷ cs) = f c ∷ map_codes f cs

-- strings.TrimSuffix(…, "-")
abbrev pub trim_dash : List ℕ → List ℕ
trim_dash [] = []
trim_dash (c ∷ []) = if eqb c b'-' then [] else c ∷ []
trim_dash (c ∷ d ∷ cs) = c ∷ trim_dash (d ∷ cs)

-- "ottoflow-cp-"
abbrev pub checkpoint_prefix : List ℕ
checkpoint_prefix =
    b'o' ∷ b't' ∷ b't' ∷ b'o' ∷ b'f' ∷ b'l' ∷ b'o' ∷ b'w' ∷ b'-' ∷ b'c' ∷ b'p' ∷ b'-' ∷ []

-- "ottoflow-audit-"
abbrev pub audit_prefix : List ℕ
audit_prefix =
    b'o' ∷ b't' ∷ b't' ∷ b'o' ∷ b'f' ∷ b'l' ∷ b'o' ∷ b'w' ∷ b'-' ∷ b'a' ∷ b'u' ∷ b'd' ∷ b'i' ∷ b't'
    ∷ b'-' ∷ []

abbrev pub full_name : List ℕ → List ℕ → List ℕ
full_name prefix name = map_codes dashed (prefix ++ map_codes lower name)

-- The name that is cut, by the length of the suffix.
abbrev pub cut : ℕ → List ℕ → List ℕ
cut n base = trim_dash (take (63 - n - 1) base)

-- truncatedConfigMapName, by the text of the hash
unfoldable pub truncated_config_map_name : (List ℕ → List ℕ) → List ℕ → List ℕ → List ℕ
truncated_config_map_name hash prefix name =
    if leb (length (full_name prefix name)) 63
    then trim_dash (full_name prefix name)
    else cut (length (hash name)) (full_name prefix name) ++ b'-' ∷ hash name

unfoldable pub checkpoint_config_map_name : (List ℕ → List ℕ) → List ℕ → List ℕ
checkpoint_config_map_name hash name = truncated_config_map_name hash checkpoint_prefix name

unfoldable pub audit_config_map_name : (List ℕ → List ℕ) → List ℕ → List ℕ
audit_config_map_name hash name = truncated_config_map_name hash audit_prefix name

length-trim_dash : (cs : List ℕ) → length (trim_dash cs) ≤ length cs
length-trim_dash [] = omega arith
length-trim_dash (c ∷ []) = ground arith
length-trim_dash (c ∷ d ∷ cs) = omega (arith, length-trim_dash (d ∷ cs))

-- `%x` of 64 bits
abbrev pub IsShort : (List ℕ → List ℕ) → Type 0
IsShort hash = (name : List ℕ) → length (hash name) ≤ 16

abbrev eleven_more : ℕ → ℕ
eleven_more n = suc (suc (suc (suc (suc (suc (suc (suc (suc (suc (suc n))))))))))

module _ (hash : List ℕ → List ℕ) (short : IsShort hash) where
  -- The name of a ConfigMap has at most 63 characters, as a label or a DNS name has to, whatever
  -- the name of the run, where the hash has at most 16 digits.
  pub length-truncated_config_map_name :
      (prefix name : List ℕ) → length (truncated_config_map_name hash prefix name) ≤ 63
  unfolding truncated_config_map_name
  length-truncated_config_map_name prefix name =
      elim (Bool-cases (leb (length (full_name prefix name)) 63)) [
        | inl h ↦ rw (h) (ground (arith, h, length-trim_dash (full_name prefix name)))
        | inr h ↦ rw (h) (
            omega (
              arith,
              short name,
              length-append (cut (length (hash name)) (full_name prefix name)) (b'-' ∷ hash name),
              length-trim_dash (take (63 - length (hash name) - 1) (full_name prefix name)),
              length-take-le (63 - length (hash name) - 1) (full_name prefix name),
            ))
      ]

  -- At least eleven codes of the full name are left.
  kept_codes : (name : List ℕ) → 63 - length (hash name) - 1 ≡ eleven_more (51 - length (hash name))
  kept_codes name = omega (arith, short name)

  checkpoint-start :
      (name : List ℕ) → take 10 (checkpoint_config_map_name hash name) ≡ take 10 checkpoint_prefix
  unfolding checkpoint_config_map_name truncated_config_map_name
  checkpoint-start name = elim (Bool-cases (leb (length (full_name checkpoint_prefix name)) 63)) [
    | inl h ↦ rw (h) refl
    | inr h ↦ rw (h) (
        ap
          (λ n. take 10 (trim_dash (take n (full_name checkpoint_prefix name)) ++ b'-' ∷ hash name))
          (kept_codes name))
  ]

  audit-start : (name : List ℕ) → take 10 (audit_config_map_name hash name) ≡ take 10 audit_prefix
  unfolding audit_config_map_name truncated_config_map_name
  audit-start name = elim (Bool-cases (leb (length (full_name audit_prefix name)) 63)) [
    | inl h ↦ rw (h) refl
    | inr h ↦ rw (h) (
        ap (λ n. take 10 (trim_dash (take n (full_name audit_prefix name)) ++ b'-' ∷ hash name))
          (kept_codes name))
  ]

  -- No checkpoint and audit snapshot share a ConfigMap, whatever the runs, where the hash has at
  -- most 16 digits: what deletes the checkpoint of a run leaves every audit snapshot.
  pub checkpoint_config_map_name-audit_config_map_name :
      (name other : List ℕ)
      → checkpoint_config_map_name hash name ≢ audit_config_map_name hash other
  checkpoint_config_map_name-audit_config_map_name name other same =
      ground (arith, sym (checkpoint-start name) ∙ (ap (take 10) same ∙ audit-start other))
