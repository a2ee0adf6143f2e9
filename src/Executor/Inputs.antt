-- ===== src/Executor/Inputs.antt =====
-- The inputs of an initialised context (internal/workflow/executor/context.go: InitializeContext).
use ottoflow.Prelude.{
  String, true, false, not, Option, none, some, contains, ◌||◌, List, [], ◌∷◌, ◌≡◌, refl, sym, ap,
  ◌∙◌, subst, ◌==◌, ◌&&◌, ◌⊎◌, inl, inr, if◌then◌else◌, is_some, arith, eq_iff, Bool-cases,
  String-cases,
}
use ottoflow.Api.Json.{Json, str, Fields, end, field, get, put}
use ottoflow.Executor.Start.{Input, Params, missing_input, params_ok, add_defaults}

get-put :
    (k j : String) (v : Json) (fs : Fields)
    → get k (put j v fs) ≡ (if j == k then some v else get k fs)
get-put k j v end = refl
get-put k j v (field i w fs) = ground (arith, get-put k j v fs, eq_iff i j, eq_iff i k, eq_iff j k)

-- Is it an input without a value and without a default, that is required?
abbrev pub IsMissing : List Input → Fields → String → Type 0
IsMissing [] params name = ⊥
IsMissing (i ∷ is) params name =
    ((i.name ≡ name)
      × ((i.required && i.default == "") ≡ true)
      × (is_some (get name params) ≡ false))
    ⊎ IsMissing is params name

-- The default of the first input of a name.
abbrev pub first_default : String → List Input → Option String
first_default k [] = none
first_default k (i ∷ is) = if i.name == k then some i.default else first_default k is

-- What is given, or else the default.
abbrev pub given_or : Option Json → Option String → Option Json
given_or (some v) d = some v
given_or none (some d) = some (str d)
given_or none none = none

given_or-none : (o : Option Json) → o ≡ given_or o none
given_or-none none = refl
given_or-none (some v) = refl

-- Every input is given, or has a default, or is not required, or has the name of an earlier one.
abbrev pub AreCovered : List String → List Input → Fields → Type 0
AreCovered earlier [] params = Unit {0}
AreCovered earlier (i ∷ is) params =
    ((contains i.name earlier
        || (is_some (get i.name params) || not (i.required && i.default == "")))
      ≡ true)
    × AreCovered (i.name ∷ earlier) is params

-- The values are those given, and the defaults of the other inputs.
abbrev pub Completes : List Input → Fields → Fields → Type 0
Completes is params result =
    (k : String) → get k result ≡ given_or (get k params) (first_default k is)

abbrev pub HasInputs : List Input → Fields → Params → Type 0
HasInputs is params (missing_input name) = IsMissing is params name
HasInputs is params (params_ok result) = AreCovered [] is params × Completes is params result

-- It is enough that what was earlier or given still is.
AreCovered-more :
    (e f : List String) (is : List Input) (params more : Fields)
    → ((k : String)
        → (contains k e || is_some (get k params)) ≡ true
        → (contains k f || is_some (get k more)) ≡ true)
    → AreCovered e is params
    → AreCovered f is more
AreCovered-more e f [] params more h k = tt
AreCovered-more e f (i ∷ is) params more h k = (
  ground (arith, h i.name, k.0),
  AreCovered-more (i.name ∷ e) (i.name ∷ f) is params more (λ n g. ground (arith, h n, g)) k.1,
)

-- The first input, which is given, changes nothing.
given-Completes :
    (i : Input) (is : List Input) (params : Fields) (k : String)
    → is_some (get i.name params) ≡ true
    → given_or (get k params) (first_default k is)
      ≡ given_or (get k params) (first_default k (i ∷ is))
given-Completes i is params k h = elim (String-cases i.name k) [
  | inr (e, t) ↦
      ap (λ b. given_or (get k params) (if b then some i.default else first_default k is)) (sym t)
  | inl (e, t) ↦
      given_or_some (get k params) (subst (λ n. is_some (get n params) ≡ true) e h)
        (first_default k is) (first_default k (i ∷ is))
]
  where
    given_or_some :
        (o : Option Json) → is_some o ≡ true → (c d : Option String) → given_or o c ≡ given_or o d
    given_or_some none h c d = ground (arith, h)
    given_or_some (some v) h c d = refl

-- The first input, which is not given, has its default.
default-Completes :
    (i : Input) (is : List Input) (params : Fields) (k : String)
    → is_some (get i.name params) ≡ false
    → given_or (get k (put i.name (str i.default) params)) (first_default k is)
      ≡ given_or (get k params) (first_default k (i ∷ is))
default-Completes i is params k h =
    ap (λ o. given_or o (first_default k is)) (get-put k i.name (str i.default) params)
    ∙ elim (String-cases i.name k) [
      | inr (e, t) ↦ rw (t) refl
      | inl (e, t) ↦
          rw (t) (by_default (get k params) (subst (λ n. is_some (get n params) ≡ false) e h))
    ]
  where
    by_default :
        (o : Option Json) → is_some o ≡ false → some (str i.default) ≡ given_or o (some i.default)
    by_default none h = refl
    by_default (some v) h = ground (arith, h)

-- What is missing after a default was put was missing before.
IsMissing-put :
    (is : List Input) (j name : String) (v : Json) (params : Fields)
    → IsMissing is (put j v params) name
    → IsMissing is params name
IsMissing-put [] j name v params h = h
IsMissing-put (i ∷ is) j name v params (inl (e, r, undefined)) =
    inl (e, r, ground (arith, undefined, ap is_some (get-put name j v params)))
IsMissing-put (i ∷ is) j name v params (inr h) = inr (IsMissing-put is j name v params h)

-- The first input of a list is given, and the rest is dealt with.
first-HasInputs :
    (i : Input) (is : List Input) (params : Fields) (r : Params)
    → is_some (get i.name params) ≡ true
    → HasInputs is params r
    → HasInputs (i ∷ is) params r
first-HasInputs i is params (missing_input name) h k = inr k
first-HasInputs i is params (params_ok result) h (covered, values) = (
  (
    ground (arith, h),
    AreCovered-more [] (i.name ∷ []) is params params (λ n g. ground (arith, g)) covered,
  ),
  (λ k. values k ∙ given-Completes i is params k h),
)

default-HasInputs :
    (i : Input) (is : List Input) (params : Fields) (r : Params)
    → is_some (get i.name params) ≡ false
    → (i.required && i.default == "") ≡ false
    → HasInputs is (put i.name (str i.default) params) r
    → HasInputs (i ∷ is) params r
default-HasInputs i is params (missing_input name) h q k =
    inr (IsMissing-put is i.name name (str i.default) params k)
default-HasInputs i is params (params_ok result) h q (covered, values) = (
  (
    ground (arith, q),
    AreCovered-more [] (i.name ∷ []) is (put i.name (str i.default) params) params
        (λ n g. ground (
          arith,
          g,
          ap is_some (get-put n i.name (str i.default) params),
          eq_iff i.name n,
          eq_iff n i.name,
        ))
        covered,
  ),
  (λ k. values k ∙ default-Completes i is params k h),
)

-- From any given values, the defaults either give each declared input that was not given the default
-- of its first declaration, and leave all else as it is; and then every input that is required was
-- given, or has a default, or has the name of an earlier one. Or they name an input that is required,
-- has no default, and was not given.
pub add_defaults-HasInputs :
    (is : List Input) (params : Fields) → HasInputs is params (add_defaults is params)
unfolding add_defaults
add_defaults-HasInputs [] params = (tt, λ k. given_or-none (get k params))
add_defaults-HasInputs (i ∷ is) params = elim (Bool-cases (is_some (get i.name params))) [
  | inl h ↦
      subst (HasInputs (i ∷ is) params) (sym (ap (λ b. if b then as_given else otherwise) h))
        (first-HasInputs i is params as_given h (add_defaults-HasInputs is params))
  | inr h ↦
      subst (HasInputs (i ∷ is) params) (sym (ap (λ b. if b then as_given else otherwise) h))
        (elim (Bool-cases (i.required && i.default == "")) [
          | inl r ↦
              subst (HasInputs (i ∷ is) params)
                (sym (ap (λ b. if b then missing_input i.name else with_default) r))
                (inl (refl, r, h))
          | inr r ↦
              subst (HasInputs (i ∷ is) params)
                (sym (ap (λ b. if b then missing_input i.name else with_default) r))
                (default-HasInputs i is params with_default h r
                  (add_defaults-HasInputs is (put i.name (str i.default) params)))
        ])
]
  where
    as_given : Params
    as_given = add_defaults is params

    with_default : Params
    with_default = add_defaults is (put i.name (str i.default) params)

    otherwise : Params
    otherwise = if i.required && i.default == "" then missing_input i.name else with_default
