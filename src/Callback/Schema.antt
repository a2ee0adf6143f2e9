-- ===== src/Callback/Schema.antt =====
-- The check of a callback's payload against the step's output schema
-- (internal/workflow/controller/callback_server.go), and the filter of undeclared keys
-- (internal/workflow/executor/wait_for_callback.go). `unmarshal` is encoding/json.
use ottoflow.Prelude.{
  String, Bool, true, false, Option, none, some, ◌≡◌, refl, ◌==◌, ◌||◌, if◌then◌else◌, is_some,
  arith, eq_iff, sym, ◌∙◌,
}
use ottoflow.Api.Json.{
  Json, null, bool, num, str, arr, obj, Items, nil, cons, Fields, end, field, get,
}

-- checkJSONType: the kinds that it knows, and any value for another.
unfoldable pub check_json_type : Json → String → Bool
check_json_type v expected =
    if expected == "string"
    then elim v [ str s ↦ true | _ ↦ false ]
    else if expected == "boolean"
    then elim v [ bool b ↦ true | _ ↦ false ]
    else if expected == "number" || expected == "integer"
    then elim v [ num n ↦ true | _ ↦ false ]
    else if expected == "array"
    then elim v [ arr xs ↦ true | _ ↦ false ]
    else (if expected == "object" then elim v [ obj fs ↦ true | _ ↦ false ] else true)

-- The first loop of validatePayloadAgainstSchema: each text in the list is a key of the payload.
pub has_required : Items → Fields → Bool
has_required nil payload = true
has_required (cons (str k) rs) payload =
    let rest : Bool = has_required rs payload in if is_some (get k payload) then rest else false
has_required (cons _ rs) payload = has_required rs payload

-- What one property asks of a value: a missing value or type asks nothing.
unfoldable pub value_ok : Option Json → Option Json → Bool
unfolding check_json_type
value_ok (some (str expected)) (some v) = check_json_type v expected
value_ok _ _ = true

-- One property: a definition that is no object checks nothing.
unfoldable pub property_ok : String → Json → Fields → Bool
unfolding value_ok
property_ok name (obj definition) payload = value_ok (get "type" definition) (get name payload)
property_ok name _ payload = true

-- The second loop.
unfoldable pub properties_ok : Fields → Fields → Bool
unfolding property_ok
properties_ok end payload = true
properties_ok (field name definition fs) payload =
    let rest : Bool = properties_ok fs payload in
    if property_ok name definition payload then rest else false

-- SchemaProperties
unfoldable pub schema_properties : Fields → Option Fields
schema_properties s = elim (get "properties" s) [ some (obj props) ↦ some props | _ ↦ none ]

-- What the parsed schema asks of the payload.
unfoldable pub fits_schema : Fields → Fields → Bool
unfolding has_required properties_ok schema_properties
fits_schema s payload =
    let rest : Bool = elim (schema_properties s) [
      | none ↦ true
      | some props ↦ properties_ok props payload
    ] in
    elim (get "required" s) [
      | some (arr rs) ↦ if has_required rs payload then rest else false
      | _ ↦ rest
    ]

module _ (unmarshal : String → Option Json) where
  -- validatePayloadAgainstSchema: a schema that is absent, empty or no JSON object checks nothing.
  unfoldable pub validate_payload : Option String → Fields → Bool
  unfolding fits_schema
  validate_payload none payload = true
  validate_payload (some raw) payload =
      if raw == ""
      then true
      else elim (unmarshal raw) [ some (obj s) ↦ fits_schema s payload | _ ↦ true ]

  -- keepDeclaredProperties
  keep_in : Fields → Fields → Fields
  keep_in props end = end
  keep_in props (field k v fs) =
      let rest : Fields = keep_in props fs in if is_some (get k props) then field k v rest else rest

  -- The properties of a schema that parsed.
  declared_in : Option Json → Option Fields
  unfolding schema_properties
  declared_in (some (obj s)) = schema_properties s
  declared_in _ = none

  keep_with : Option Fields → Fields → Fields
  unfolding keep_in
  keep_with none out = out
  keep_with (some props) out = keep_in props out

  unfoldable pub keep_declared_properties : Option String → Fields → Fields
  unfolding keep_with declared_in
  keep_declared_properties none out = out
  keep_declared_properties (some raw) out = keep_with (declared_in (unmarshal raw)) out

  get-keep_in :
      (props out : Fields) (k : String)
      → get k (keep_in props out) ≡ (if is_some (get k props) then get k out else none)
  unfolding keep_in
  get-keep_in props end k = ground arith
  get-keep_in props (field j v fs) k = ground (arith, get-keep_in props fs k, eq_iff j k)

  property_ok-keep_in :
      (name : String) (d : Json) (props payload : Fields)
      → is_some (get name props) ≡ true
      → property_ok name d (keep_in props payload) ≡ property_ok name d payload
  unfolding property_ok
  property_ok-keep_in name (obj d) props payload declared =
      rw (get-keep_in props payload name, declared) refl
  property_ok-keep_in name null props payload declared = refl
  property_ok-keep_in name (bool b) props payload declared = refl
  property_ok-keep_in name (num n) props payload declared = refl
  property_ok-keep_in name (str t) props payload declared = refl
  property_ok-keep_in name (arr ts) props payload declared = refl

  properties_ok-keep_in :
      (fs props payload : Fields)
      → ((k : String) → is_some (get k fs) ≡ true → is_some (get k props) ≡ true)
      → properties_ok fs (keep_in props payload) ≡ properties_ok fs payload
  unfolding properties_ok
  properties_ok-keep_in end props payload within = refl
  properties_ok-keep_in (field j d fs) props payload within =
      rw
        (
          property_ok-keep_in j d props payload (within j (ground (arith, eq_iff j j))),
          properties_ok-keep_in fs props payload (λ k h. within k (ground (arith, h, eq_iff j k))),
        )
        refl

  keep-declared :
      (raw : String) (s props payload : Fields)
      → unmarshal raw ≡ some (obj s)
      → schema_properties s ≡ some props
      → keep_declared_properties (some raw) payload ≡ keep_in props payload
  unfolding keep_declared_properties declared_in keep_with
  keep-declared raw s props payload parsed declared = rw (parsed) (rw (declared) refl)

  fits_schema-properties :
      (s props payload : Fields)
      → schema_properties s ≡ some props
      → fits_schema s payload ≡ true
      → properties_ok props payload ≡ true
  unfolding fits_schema
  fits_schema-properties s props payload declared h = ground (arith, declared, h)

  validate_payload-fits :
      (raw : String) (s payload : Fields)
      → (raw == "") ≡ false
      → unmarshal raw ≡ some (obj s)
      → validate_payload (some raw) payload ≡ fits_schema s payload
  unfolding validate_payload
  validate_payload-fits raw s payload full parsed = rw (full, parsed) refl

  -- A payload that fits a schema keeps its types when the undeclared keys are dropped: the
  -- properties still hold of it, each declared key reads as before, and no other key is left.
  pub keep_declared_properties-fits :
      (raw : String) (s props payload : Fields)
      → (raw == "") ≡ false
      → unmarshal raw ≡ some (obj s)
      → schema_properties s ≡ some props
      → validate_payload (some raw) payload ≡ true
      → (properties_ok props (keep_declared_properties (some raw) payload) ≡ true)
        × ((k : String)
            → get k (keep_declared_properties (some raw) payload)
              ≡ (if is_some (get k props) then get k payload else none))
  keep_declared_properties-fits raw s props payload full parsed declared h =
      rw (keep-declared raw s props payload parsed declared) (
        properties_ok-keep_in props props payload (λ k e. e)
            ∙ fits_schema-properties s props payload declared
                (sym (validate_payload-fits raw s payload full parsed) ∙ h),
        get-keep_in props payload,
      )
