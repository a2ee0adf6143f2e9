-- ===== src/Api/Json.antt =====
-- JSON documents as Go's encoding/json unmarshals them into `interface{}`. Lists and objects stand
-- in the block with the values. A number keeps its literal, since the code reads its kind only.
use ottoflow.Prelude.{String, ◌==◌, Option, none, some, Bool, if◌then◌else◌, List, [], ◌∷◌}

mutual
  pub data Json : Type 0 where
    null : Json
    bool : Bool → Json
    num : String → Json
    str : String → Json
    arr : Items → Json
    obj : Fields → Json

  pub data Items : Type 0 where
    nil : Items
    cons : Json → Items → Items

  pub data Fields : Type 0 where
    end : Fields
    field : String → Json → Fields → Fields

-- `v, ok := m[k]`
abbrev pub get : String → Fields → Option Json
get k end = none
get k (field j v fs) = if j == k then some v else get k fs

-- `m[k] = v`
abbrev pub put : String → Json → Fields → Fields
put k v end = field k v end
put k v (field j w fs) = if j == k then field k v fs else field j w (put k v fs)

-- `v.(map[string]interface{})`
abbrev pub as_obj : Json → Option Fields
as_obj (obj fs) = some fs
as_obj _ = none

-- `v.([]interface{})`
abbrev pub as_arr : Json → Option Items
as_arr (arr xs) = some xs
as_arr _ = none

-- `v.(string)`
abbrev pub as_str : Json → Option String
as_str (str s) = some s
as_str _ = none

abbrev pub field_names : Fields → List String
field_names end = []
field_names (field k v fs) = k ∷ field_names fs
