-- ===== src/Audit/Size.antt =====
-- The text of the audit snapshot and the write of its ConfigMap
-- (internal/workflow/executor/checkpoint.go: SaveAuditSnapshot). encoding/json and the API server
-- are arguments.
use ottoflow.Prelude.{
  ℕ, String, true, Option, none, some, List, [], ◌∷◌, if◌then◌else◌, leb, insert,
}
use ottoflow.Api.Json.{bool, str, arr, obj, Items, nil, cons, Fields, end, field, put}
use ottoflow.Checkpoint.{Snapshot}
use ottoflow.Audit.Truncate.{truncate_fields, truncated_keys}

abbrev pub size_threshold : ℕ
size_threshold = 921600

pub record Encoding : Type 0 where
  pub marshal : Snapshot → Option String
  pub byte_count : String → ℕ
  pub decimal : ℕ → String

abbrev pub texts : List String → Items
texts [] = nil
texts (k ∷ ks) = cons (str k) (texts ks)

abbrev pub add_keys : List String → Fields → Fields
add_keys [] context = context
add_keys (k ∷ ks) context = put "_auditSnapshotTruncatedKeys" (arr (texts (k ∷ ks))) context

-- truncateAuditSnapshot
unfoldable pub truncate_audit_snapshot : Encoding → Snapshot → Snapshot
truncate_audit_snapshot enc s = record s {
  context = add_keys (truncated_keys "" (obj s.context)) (truncate_fields enc.decimal s.context);
}

-- minimalAuditSnapshot
unfoldable pub minimal_audit_snapshot : Snapshot → Snapshot
minimal_audit_snapshot s = record s {
  context = field "_auditSnapshotDropped" (bool true) (
      field "_auditSnapshotReason"
        (str "context exceeded size threshold even after array truncation") end);
}

pub data Chosen : Type 0 where
  marshal_error too_large : Chosen
  text : String → Chosen

-- One marshalled snapshot, by what is done where it is too large.
unfoldable pub fitting : Encoding → Option String → Chosen → Chosen
fitting enc none otherwise = marshal_error
fitting enc (some raw) otherwise =
    if leb (enc.byte_count raw) size_threshold then text raw else otherwise

-- The first part of SaveAuditSnapshot
unfoldable pub choose : Encoding → Snapshot → Chosen
unfolding truncate_audit_snapshot minimal_audit_snapshot fitting
choose enc s = fitting enc (enc.marshal s) (
    fitting enc (enc.marshal (truncate_audit_snapshot enc s))
      (fitting enc (enc.marshal (minimal_audit_snapshot s)) too_large))

pub record OwnerReference : Type 0 where
  pub name : String
  pub uid : String

pub record ConfigMap : Type 0 where
  pub owners : List OwnerReference
  pub labels : List (String × String)
  pub entries : List (String × String)  -- its Data

abbrev pub with_labels : List (String × String) → List (String × String)
with_labels labels =
    insert "app.kubernetes.io/managed-by" "ottoflow-runner"
      (insert "app.kubernetes.io/part-of" "ottoflow" labels)

unfoldable pub created : List OwnerReference → String → ConfigMap
created owners raw = record {
  owners = owners;
  labels = with_labels [];
  entries = ("snapshot", raw) ∷ [];
}

unfoldable pub updated : List OwnerReference → String → ConfigMap → ConfigMap
updated owners raw cm = record {
  owners = owners;
  labels = with_labels cm.labels;
  entries = insert "snapshot" raw cm.entries;
}

pub data Read : Type 0 where
  not_found unreadable : Read
  existing : ConfigMap → Read

pub data Write : Type 0 where
  written already_exists conflict refused : Write

pub record Attempt : Type 0 where
  pub read : Read
  pub write : Write

pub data Outcome : Type 0 where
  not_marshalled above_threshold not_stored : Outcome
  stored : ConfigMap → Outcome

-- What Create and Update answer; a conflict has the outcome of the calls that follow.
unfoldable pub after_create : ConfigMap → Write → Outcome → Outcome
after_create cm written on_conflict = stored cm
after_create cm already_exists on_conflict = on_conflict
after_create cm conflict on_conflict = on_conflict
after_create cm refused on_conflict = not_stored

unfoldable pub after_update : ConfigMap → Write → Outcome → Outcome
after_update cm written on_conflict = stored cm
after_update cm conflict on_conflict = on_conflict
after_update cm already_exists on_conflict = not_stored
after_update cm refused on_conflict = not_stored

-- A call of the retried closure.
unfoldable pub store_once : List OwnerReference → String → Read → Write → Outcome → Outcome
unfolding created updated after_create after_update
store_once owners raw not_found w on_conflict = after_create (created owners raw) w on_conflict
store_once owners raw unreadable w on_conflict = not_stored
store_once owners raw (existing cm) w on_conflict =
    after_update (updated owners raw cm) w on_conflict

-- The calls, until the policy gives up.
unfoldable pub store : List OwnerReference → String → List Attempt → Outcome
unfolding store_once
store owners raw [] = not_stored
store owners raw (a ∷ rest) = store_once owners raw a.read a.write (store owners raw rest)

abbrev pub store_chosen : List OwnerReference → Chosen → List Attempt → Outcome
store_chosen owners marshal_error attempts = not_marshalled
store_chosen owners too_large attempts = above_threshold
store_chosen owners (text raw) attempts = store owners raw attempts

-- SaveAuditSnapshot
unfoldable pub save_audit_snapshot :
    Encoding → List OwnerReference → Snapshot → List Attempt → Outcome
unfolding choose store
save_audit_snapshot enc owners s attempts = store_chosen owners (choose enc s) attempts
