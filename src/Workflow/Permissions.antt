-- ===== src/Workflow/Permissions.antt =====
-- `PlannedPermissions` and `planned_permissions` of crates/gitzero-workflow/src/lib.rs.
use gitzero.Prelude.Sets.{keep, Set, insert_element, member, union}
use gitzero.Prelude.{
  List, Option, Text, [], codes, if◌then◌else◌, nat_key, none, not, some, text_key, ◌++◌, ◌==◌,
  ◌||◌, ◌∷◌,
}
use gitzero.Prelude.Result.{Result, ok, err, ◌>>=◌, ok_or}
use gitzero.Workflow.Yaml.{Value, Entries, string, mapping, no_entries, entry}

pub record PlannedPermissions : Type 0 where
  pub read : Set
  pub write : Set

abbrev pub default_permissions : PlannedPermissions
default_permissions = record { read = codes "contents" ∷ codes "pull-requests" ∷ []; write = [] }

unfoldable pub intersect : PlannedPermissions → PlannedPermissions → PlannedPermissions
unfolding union keep
intersect permissions maximum =
    let available =
      keep (λ x. member x maximum.read || member x maximum.write)
        (union permissions.read permissions.write) in
    let write = keep (λ x. member x maximum.write) permissions.write in
    record { read = keep (λ x. not (member x write)) available; write = write }

abbrev pub read_write_token_permissions : List Text
read_write_token_permissions =
    codes "actions"
    ∷ codes "artifact-metadata"
    ∷ codes "attestations"
    ∷ codes "checks"
    ∷ codes "code-quality"
    ∷ codes "contents"
    ∷ codes "deployments"
    ∷ codes "discussions"
    ∷ codes "issues"
    ∷ codes "packages"
    ∷ codes "pages"
    ∷ codes "pull-requests"
    ∷ codes "security-events"
    ∷ codes "statuses"
    ∷ []

abbrev pub read_only_token_permissions : List Text
read_only_token_permissions = codes "vulnerability-alerts" ∷ []

abbrev pub token_permission_keys : List Text
token_permission_keys =
    codes "actions"
    ∷ codes "artifact-metadata"
    ∷ codes "attestations"
    ∷ codes "checks"
    ∷ codes "code-quality"
    ∷ codes "contents"
    ∷ codes "deployments"
    ∷ codes "discussions"
    ∷ codes "id-token"
    ∷ codes "issues"
    ∷ codes "packages"
    ∷ codes "pages"
    ∷ codes "pull-requests"
    ∷ codes "security-events"
    ∷ codes "statuses"
    ∷ codes "vulnerability-alerts"
    ∷ []

-- The refusals of `planned_permissions`, without their texts.
pub data PermissionError : Type 0 where
  write_all name_not_string not_recognized bad_access id_token_read id_token_write : PermissionError
  read_only not_permissions : PermissionError

-- One entry of a permission mapping whose name and access are strings.
unfoldable pub add_access :
    Text → Text → PlannedPermissions → Result PermissionError PlannedPermissions
unfolding insert_element
add_access name access p =
    if access == codes "none"
    then ok p
    else if access == codes "read"
    then (if name == codes "id-token"
        then err id_token_read
        else ok (record p { read = insert_element name p.read }))
    else if access == codes "write"
    then (if name == codes "id-token"
        then err id_token_write
        else if member name read_only_token_permissions
        then err read_only
        else ok (record p { write = insert_element name p.write }))
    else err bad_access

-- `Value::as_str` of serde_yaml_ng is a parameter.
module _ {N : Type 0} (as_str : Value N → Option Text) where
  unfoldable pub add_entry :
      Value N → Value N → PlannedPermissions → Result PermissionError PlannedPermissions
  unfolding add_access
  add_entry key value p = do
    name ← ok_or (as_str key) name_not_string
    if not (member name token_permission_keys)
        then err not_recognized
        else ok_or (as_str value) bad_access >>= λ access. add_access name access p

  unfoldable pub add_entries :
      Entries N → PlannedPermissions → Result PermissionError PlannedPermissions
  unfolding add_entry
  add_entries no_entries p = ok p
  add_entries (entry name access es) p = do q ← add_entry name access p; add_entries es q

  unfoldable pub planned_permissions :
      Option (Value N) → PlannedPermissions → Result PermissionError PlannedPermissions
  unfolding add_entries union
  planned_permissions none inherited = ok inherited
  planned_permissions (some (string s)) inherited =
      if s == codes "read-all"
      then ok (record {
        read = union [] (read_write_token_permissions ++ read_only_token_permissions);
        write = [];
      })
      else if s == codes "write-all"
      then err write_all
      else err not_permissions
  planned_permissions (some (mapping es)) inherited =
      add_entries es (record { read = []; write = [] })
  planned_permissions (some _) inherited = err not_permissions
