-- ===== src/Workflow/Access.antt =====
-- The level of access that planned permissions give
-- (crates/gitzero-workflow/src/lib.rs).
use gitzero.Prelude.Sets.{
  member-insert_element, member-union, insert_element, keep, union, Set, member, member-keep,
}
use Prim.Native.Nat.{min}
use gitzero.Workflow.Permissions.{
  name_not_string, not_permissions, PermissionError, not_recognized, add_entries, add_entry,
  planned_permissions, bad_access, read_only, id_token_write, id_token_read,
  read_only_token_permissions, add_access, read_write_token_permissions, token_permission_keys,
  PlannedPermissions, intersect,
}
use gitzero.Prelude.{
  Option, any-append, ==_iff, Bool, Text, [], arith, codes, false, if◌then◌else◌, inl, inr, nat_key,
  not, refl, some, subst, sym, text_key, true, ℕ, ◌++◌, ◌==◌, ◌||◌, ◌≡◌, ◌≤◌, ◌⊎◌,
}
use gitzero.Prelude.Result.{ok_or, guard-eq-ok, ok-injective, ok, err, >>=-eq-ok}
use gitzero.Workflow.Yaml.{
  Value, Entries, string, mapping, no_entries, entry, null, bool, number, sequence, tagged,
}

-- The level of access to one permission: 0 for none, 1 to read, 2 to write.
abbrev pub level : PlannedPermissions → Text → ℕ
level p x = if member x p.write then 2 else if member x p.read then 1 else 0

-- Of the permissions of a caller and a maximum, the intersection grants the lower access to each.
pub level-intersect :
    (permissions maximum : PlannedPermissions) (x : Text)
    → level (intersect permissions maximum) x ≡ min (level permissions x) (level maximum x)
unfolding intersect
level-intersect p m x = ground (
  arith,
  member-keep x (λ y. member y m.write) p.write,
  member-keep x (λ y. not (member y (keep (λ z. member z m.write) p.write)))
      (keep (λ y. member y m.read || member y m.write) (union p.read p.write)),
  member-keep x (λ y. member y m.read || member y m.write) (union p.read p.write),
  member-union x p.read p.write,
)

-- The level that two sets of names allow: to write for the first, to read for the second.
abbrev pub capped : Set → Set → Text → ℕ
capped writable readable x = if member x writable then 2 else if member x readable then 1 else 0

-- The highest level that a token can have: to write for the fourteen read-write permissions, to
-- read for the read-only one, and none for any other name, `id-token` among them.
abbrev pub highest_level : Text → ℕ
highest_level x = capped read_write_token_permissions read_only_token_permissions x

known_name :
    (name : Text)
    → member name token_permission_keys ≡ true
    → (name == codes "id-token") ≡ false
    → (member name read_write_token_permissions || member name read_only_token_permissions) ≡ true
known_name name h k = ground (arith, ==_iff name (codes "id-token"), ==_iff (codes "id-token") name)

member-same : (x name : Text) (s : Set) → (name == x) ≡ true → member x s ≡ member name s
member-same x name s h = rw ((==_iff name x).0 h) refl

module _ (writable readable : Set) (name x : Text) (p : PlannedPermissions) where
  read-capped :
      (member name writable || member name readable) ≡ true
      → level p x ≤ capped writable readable x
      → level (record p { read = insert_element name p.read }) x ≤ capped writable readable x
  read-capped known l = ground (
    arith,
    member-insert_element x name p.read,
    member-same x name writable,
    member-same x name readable,
  )

  write-capped :
      (member name writable || member name readable) ≡ true
      → member name readable ≡ false
      → level p x ≤ capped writable readable x
      → level (record p { write = insert_element name p.write }) x ≤ capped writable readable x
  write-capped known other l = ground (
    arith,
    member-insert_element x name p.write,
    member-same x name writable,
    member-same x name readable,
  )

-- The tests of `add_access` on the name and on the access, with what it returns for each.
access_cases :
    (nothing read write token limited : Bool) (r w q : PlannedPermissions) (p : PlannedPermissions)
    → (if nothing
        then ok p
        else if read
        then (if token then err id_token_read else ok r)
        else if write
        then (if token then err id_token_write else if limited then err read_only else ok w)
        else err bad_access)
      ≡ ok q
    → (p ≡ q) ⊎ ((token ≡ false) × (r ≡ q)) ⊎ ((token ≡ false) × (limited ≡ false) × (w ≡ q))
access_cases nothing read write token limited r w q p h = grind arith

add_access-level :
    (name access : Text) (p q : PlannedPermissions) (x : Text)
    → member name token_permission_keys ≡ true
    → add_access name access p ≡ ok q
    → level p x ≤ highest_level x
    → level q x ≤ highest_level x
unfolding add_access
add_access-level name access p q x known h l =
    elim (access_cases (access == codes "none") (access == codes "read") (access == codes "write")
      (name == codes "id-token") (member name read_only_token_permissions) _ _ q p h) [
        | inl same ↦ subst (λ p. level p x ≤ highest_level x) same l
        | inr (inl (token, same)) ↦
            subst (λ p. level p x ≤ highest_level x) same
              (read-capped read_write_token_permissions read_only_token_permissions name x p
                (known_name name known token) l)
        | inr (inr (token, limited, same)) ↦
            subst (λ p. level p x ≤ highest_level x) same
              (write-capped read_write_token_permissions read_only_token_permissions name x p
                (known_name name known token) limited l)
      ]

read_all-capped :
    (writable readable : Set) (x : Text)
    → level (record { read = union [] (writable ++ readable); write = [] }) x
      ≤ capped writable readable x
read_all-capped writable readable x =
    ground
      (arith, member-union x [] (writable ++ readable), any-append (λ y. y == x) writable readable)

-- The tests of `planned_permissions` on a string.
string_cases :
    (read_all write_all : Bool) (r p : PlannedPermissions)
    → (if read_all
        then ok r
        else if write_all
        then err PermissionError.write_all
        else err not_permissions)
      ≡ ok p
    → r ≡ p
string_cases read_all write_all r p h = grind arith

not-false : (b : Bool) → not b ≡ false → b ≡ true
not-false true h = refl
not-false false h = sym h

module _ {N : Type 0} (as_str : Value N → Option Text) where
  add_entry-level :
      (key value : Value N) (p q : PlannedPermissions) (x : Text)
      → add_entry as_str key value p ≡ ok q
      → level p x ≤ highest_level x
      → level q x ≤ highest_level x
  unfolding add_entry
  add_entry-level key value p q x h l =
      let (name, named, rest) = >>=-eq-ok (ok_or (as_str key) name_not_string) _ h in
      let (known, granted) =
        guard-eq-ok (not (member name token_permission_keys)) not_recognized _ rest in
      let (access, given, added) = >>=-eq-ok (ok_or (as_str value) bad_access) _ granted in
      add_access-level name access p q x (not-false _ known) added l

  add_entries-level :
      (es : Entries N) (p q : PlannedPermissions) (x : Text)
      → add_entries as_str es p ≡ ok q
      → level p x ≤ highest_level x
      → level q x ≤ highest_level x
  unfolding add_entries
  add_entries-level no_entries p q x h l =
      subst (λ p. level p x ≤ highest_level x) (ok-injective h) l
  add_entries-level (entry name access es) p q x h l =
      let (r, first, rest) = >>=-eq-ok (add_entry as_str name access p) (add_entries as_str es) h in
      add_entries-level es r q x rest (add_entry-level name access p r x first l)

  -- Whatever permissions a workflow or a job declares, if they are accepted, then they grant at
  -- most writing on the read-write permissions, reading on the read-only one, and nothing on
  -- `id-token` or any other name.
  pub planned_permissions-level :
      (v : Value N) (inherited p : PlannedPermissions) (x : Text)
      → planned_permissions as_str (some v) inherited ≡ ok p
      → level p x ≤ highest_level x
  unfolding planned_permissions
  planned_permissions-level (string s) inherited p x h =
      subst (λ p. level p x ≤ highest_level x)
        (string_cases (s == codes "read-all") (s == codes "write-all") _ p h)
        (read_all-capped read_write_token_permissions read_only_token_permissions x)
  planned_permissions-level (mapping es) inherited p x h =
      add_entries-level es (record { read = []; write = [] }) p x h (omega arith)
  planned_permissions-level null inherited p x h = cc
  planned_permissions-level (bool b) inherited p x h = cc
  planned_permissions-level (number n) inherited p x h = cc
  planned_permissions-level (sequence vs) inherited p x h = cc
  planned_permissions-level (tagged t v) inherited p x h = cc
