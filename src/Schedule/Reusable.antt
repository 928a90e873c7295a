-- ===== src/Schedule/Reusable.antt =====
-- The matrix of reusable-workflow calls of crates/gitzero-agent/src/executor.rs: when the gate of
-- a call may start, and what its start and its end change.
use gitzero.Prelude.Map.{get, insert}
use gitzero.Prelude.Strings.{starts_with}
use gitzero.Prelude.Split.{strip_prefix}
use gitzero.Schedule.Conclusions.{is_failed, JobConclusion}
use gitzero.Prelude.Sets.{Set, insert_element}
use gitzero.Prelude.{
  ◌||◌, Bool, List, Option, Text, [], all, any, codes, false, if◌then◌else◌, length, ltb, map,
  nat_key, none, not, some, text_key, true, ℕ, ◌&&◌, ◌++◌, ◌==◌, ◌∷◌, ◌≡◌,
}

-- ReusableMatrixRuntime. `cancel` is the value that its watch channel holds.
pub record ReusableMatrixRuntime : Type 0 where
  pub invocations : List Text
  pub max_parallel : ℕ
  pub fail_fast : Bool
  pub active : Set
  pub started : Set
  pub failed : Bool
  pub cancel : Bool

-- The groups of a `BTreeMap`, by their ids.
abbrev pub Groups : Type 0
Groups = List (Text × ReusableMatrixRuntime)

-- The runtime of a `ReusableMatrixResult`.
abbrev pub new_runtime : List Text → ℕ → Bool → ReusableMatrixRuntime
new_runtime invocations max_parallel fail_fast = record {
  invocations = invocations;
  max_parallel = max_parallel;
  fail_fast = fail_fast;
  active = [];
  started = [];
  failed = false;
  cancel = false;
}

-- What a `ReusableMatrixResult` of the jobs says: its id, its calls, and its two settings.
pub record MatrixResult : Type 0 where
  pub base_id : Text
  pub invocations : List Text
  pub max_parallel : ℕ
  pub fail_fast : Bool

-- The results of the jobs, in place of the jobs.
unfoldable pub collect_runtimes : Groups → List MatrixResult → Groups
unfolding insert
collect_runtimes groups [] = groups
collect_runtimes groups (r ∷ results) =
    collect_runtimes
      (insert r.base_id (new_runtime r.invocations r.max_parallel r.fail_fast) groups) results

unfoldable pub reusable_matrix_runtimes : List MatrixResult → Groups
unfolding collect_runtimes
reusable_matrix_runtimes results = collect_runtimes [] results

-- `entry(..).or_insert(..)` for each.
unfoldable pub insert_runtimes : Groups → Groups → Groups
unfolding get insert
insert_runtimes [] groups = groups
insert_runtimes ((id, runtime) ∷ runtimes) groups =
    insert_runtimes runtimes
      (elim (get id groups) [ none ↦ insert id runtime groups | some known ↦ groups ])

abbrev pub gate_of : Text → Text
gate_of invocation = invocation ++ codes "::gate"

abbrev pub is_gate_of : Text → ReusableMatrixRuntime → Bool
is_gate_of base_id group = any (λ invocation. base_id == gate_of invocation) group.invocations

unfoldable pub reusable_matrix_gate_can_start : Groups → Text → Bool
reusable_matrix_gate_can_start groups base_id =
    all
      (λ (id, group).
        if is_gate_of base_id group
        then not group.failed && ltb (length group.active) group.max_parallel
        else true)
      groups

-- `iter().find(..)`
unfoldable pub find_invocation : Text → List Text → Option Text
find_invocation base_id [] = none
find_invocation base_id (invocation ∷ invocations) =
    if base_id == gate_of invocation then some invocation else find_invocation base_id invocations

unfoldable pub start_group : Text → ReusableMatrixRuntime → ReusableMatrixRuntime
unfolding find_invocation insert_element
start_group base_id group = elim (find_invocation base_id group.invocations) [
  | none ↦ group
  | some invocation ↦ record group {
    started = insert_element invocation group.started;
    active = insert_element invocation group.active;
  }
]

unfoldable pub start_reusable_matrix_invocation : Groups → Text → Groups
unfolding start_group
start_reusable_matrix_invocation groups base_id =
    map (λ (id, group). (id, start_group base_id group)) groups

-- The test of one running call against a job, whose id is the call's or begins with it.
abbrev pub belongs_to : Text → Text → Bool
belongs_to base_id invocation = base_id == invocation || elim (strip_prefix invocation base_id) [
  | none ↦ false
  | some suffix ↦ starts_with suffix (codes "::")
]

-- The groups whose cancellation a job listens to.
unfoldable pub reusable_matrix_cancellations : Groups → Text → List Text
reusable_matrix_cancellations [] base_id = []
reusable_matrix_cancellations ((id, group) ∷ groups) base_id =
    let rest = reusable_matrix_cancellations groups base_id in
    if any (belongs_to base_id) group.active then id ∷ rest else rest

unfoldable pub remove_element : Text → Set → Set
remove_element x [] = []
remove_element x (y ∷ s) = let rest = remove_element x s in if y == x then rest else y ∷ rest

-- Whether the end of a call fails its group for the first time.
abbrev pub fails_now : JobConclusion → ReusableMatrixRuntime → Bool
fails_now conclusion group = is_failed conclusion && (group.fail_fast && not group.failed)

unfoldable pub finish_group : Text → JobConclusion → ReusableMatrixRuntime → ReusableMatrixRuntime
unfolding remove_element
finish_group base_id conclusion group =
    let left = record group { active = remove_element base_id group.active } in
    if any (λ invocation. invocation == base_id) group.invocations
    then (if fails_now conclusion group then record left { failed = true; cancel = true } else left)
    else group

-- The groups afterwards, and the ids of those that failed.
unfoldable pub finish_reusable_matrix_invocation :
    Groups → Text → JobConclusion → Groups × List Text
unfolding finish_group
finish_reusable_matrix_invocation [] base_id conclusion = ([], [])
finish_reusable_matrix_invocation ((id, group) ∷ groups) base_id conclusion =
    let rest = finish_reusable_matrix_invocation groups base_id conclusion in
    let fails =
      any (λ invocation. invocation == base_id) group.invocations && fails_now conclusion group in
    ((id, finish_group base_id conclusion group) ∷ rest.0, if fails then id ∷ rest.1 else rest.1)

-- One turn of the loop of the executor: a gate that may start does, a job ends, or jobs are
-- expanded, and the matrix results among all jobs are entered.
pub data Turn : Groups → Groups → Type 0 where
  starts :
      {groups : Groups} (base_id : Text)
      → reusable_matrix_gate_can_start groups base_id ≡ true
      → Turn groups (start_reusable_matrix_invocation groups base_id)
  finishes :
      {groups : Groups} (base_id : Text) (conclusion : JobConclusion)
      → Turn groups (finish_reusable_matrix_invocation groups base_id conclusion).0
  expands :
      {groups : Groups} (results : List MatrixResult)
      → Turn groups (insert_runtimes (reusable_matrix_runtimes results) groups)

pub data Turns (groups : Groups) : Groups → Type 0 where
  here : Turns groups groups
  next : {g h : Groups} → Turns groups g → Turn g h → Turns groups h
