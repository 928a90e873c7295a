-- ===== src/Schedule/Parallel.antt =====
-- The calls of a reusable-workflow matrix that run at once (crates/gitzero-agent/src/executor.rs).
use gitzero.Schedule.Conclusions.{JobConclusion}
use gitzero.Prelude.Map.{All-insert, get, insert}
use gitzero.Prelude.Sets.{Set, insert_element}
use gitzero.Schedule.Reusable.{
  new_runtime, MatrixResult, collect_runtimes, expands, insert_runtimes, reusable_matrix_runtimes,
  here, finishes, starts, gate_of, next, start_reusable_matrix_invocation, Turns, find_invocation,
  finish_group, finish_reusable_matrix_invocation, reusable_matrix_gate_can_start, is_gate_of,
  ReusableMatrixRuntime, Groups, remove_element, start_group,
}
use gitzero.Prelude.{
  none, Option, &&-true, All, Bool, List, Option-cases, Text, [], any, arith, if◌then◌else◌, inl,
  inr, length, ltb, nat_key, not, refl, some, suc, text_key, true, ℕ, ◌&&◌, ◌==◌, ◌∷◌, ◌≡◌, ◌≤◌,
}

-- No call of a group has started yet, as `reusable_matrix_runtimes` builds them.
unfoldable pub IsIdle : Groups → Type 0
IsIdle groups = All (λ (id, group). group.active ≡ []) groups

-- A group runs at most as many calls as it may.
unfoldable pub IsBounded : Groups → Type 0
IsBounded groups = All (λ (id, group). length group.active ≤ group.max_parallel) groups

insert_element-length : (x : Text) (s : Set) → length (insert_element x s) ≤ suc (length s)
unfolding insert_element
insert_element-length x [] = omega arith
insert_element-length x (y ∷ s) = ground (arith, insert_element-length x s)

remove_element-length : (x : Text) (s : Set) → length (remove_element x s) ≤ length s
unfolding remove_element
remove_element-length x [] = omega arith
remove_element-length x (y ∷ s) = ground (arith, remove_element-length x s)

find_invocation-is_gate :
    (base_id : Text) (invocations : List Text) (i : Text)
    → find_invocation base_id invocations ≡ some i
    → any (λ invocation. base_id == gate_of invocation) invocations ≡ true
unfolding find_invocation
find_invocation-is_gate base_id [] i h = cc
find_invocation-is_gate base_id (invocation ∷ invocations) i h =
    ground (arith, find_invocation-is_gate base_id invocations i)

-- The gate's test of one group.
abbrev group_allows : Text → ReusableMatrixRuntime → Bool
group_allows base_id group =
    if is_gate_of base_id group
    then not group.failed && ltb (length group.active) group.max_parallel
    else true

allows-room :
    (gate failed : Bool) (running most : ℕ)
    → (if gate then not failed && ltb running most else true) ≡ true
    → gate ≡ true
    → suc running ≤ most
allows-room gate failed running most h e = ground arith

start_group-bounded :
    (base_id : Text) (group : ReusableMatrixRuntime)
    → group_allows base_id group ≡ true
    → length group.active ≤ group.max_parallel
    → length (start_group base_id group).active ≤ (start_group base_id group).max_parallel
unfolding start_group
start_group-bounded base_id group h le =
    elim (Option-cases (find_invocation base_id group.invocations)) [
      | inl nothing ↦ rw (nothing, start_group) le
      | inr (i, found) ↦
          let gate = find_invocation-is_gate base_id group.invocations i found in
          let room =
            allows-room (is_gate_of base_id group) group.failed (length group.active)
              group.max_parallel h gate in
          rw (found, start_group) (omega (arith, room, insert_element-length i group.active))
    ]

finish_group-bounded :
    (base_id : Text) (conclusion : JobConclusion) (group : ReusableMatrixRuntime)
    → length group.active ≤ group.max_parallel
    → length (finish_group base_id conclusion group).active
      ≤ (finish_group base_id conclusion group).max_parallel
unfolding finish_group
finish_group-bounded base_id conclusion group le =
    ground (arith, remove_element-length base_id group.active)

start-IsBounded :
    (groups : Groups) (base_id : Text)
    → reusable_matrix_gate_can_start groups base_id ≡ true
    → IsBounded groups
    → IsBounded (start_reusable_matrix_invocation groups base_id)
unfolding reusable_matrix_gate_can_start start_reusable_matrix_invocation IsBounded
start-IsBounded [] base_id h b = tt
start-IsBounded ((id, group) ∷ groups) base_id h (le, rest) =
    let (first, others) = &&-true _ _ h in
    (start_group-bounded base_id group first le, start-IsBounded groups base_id others rest)

finish-IsBounded :
    (groups : Groups) (base_id : Text) (conclusion : JobConclusion)
    → IsBounded groups
    → IsBounded (finish_reusable_matrix_invocation groups base_id conclusion).0
unfolding finish_reusable_matrix_invocation IsBounded
finish-IsBounded [] base_id conclusion b = tt
finish-IsBounded ((id, group) ∷ groups) base_id conclusion (le, rest) = (
  finish_group-bounded base_id conclusion group le,
  finish-IsBounded groups base_id conclusion rest,
)

IsIdle-IsBounded : (groups : Groups) → IsIdle groups → IsBounded groups
unfolding IsIdle IsBounded
IsIdle-IsBounded [] i = tt
IsIdle-IsBounded ((id, group) ∷ groups) (quiet, rest) =
    (rw quiet (omega arith), IsIdle-IsBounded groups rest)

-- Groups of which no call runs may be entered: they are bounded whatever their limits are.
insert_runtimes-IsBounded :
    (runtimes groups : Groups)
    → IsIdle runtimes
    → IsBounded groups
    → IsBounded (insert_runtimes runtimes groups)
unfolding insert_runtimes IsIdle IsBounded
insert_runtimes-IsBounded [] groups i b = b
insert_runtimes-IsBounded ((id, runtime) ∷ runtimes) groups (quiet, rest) b =
    insert_runtimes-IsBounded runtimes _ rest (entered (get id groups))
  where
    entered :
        (known : Option ReusableMatrixRuntime)
        → All
            (λ (id, group). length group.active ≤ group.max_parallel)
            (elim known [ none ↦ insert id runtime groups | some known ↦ groups ])
    entered none =
        All-insert (λ (id, group). length group.active ≤ group.max_parallel) id runtime groups
          (rw quiet (omega arith)) b
    entered (some known) = b

collect_runtimes-IsIdle :
    (results : List MatrixResult) (groups : Groups)
    → IsIdle groups
    → IsIdle (collect_runtimes groups results)
unfolding collect_runtimes IsIdle
collect_runtimes-IsIdle [] groups i = i
collect_runtimes-IsIdle (r ∷ results) groups i = collect_runtimes-IsIdle results _ (
    All-insert (λ (id, group). group.active ≡ []) r.base_id
      (new_runtime r.invocations r.max_parallel r.fail_fast) groups refl i)

pub reusable_matrix_runtimes-IsIdle :
    (results : List MatrixResult) → IsIdle (reusable_matrix_runtimes results)
unfolding reusable_matrix_runtimes IsIdle
reusable_matrix_runtimes-IsIdle results = collect_runtimes-IsIdle results [] tt

-- From groups of which no call runs, whatever gates start when they may, and whatever jobs end
-- with whatever conclusions, and whatever jobs are expanded, no group ever runs more calls than
-- its `max_parallel`.
pub turns-IsBounded : {groups later : Groups} → IsIdle groups → Turns groups later → IsBounded later
turns-IsBounded {groups} idle here = IsIdle-IsBounded groups idle
turns-IsBounded idle (next {g} turns (starts base_id allowed)) =
    start-IsBounded g base_id allowed (turns-IsBounded idle turns)
turns-IsBounded idle (next {g} turns (finishes base_id conclusion)) =
    finish-IsBounded g base_id conclusion (turns-IsBounded idle turns)
turns-IsBounded idle (next {g} turns (expands results)) =
    insert_runtimes-IsBounded (reusable_matrix_runtimes results) g
      (reusable_matrix_runtimes-IsIdle results) (turns-IsBounded idle turns)
