-- ===== src/Schedule/FailFast.antt =====
-- What a failed call of a reusable-workflow matrix stops
-- (crates/gitzero-agent/src/executor.rs).
use gitzero.Schedule.Conclusions.{is_failed, JobConclusion}
use gitzero.Prelude.Map.{insert, get}
use gitzero.Schedule.Reusable.{
  here, reusable_matrix_runtimes, expands, finishes, starts, next, Turns, find_invocation,
  is_gate_of, Groups, ReusableMatrixRuntime, finish_group, finish_reusable_matrix_invocation,
  insert_runtimes, reusable_matrix_gate_can_start, start_group, start_reusable_matrix_invocation,
}
use gitzero.Prelude.{
  Bool, Bool-cases, Option, Option-cases, Text, [], any, arith, false, inl, inr, nat_key, none,
  refl, some, some-injective, subst, sym, text_key, true, ◌&&◌, ◌==◌, ◌∷◌, ◌≡◌,
}

-- Whether a group that has failed is behind a gate.
abbrev stops : Text → ReusableMatrixRuntime → Bool
stops gate group = is_gate_of gate group && group.failed

abbrev stopped : Text → Groups → Bool
stopped gate groups = any (λ (id, group). stops gate group) groups

stopped_refuses :
    (gate : Text) (groups : Groups)
    → stopped gate groups ≡ true
    → reusable_matrix_gate_can_start groups gate ≡ false
unfolding reusable_matrix_gate_can_start
stopped_refuses gate [] h = cc
stopped_refuses gate ((id, group) ∷ groups) h = ground (arith, h, stopped_refuses gate groups)

start_group-stops :
    (gate base_id : Text) (group : ReusableMatrixRuntime)
    → stops gate group ≡ true
    → stops gate (start_group base_id group) ≡ true
unfolding start_group
start_group-stops gate base_id group h =
    elim (Option-cases (find_invocation base_id group.invocations)) [
      | inl nothing ↦ rw (nothing, start_group) h
      | inr (i, found) ↦ rw (found, start_group) h
    ]

start-stopped :
    (gate base_id : Text) (groups : Groups)
    → stopped gate groups ≡ true
    → stopped gate (start_reusable_matrix_invocation groups base_id) ≡ true
unfolding start_reusable_matrix_invocation
start-stopped gate base_id [] h = h
start-stopped gate base_id ((id, group) ∷ groups) h =
    ground (arith, h, start_group-stops gate base_id group, start-stopped gate base_id groups)

finish_group-stops :
    (gate base_id : Text) (conclusion : JobConclusion) (group : ReusableMatrixRuntime)
    → stops gate group ≡ true
    → stops gate (finish_group base_id conclusion group) ≡ true
unfolding finish_group
finish_group-stops gate base_id conclusion group h = ground (arith, h)

finish-stopped :
    (gate base_id : Text) (conclusion : JobConclusion) (groups : Groups)
    → stopped gate groups ≡ true
    → stopped gate (finish_reusable_matrix_invocation groups base_id conclusion).0 ≡ true
unfolding finish_reusable_matrix_invocation
finish-stopped gate base_id conclusion [] h = h
finish-stopped gate base_id conclusion ((id, group) ∷ groups) h = ground (
  arith,
  h,
  finish_group-stops gate base_id conclusion group,
  finish-stopped gate base_id conclusion groups,
)

-- What is entered for a new id keeps the groups that are there.
insert-stopped :
    (gate id : Text) (runtime : ReusableMatrixRuntime) (groups : Groups)
    → get id groups ≡ none
    → stopped gate groups ≡ true
    → stopped gate (insert id runtime groups) ≡ true
unfolding get insert
insert-stopped gate id runtime [] new h = cc
insert-stopped gate id runtime ((j, group) ∷ groups) new h =
    ground (arith, new, h, insert-stopped gate id runtime groups)

insert_runtimes-stopped :
    (gate : Text) (runtimes groups : Groups)
    → stopped gate groups ≡ true
    → stopped gate (insert_runtimes runtimes groups) ≡ true
unfolding insert_runtimes
insert_runtimes-stopped gate [] groups h = h
insert_runtimes-stopped gate ((id, runtime) ∷ runtimes) groups h =
    insert_runtimes-stopped gate runtimes _ (entered (get id groups) refl)
  where
    entered :
        (known : Option ReusableMatrixRuntime)
        → get id groups ≡ known
        → stopped gate (elim known [ none ↦ insert id runtime groups | some known ↦ groups ]) ≡ true
    entered none new = insert-stopped gate id runtime groups new h
    entered (some known) found = h

turns-stopped :
    {groups later : Groups} (gate : Text)
    → stopped gate groups ≡ true
    → Turns groups later
    → stopped gate later ≡ true
turns-stopped gate h here = h
turns-stopped gate h (next {g} turns (starts base_id allowed)) =
    start-stopped gate base_id g (turns-stopped gate h turns)
turns-stopped gate h (next {g} turns (finishes base_id conclusion)) =
    finish-stopped gate base_id conclusion g (turns-stopped gate h turns)
turns-stopped gate h (next {g} turns (expands results)) =
    insert_runtimes-stopped gate (reusable_matrix_runtimes results) g (turns-stopped gate h turns)

-- A group that fails fast has failed once a call of it ended with a failure.
finish_group-fails :
    (base_id gate : Text) (conclusion : JobConclusion) (group : ReusableMatrixRuntime)
    → group.fail_fast ≡ true
    → any (λ invocation. invocation == base_id) group.invocations ≡ true
    → is_failed conclusion ≡ true
    → is_gate_of gate group ≡ true
    → stops gate (finish_group base_id conclusion group) ≡ true
unfolding finish_group
finish_group-fails base_id gate conclusion group fast called failing gated = ground arith

finish-fails :
    (groups : Groups) (id base_id gate : Text) (conclusion : JobConclusion)
    (group : ReusableMatrixRuntime)
    → get id groups ≡ some group
    → group.fail_fast ≡ true
    → any (λ invocation. invocation == base_id) group.invocations ≡ true
    → is_failed conclusion ≡ true
    → is_gate_of gate group ≡ true
    → stopped gate (finish_reusable_matrix_invocation groups base_id conclusion).0 ≡ true
unfolding get finish_reusable_matrix_invocation
finish-fails [] id base_id gate conclusion group found fast called failing gated = cc
finish-fails ((j, other) ∷ groups) id base_id gate conclusion group found fast called failing
      gated =
    elim (Bool-cases (j == id)) [
      | inl named ↦
          let same : other ≡ group = some-injective (ground (arith, found)) in
          let fails = finish_group-fails base_id gate conclusion group fast called failing gated in
          ground (
            arith,
            subst (λ g. stops gate (finish_group base_id conclusion g) ≡ true) (sym same) fails,
          )
      | inr behind ↦ ground (
        arith,
        finish-fails groups id base_id gate conclusion group (ground (arith, found)) fast called
            failing gated,
      )
    ]

-- Once a call of a group that fails fast has ended with a failure or a timeout, no gate of the
-- group may start ever after, whatever gates start, whatever jobs end with whatever conclusions and
-- whatever jobs are expanded in the turns that follow.
pub fail_fast_stops :
    (groups later : Groups) (id base_id gate : Text) (conclusion : JobConclusion)
    (group : ReusableMatrixRuntime)
    → get id groups ≡ some group
    → group.fail_fast ≡ true
    → any (λ invocation. invocation == base_id) group.invocations ≡ true
    → is_failed conclusion ≡ true
    → is_gate_of gate group ≡ true
    → Turns (finish_reusable_matrix_invocation groups base_id conclusion).0 later
    → reusable_matrix_gate_can_start later gate ≡ false
fail_fast_stops groups later id base_id gate conclusion group found fast called failing gated
      turns =
    stopped_refuses gate later (
      turns-stopped gate
        (finish-fails groups id base_id gate conclusion group found fast called failing gated)
        turns)
