-- ===== src/Schedule/Conclusions.antt =====
-- `JobConclusion`, `aggregate_conclusions` and `dependency_status` of
-- crates/gitzero-agent/src/executor.rs.
use Prim.Native.Nat.{max}
use gitzero.Expression.{ExecutionStatus}
use gitzero.Prelude.Map.{Map, get}
use gitzero.Prelude.{
  Bool, List, Option, Text, [], all, any, codes, false, if◌then◌else◌, nat_key, none, some,
  text_key, true, ℕ, ◌∷◌,
}

pub data JobConclusion : Type 0 where
  success failure timed_out cancelled skipped : JobConclusion

abbrev pub is_conclusion : JobConclusion → JobConclusion → Bool
is_conclusion success success = true
is_conclusion failure failure = true
is_conclusion timed_out timed_out = true
is_conclusion cancelled cancelled = true
is_conclusion skipped skipped = true
is_conclusion _ _ = false

-- JobConclusion::as_github_result
abbrev pub as_github_result : JobConclusion → Text
as_github_result success = codes "success"
as_github_result failure = codes "failure"
as_github_result timed_out = codes "failure"
as_github_result cancelled = codes "cancelled"
as_github_result skipped = codes "skipped"

abbrev pub contains_conclusion : JobConclusion → List JobConclusion → Bool
contains_conclusion c conclusions = any (is_conclusion c) conclusions

unfoldable pub aggregate_conclusions : List JobConclusion → JobConclusion
aggregate_conclusions conclusions =
    if contains_conclusion failure conclusions
    then failure
    else if contains_conclusion timed_out conclusions
    then timed_out
    else if contains_conclusion cancelled conclusions
    then cancelled
    else if all (is_conclusion skipped) conclusions
    then skipped
    else success

-- `any` over the conclusions of the needs, where the index of a missing one panics: `none`.
unfoldable pub any_completed :
    (JobConclusion → Bool) → List Text → Map Text JobConclusion → Option Bool
unfolding get
any_completed test [] completed = some false
any_completed test (dependency ∷ needs) completed =
    let rest = any_completed test needs completed in
    elim (get dependency completed) [ none ↦ none | some c ↦ if test c then some true else rest ]

abbrev pub is_failed : JobConclusion → Bool
is_failed failure = true
is_failed timed_out = true
is_failed _ = false

-- `if found { status } else { later }`, where the test may panic.
abbrev pub or_else : Option Bool → ExecutionStatus → Option ExecutionStatus → Option ExecutionStatus
or_else none status later = none
or_else (some true) status later = some status
or_else (some false) status later = later

unfoldable pub dependency_status : List Text → Map Text JobConclusion → Option ExecutionStatus
unfolding any_completed
dependency_status needs completed =
    or_else (any_completed (is_conclusion JobConclusion.cancelled) needs completed)
      ExecutionStatus.cancelled
      (or_else (any_completed is_failed needs completed) ExecutionStatus.failure (
        or_else (any_completed (is_conclusion JobConclusion.skipped) needs completed)
          ExecutionStatus.skipped (some ExecutionStatus.success)))

abbrev pub execution_status_result : ExecutionStatus → Text
execution_status_result ExecutionStatus.success = codes "success"
execution_status_result ExecutionStatus.failure = codes "failure"
execution_status_result ExecutionStatus.cancelled = codes "cancelled"
execution_status_result ExecutionStatus.skipped = codes "skipped"

-- How bad a conclusion is for a job of several conclusions.
abbrev pub severity : JobConclusion → ℕ
severity skipped = 0
severity success = 1
severity cancelled = 2
severity timed_out = 3
severity failure = 4

unfoldable pub worst : List JobConclusion → ℕ
worst [] = 0
worst (c ∷ conclusions) = max (severity c) (worst conclusions)

-- How bad the conclusion of a need is for the jobs behind it, and a status.
abbrev pub need_severity : JobConclusion → ℕ
need_severity success = 0
need_severity skipped = 1
need_severity failure = 2
need_severity timed_out = 2
need_severity cancelled = 3

abbrev pub status_severity : ExecutionStatus → ℕ
status_severity ExecutionStatus.success = 0
status_severity ExecutionStatus.skipped = 1
status_severity ExecutionStatus.failure = 2
status_severity ExecutionStatus.cancelled = 3

-- The worst need, or none when a need has no conclusion yet.
unfoldable pub worst_need : List Text → Map Text JobConclusion → Option ℕ
unfolding get
worst_need [] completed = some 0
worst_need (dependency ∷ needs) completed =
    let rest = worst_need needs completed in
    elim (get dependency completed) [
      | none ↦ none
      | some c ↦ elim rest [ none ↦ none | some n ↦ some (max (need_severity c) n) ]
    ]
