-- ===== src/Schedule/Tests.antt =====
-- Runs of the scheduler, and the theorems at concrete ones.
use gitzero.Prelude.Strings.{contains_text}
use gitzero.Concurrency.{Queue}
use gitzero.Schedule.Allowed.{condition_allows_failed, IsAllowed}
use gitzero.Schedule.FailFast.{fail_fast_stops}
use gitzero.Schedule.Groups.{resolve_concurrency_iff, IsConcurrency}
use gitzero.Expression.Template.{render, unwrap_expression, is_whitespace, evaluate_condition}
use gitzero.Prelude.Result.{ok}
use gitzero.Expression.Tests.{names}
use gitzero.Expression.Evaluate.{evaluate_expr, empty_context, insert_root, status_is}
use gitzero.Expression.{boolean, ExecutionStatus, EvaluationContext}
use gitzero.Schedule.Conditions.{
  condition_allows, planned_max, resolve_rendered, PlannedConcurrency, resolve_concurrency,
}
use mathlib.Core.Option
use gitzero.Schedule.Worst.{dependency_status-worst_need, aggregate_conclusions-worst}
use gitzero.Prelude.Sets.{insert_element}
use gitzero.Schedule.Parallel.{turns-IsBounded, IsBounded, IsIdle}
use gitzero.Schedule.Reusable.{
  MatrixResult, finishes, expands, insert_runtimes, reusable_matrix_runtimes, starts,
  find_invocation, here, next, start_group, finish_reusable_matrix_invocation, new_runtime,
  start_reusable_matrix_invocation, Groups, ReusableMatrixRuntime, reusable_matrix_gate_can_start,
}
use gitzero.Prelude.Map.{insert, Map, get}
use gitzero.Schedule.Conclusions.{
  any_completed, dependency_status, status_severity, worst, timed_out, failure, success,
  JobConclusion, aggregate_conclusions, severity, worst_need,
}
use gitzero.Prelude.{
  List, ◌↔◌, ◌≢◌, text_less, ascii_lower, ℕ, Text, [], codes, false, nat_key, refl, some, text_beq,
  text_key, true, ◌∷◌, ◌≡◌,
}

aggregate_conclusions-worst_example :
    severity (aggregate_conclusions (success ∷ timed_out ∷ [])) ≡ worst (success ∷ timed_out ∷ [])
aggregate_conclusions-worst_example = aggregate_conclusions-worst (success ∷ timed_out ∷ [])

abbrev ended : Map Text JobConclusion
ended = (codes "a", success) ∷ (codes "b", timed_out) ∷ []

ended_worst : worst_need (codes "a" ∷ codes "b" ∷ []) ended ≡ some 2
unfolding worst_need get text_beq
ended_worst = refl

dependency_status-worst_need_example :
    Option.map status_severity (dependency_status (codes "a" ∷ codes "b" ∷ []) ended) ≡ some 2
dependency_status-worst_need_example =
    dependency_status-worst_need (codes "a" ∷ codes "b" ∷ []) ended 2 ended_worst

-- One call at a time, of two.
abbrev calls : ReusableMatrixRuntime
calls = new_runtime (codes "x" ∷ codes "y" ∷ []) 1 true

abbrev groups : Groups
groups = (codes "m", calls) ∷ []

abbrev running : Groups
running = start_reusable_matrix_invocation groups (codes "x::gate")

groups-IsIdle : IsIdle groups
unfolding IsIdle
groups-IsIdle = (refl, tt)

may_start : reusable_matrix_gate_can_start groups (codes "x::gate") ≡ true
unfolding reusable_matrix_gate_can_start text_beq
may_start = refl

may_not_start : reusable_matrix_gate_can_start running (codes "y::gate") ≡ false
unfolding reusable_matrix_gate_can_start start_reusable_matrix_invocation start_group
    find_invocation insert_element text_beq
may_not_start = refl

turns-IsBounded_example : IsBounded running
turns-IsBounded_example =
    turns-IsBounded groups-IsIdle (next here (starts (codes "x::gate") may_start))

found_group : get (codes "m") groups ≡ some calls
unfolding get text_beq
found_group = refl

-- The first call has failed, the second job ends well, and a further job is expanded.
abbrev more : List MatrixResult
more =
    record {
      base_id = codes "n";
      invocations = codes "z" ∷ [];
      max_parallel = 1;
      fail_fast = false;
    }
    ∷ []

abbrev failed_groups : Groups
failed_groups = (finish_reusable_matrix_invocation groups (codes "x") failure).0

abbrev further : Groups
further =
    insert_runtimes (reusable_matrix_runtimes more)
      (finish_reusable_matrix_invocation failed_groups (codes "y") success).0

fail_fast_stops_example : reusable_matrix_gate_can_start further (codes "y::gate") ≡ false
unfolding text_beq
fail_fast_stops_example =
    fail_fast_stops groups further (codes "m") (codes "x") (codes "y::gate") failure calls
      found_group refl refl refl refl
      (next (next here (finishes (codes "y") success)) (expands more))

-- A group with the queue `max`, whose cancellation is an expression.
abbrev shared : PlannedConcurrency
shared = record { group = codes " deploy"; cancel_in_progress = codes "x"; queue = planned_max }

abbrev decided_context : EvaluationContext ℕ
decided_context =
    insert_root (codes "x") (boolean false)
      (insert_root (codes "always(") (boolean true) empty_context)

shared_resolved :
    resolve_concurrency names shared decided_context ≡ some (ok (codes "deploy", false, Queue.max))
unfolding resolve_concurrency resolve_rendered text_beq render evaluate_condition evaluate_expr get
    insert_root insert ascii_lower text_less unwrap_expression
shared_resolved = refl

resolve_concurrency_iff_example :
    (resolve_concurrency names shared decided_context
      ≡ some (ok (codes "deploy", false, Queue.max)))
    ↔ IsConcurrency names shared decided_context (codes "deploy") false Queue.max
resolve_concurrency_iff_example =
    resolve_concurrency_iff names shared decided_context (codes "deploy") false Queue.max

is_shared : IsConcurrency names shared decided_context (codes "deploy") false Queue.max
is_shared =
    (resolve_concurrency_iff names shared decided_context (codes "deploy") false Queue.max).0
      shared_resolved

allowed :
    condition_allows names
      (λ c. c ∷ [])
      (some (codes "always("))
      ExecutionStatus.failure
      decided_context
    ≡ ok true
unfolding condition_allows text_beq status_is contains_text is_whitespace evaluate_condition
    evaluate_expr get insert_root insert ascii_lower text_less unwrap_expression
allowed = refl

not_successful : timed_out ≢ success
not_successful e = cc

behind_timeout : dependency_status (codes "a" ∷ codes "b" ∷ []) ended ≡ some ExecutionStatus.failure
unfolding dependency_status any_completed get text_beq
behind_timeout = refl

ended_late : get (codes "b") ended ≡ some timed_out
unfolding get text_beq
ended_late = refl

condition_allows_failed_example :
    (condition_allows names
        (λ c. c ∷ [])
        (some (codes "always("))
        ExecutionStatus.failure
        decided_context
      ≡ ok true)
    ↔ IsAllowed names (λ c. c ∷ []) (some (codes "always(")) decided_context
unfolding text_beq
condition_allows_failed_example =
    condition_allows_failed names (λ c. c ∷ []) (codes "a" ∷ codes "b" ∷ []) ended (codes "b")
      timed_out (some (codes "always(")) ExecutionStatus.failure decided_context refl ended_late
      not_successful behind_timeout

is_allowed : IsAllowed names (λ c. c ∷ []) (some (codes "always(")) decided_context
unfolding text_beq
is_allowed =
    (condition_allows_failed names (λ c. c ∷ []) (codes "a" ∷ codes "b" ∷ []) ended (codes "b")
        timed_out (some (codes "always(")) ExecutionStatus.failure decided_context refl ended_late
        not_successful behind_timeout).0
      allowed
