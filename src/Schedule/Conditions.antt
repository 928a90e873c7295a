-- ===== src/Schedule/Conditions.antt =====
-- `condition_allows`, `contains_status_function` and `resolve_concurrency` of
use gitzero.Expression.Evaluate.{status_is}
use gitzero.Prelude.Strings.{contains_text}
use gitzero.Expression.Template.{evaluate_condition, render, is_whitespace, trim}
use gitzero.Prelude.Result.{◌>>=◌, err, ok, Result}
use gitzero.Concurrency.{single, Queue}
use gitzero.Prelude.Utf8.{byte_len}
use gitzero.Expression.{EvaluationContext, ExecutionStatus, Evaluated, ExpressionError, Package}
use gitzero.Prelude.{
  Bool, List, Option, Text, [], any, codes, false, if◌then◌else◌, ltb, nat_beq, nat_key, none, not,
  some, text_key, true, ℕ, ◌&&◌, ◌++◌, ◌||◌, ◌∷◌,
}

-- crates/gitzero-agent/src/executor.rs. `char::to_lowercase` is a parameter.

-- PlannedConcurrencyQueue and PlannedConcurrency.
pub data PlannedQueue : Type 0 where
  planned_single planned_max : PlannedQueue

pub record PlannedConcurrency : Type 0 where
  pub group : Text
  pub cancel_in_progress : Text
  pub queue : PlannedQueue

-- The refusals of `resolve_concurrency`, without their texts.
pub data ConcurrencyError : Type 0 where
  expression : ExpressionError → ConcurrencyError
  invalid_group max_with_cancel : ConcurrencyError

abbrev pub status_functions : List Text
status_functions = codes "success(" ∷ codes "failure(" ∷ codes "cancelled(" ∷ codes "always(" ∷ []

abbrev pub is_forbidden : ℕ → Bool
is_forbidden c = nat_beq c 0 || nat_beq c 10 || nat_beq c 13

abbrev pub is_empty : Text → Bool
is_empty [] = true
is_empty _ = false

-- Whether a resolved group is refused.
abbrev pub is_invalid_group : Text → Bool
is_invalid_group group = is_empty group || ltb 256 (byte_len group) || any is_forbidden group

abbrev pub queue_of : PlannedQueue → Queue
queue_of planned_single = single
queue_of planned_max = Queue.max

abbrev pub is_max : Queue → Bool
is_max single = false
is_max Queue.max = true

abbrev pub as_expression : {A : Type 0} → Evaluated A → Result ConcurrencyError A
as_expression (ok a) = ok a
as_expression (err e) = err (expression e)

module _ {N : Type 0} (p : Package N) (to_lowercase : ℕ → Text) where
  -- The condition without white space, in lower case.
  unfoldable pub compact : Text → Text
  compact [] = []
  compact (c ∷ s) = let rest = compact s in if is_whitespace c then rest else to_lowercase c ++ rest

  unfoldable pub contains_status_function : Text → Bool
  unfolding compact
  contains_status_function condition =
      any (λ function. contains_text (compact condition) function) status_functions

  unfoldable pub condition_allows :
      Option Text → ExecutionStatus → EvaluationContext N → Evaluated Bool
  unfolding contains_status_function
  condition_allows none status context = ok (status_is status ExecutionStatus.success)
  condition_allows (some condition) status context =
      if not (status_is status ExecutionStatus.success) && not (contains_status_function condition)
      then ok false
      else evaluate_condition p context condition

module _ {N : Type 0} (p : Package N) where
  -- What follows the rendering of the group.
  unfoldable pub resolve_rendered :
      PlannedConcurrency
      → EvaluationContext N
      → Text
      → Result ConcurrencyError (Text × Bool × Queue)
  unfolding trim
  resolve_rendered concurrency context rendered =
      let group = trim rendered in
      if is_invalid_group group
      then err invalid_group
      else as_expression (evaluate_condition p context concurrency.cancel_in_progress)
        >>= λ cancel_in_progress.
            let queue = queue_of concurrency.queue in
            if is_max queue && cancel_in_progress
            then err max_with_cancel
            else ok (group, cancel_in_progress, queue)

  -- What is made of the rendered group; the fuel of `render` may run out, which is none.
  abbrev pub resolve_group :
      PlannedConcurrency
      → EvaluationContext N
      → Option (Evaluated Text)
      → Option (Result ConcurrencyError (Text × Bool × Queue))
  resolve_group concurrency context none = none
  resolve_group concurrency context (some rendered) =
      some (as_expression rendered >>= resolve_rendered concurrency context)

  unfoldable pub resolve_concurrency :
      PlannedConcurrency
      → EvaluationContext N
      → Option (Result ConcurrencyError (Text × Bool × Queue))
  unfolding resolve_rendered
  resolve_concurrency concurrency context =
      resolve_group concurrency context (render p context concurrency.group)
