-- ===== src/Expression/Evaluate.antt =====
-- `EvaluationContext` of crates/gitzero-expression/src/lib.rs: the evaluation of a syntax tree.
use gitzero.Expression.Format.{format_values}
use gitzero.Expression.{
  success, failure, cancelled, skipped, success_call, always_call, cancelled_call, failure_call,
  contains_call, starts_with_call, ends_with_call, format_call, join_call, to_json_call,
  from_json_call, case_call, hash_files_call, and_op, or_op, eq_op, neq_op, gt_op, ge_op, lt_op,
  le_op, literal, star, identifier, index, call, context, binary, negation, no_exprs, expr, string,
  boolean, unknown_context, invalid_access, unsupported_function, json_conversion, Evaluation,
  Evaluated, EvaluationContext, ExecutionStatus, Function, BinOp, Expr, Exprs, Package,
}
use gitzero.Prelude.{
  to_ascii_lowercase, Bool, List, Option, Text, [], codes, false, if◌then◌else◌, map, nat_key, none,
  not, some, text_key, true, ◌∷◌,
}
use gitzero.Prelude.Result.{ok, err, ◌>>=◌, ok_or}
use gitzero.Prelude.Map.{get, insert}
use gitzero.Expression.Functions.{
  wildcard, access, finish, case_value, from_json_value, to_json_value, join, evaluate_literal,
  starts_or_ends_with, contains, one, Selection,
}

unfoldable pub status_is : ExecutionStatus → ExecutionStatus → Bool
status_is success success = true
status_is failure failure = true
status_is cancelled cancelled = true
status_is skipped skipped = true
status_is _ _ = false

-- The functions that are answered before any argument is evaluated.
unfoldable pub status_value : ExecutionStatus → Function → Option Bool
unfolding status_is
status_value status success_call = some (status_is status success)
status_value status always_call = some true
status_value status cancelled_call = some (status_is status cancelled)
status_value status failure_call = some (status_is status failure)
status_value status _ = none

module _ {N : Type 0} where
  abbrev pub empty_context : EvaluationContext N
  empty_context = record { roots = []; status = success; workspace = none }

  -- `insert_string`, and `insert_json` behind its conversion
  unfoldable pub insert_root : Text → Evaluation N → EvaluationContext N → EvaluationContext N
  insert_root name v c = record c { roots = insert (to_ascii_lowercase name) v c.roots }

  unfoldable pub lookup_root : EvaluationContext N → Text → Evaluated (Evaluation N)
  lookup_root c name = ok_or (get (to_ascii_lowercase name) c.roots) (unknown_context name)

module _ {N : Type 0} (p : Package N) where
  unfoldable pub hash_files : Option Text → List (Evaluation N) → Evaluated (Evaluation N)
  hash_files none arguments = err (unsupported_function (codes "hashFiles"))
  hash_files (some workspace) arguments = do
    digest ← p.hash_workspace workspace (map p.display arguments)
    ok (string digest)

  -- The dispatch on evaluated arguments.
  unfoldable pub apply_function :
      Option Text → Function → List (Evaluation N) → Evaluated (Evaluation N)
  unfolding hash_files
  apply_function workspace contains_call arguments = contains p arguments
  apply_function workspace starts_with_call arguments = starts_or_ends_with p arguments true
  apply_function workspace ends_with_call arguments = starts_or_ends_with p arguments false
  apply_function workspace format_call arguments = format_values p arguments
  apply_function workspace join_call arguments = join p arguments
  apply_function workspace to_json_call arguments = to_json_value p arguments
  apply_function workspace from_json_call arguments = from_json_value p arguments
  apply_function workspace case_call arguments = case_value p arguments
  apply_function workspace hash_files_call arguments = hash_files workspace arguments
  -- answered before: `unreachable!`
  apply_function workspace _ arguments = err json_conversion

  compare_values : BinOp → Evaluation N → Evaluation N → Bool
  compare_values eq_op l r = p.sema_eq l r
  compare_values neq_op l r = p.sema_ne l r
  compare_values gt_op l r = p.sema_gt l r
  compare_values ge_op l r = p.sema_ge l r
  compare_values lt_op l r = p.sema_lt l r
  compare_values le_op l r = p.sema_le l r
  -- handled before: `unreachable!`
  compare_values _ l r = false

  -- The right operand is the outcome of its evaluation, which is looked at only where it is needed.
  unfoldable pub evaluate_operator :
      BinOp → Evaluation N → Evaluated (Evaluation N) → Evaluated (Evaluation N)
  unfolding compare_values
  evaluate_operator and_op l right = if p.as_boolean l then right else ok l
  evaluate_operator or_op l right = if p.as_boolean l then ok l else right
  evaluate_operator op l right = do r ← right; ok (boolean (compare_values op l r))

  -- `evaluate_call`; the outcome of the arguments is looked at only where they are evaluated.
  unfoldable pub evaluate_call :
      ExecutionStatus
      → Option Text
      → Function
      → Evaluated (List (Evaluation N))
      → Evaluated (Evaluation N)
  unfolding status_value apply_function
  evaluate_call status workspace f outcome = elim (status_value status f) [
    | some b ↦ ok (boolean b)
    | none ↦ outcome >>= apply_function workspace f
  ]

  module _ (c : EvaluationContext N) where
    unfoldable mutual
      unfolding lookup_root evaluate_operator evaluate_call

      pub evaluate_expr : Expr N → Evaluated (Evaluation N)
      evaluate_expr (literal l) = ok (evaluate_literal l)
      evaluate_expr (context parts) = evaluate_context parts
      evaluate_expr (call f arguments) =
          evaluate_call c.status c.workspace f (evaluate_all arguments)
      evaluate_expr (binary op l r) =
          evaluate_expr l >>= λ v. evaluate_operator op v (evaluate_expr r)
      evaluate_expr (negation e) = evaluate_expr e >>= λ v. ok (boolean (not (p.as_boolean v)))
      evaluate_expr (identifier name) = lookup_root c name
      evaluate_expr (index e) = evaluate_expr e
      evaluate_expr star = err (invalid_access (codes "*") (codes "a root expression"))

      -- The arguments of a call, in order.
      pub evaluate_all : Exprs N → Evaluated (List (Evaluation N))
      evaluate_all no_exprs = ok []
      evaluate_all (expr e es) = evaluate_expr e >>= λ v. evaluate_all es >>= λ vs. ok (v ∷ vs)

      -- The head of a context is looked up or evaluated, which for an identifier is the same.
      pub evaluate_context : Exprs N → Evaluated (Evaluation N)
      evaluate_context no_exprs = err (unknown_context [])
      evaluate_context (expr head parts) =
          evaluate_expr head >>= λ first. select (one first) parts >>= λ s. ok (finish s)

      -- The loop over the parts behind the head.
      pub select : Selection N → Exprs N → Evaluated (Selection N)
      select s no_exprs = ok s
      select s (expr (identifier name) parts) = access p s (string name) >>= λ t. select t parts
      select s (expr star parts) = wildcard s >>= λ t. select t parts
      select s (expr (index e) parts) =
          evaluate_expr e >>= λ v. access p s v >>= λ t. select t parts
      select s (expr other parts) =
          evaluate_expr other >>= λ v. access p s v >>= λ t. select t parts
