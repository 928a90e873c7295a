-- ===== src/Expression.antt =====
-- crates/gitzero-expression/src/lib.rs: the syntax trees and the values of GitHub Actions
-- expressions, the errors, and what the crate takes from other packages. The constructors are
-- those that its exhaustive matches name. `N` is the type of the numbers, `f64`.
pub mod Roots
pub mod Tests
pub mod Laws
pub mod Body
pub mod RenderSound
pub mod Render
pub mod Template
pub mod Sound
pub mod Analysis
pub mod Evaluate
pub mod Format
pub mod Functions
use gitzero.Prelude.{ℕ, Bool, List, [], ◌∷◌, Option, Text}
use gitzero.Prelude.Map.{Map}
use gitzero.Prelude.Result.{Result}

pub data ExecutionStatus : Type 0 where
  success failure cancelled skipped : ExecutionStatus

-- The functions that the evaluator dispatches on.
pub data Function : Type 0 where
  success_call always_call cancelled_call failure_call : Function
  contains_call starts_with_call ends_with_call format_call join_call : Function
  to_json_call from_json_call case_call hash_files_call : Function

pub data BinOp : Type 0 where
  and_op or_op eq_op neq_op gt_op ge_op lt_op le_op : BinOp

pub data Literal (N : Type 0) : Type 0 where
  string_literal : Text → Literal N
  number_literal : N → Literal N
  boolean_literal : Bool → Literal N
  null_literal : Literal N

mutual
  pub data Expr (N : Type 0) : Type 0 where
    literal : Literal N → Expr N
    star : Expr N
    identifier : Text → Expr N
    index : Expr N → Expr N
    call : Function → Exprs N → Expr N
    context : Exprs N → Expr N
    binary : BinOp → Expr N → Expr N → Expr N
    negation : Expr N → Expr N

  pub data Exprs (N : Type 0) : Type 0 where
    no_exprs : Exprs N
    expr : Expr N → Exprs N → Exprs N

-- `Evaluation`; an object's fields stand in the order in which its map iterates.
mutual
  pub data Evaluation (N : Type 0) : Type 0 where
    string : Text → Evaluation N
    number : N → Evaluation N
    boolean : Bool → Evaluation N
    null : Evaluation N
    array : Elements N → Evaluation N
    object : Fields N → Evaluation N

  pub data Elements (N : Type 0) : Type 0 where
    no_elements : Elements N
    element : Evaluation N → Elements N → Elements N

  pub data Fields (N : Type 0) : Type 0 where
    no_fields : Fields N
    field : Text → Evaluation N → Fields N → Fields N

pub data ExpressionError : Type 0 where
  parse_error : ExpressionError
  unknown_context : Text → ExpressionError
  invalid_access : Text → Text → ExpressionError
  unsupported_function : Text → ExpressionError
  invalid_function : Text → ExpressionError
  hash_files_error : ExpressionError
  unclosed_template : ExpressionError
  json_conversion : ExpressionError

abbrev pub Evaluated : Type 0 → Type 0
Evaluated A = Result ExpressionError A

-- What the crate calls and does not define: the parser and the coercions of the package
-- github-actions-expressions (`Expr::parse`, `as_boolean`, `sema()` with its printing and its
-- comparisons), JSON conversion (serde_json), `str::to_uppercase`, the conversion of an `f64` with
-- no fraction and no sign to an index, and the file hashing behind `hashFiles`.
pub record Package (N : Type 0) : Type 0 where
  pub parse : Text → Option (Expr N)
  pub as_boolean : Evaluation N → Bool
  pub display : Evaluation N → Text
  pub sema_eq : Evaluation N → Evaluation N → Bool
  pub sema_ne : Evaluation N → Evaluation N → Bool
  pub sema_gt : Evaluation N → Evaluation N → Bool
  pub sema_ge : Evaluation N → Evaluation N → Bool
  pub sema_lt : Evaluation N → Evaluation N → Bool
  pub sema_le : Evaluation N → Evaluation N → Bool
  pub to_uppercase : Text → Text
  pub number_index : N → Option ℕ
  pub to_json : Evaluation N → Option Text
  -- `none`: no JSON; `some none`: no value for the JSON
  pub from_json : Text → Option (Option (Evaluation N))
  pub hash_workspace : Text → List Text → Evaluated Text

-- `EvaluationContext`
pub record EvaluationContext (N : Type 0) : Type 0 where
  pub roots : Map Text (Evaluation N)
  pub status : ExecutionStatus
  pub workspace : Option Text

module _ {N : Type 0} where
  abbrev pub elements : Elements N → List (Evaluation N)
  elements no_elements = []
  elements (element v vs) = v ∷ elements vs

  abbrev pub array_of : List (Evaluation N) → Elements N
  array_of [] = no_elements
  array_of (v ∷ vs) = element v (array_of vs)

  abbrev pub field_values : Fields N → List (Evaluation N)
  field_values no_fields = []
  field_values (field k v fs) = v ∷ field_values fs
