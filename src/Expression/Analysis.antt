-- ===== src/Expression/Analysis.antt =====
-- `ExpressionAnalysis` of crates/gitzero-expression/src/lib.rs: the contexts and the features of
-- the runner that an expression uses.
use gitzero.Prelude.{to_ascii_lowercase, Bool, Text, [], false, nat_key, text_key, true, ◌||◌, ◌∷◌}
use gitzero.Prelude.Map.{Map, insert}
use gitzero.Expression.{
  success_call, failure_call, cancelled_call, always_call, hash_files_call, literal, star,
  identifier, index, call, context, binary, negation, no_exprs, expr, Expr, Exprs, Function,
}

-- The `BTreeSet` of root contexts is a map to no value.
pub record ExpressionAnalysis : Type 0 where
  pub context_roots : Map Text (Unit {0})
  pub uses_status_function : Bool
  pub uses_hash_files : Bool

abbrev pub default_analysis : ExpressionAnalysis
default_analysis = record {
  context_roots = [];
  uses_status_function = false;
  uses_hash_files = false;
}

unfoldable pub insert_context_root : Text → ExpressionAnalysis → ExpressionAnalysis
insert_context_root name a = record a {
  context_roots = insert (to_ascii_lowercase name) tt a.context_roots;
}

abbrev pub is_status_function : Function → Bool
is_status_function success_call = true
is_status_function always_call = true
is_status_function cancelled_call = true
is_status_function failure_call = true
is_status_function _ = false

abbrev pub is_hash_files : Function → Bool
is_hash_files hash_files_call = true
is_hash_files _ = false

unfoldable pub note_function : Function → ExpressionAnalysis → ExpressionAnalysis
note_function f a = record a {
  uses_status_function = a.uses_status_function || is_status_function f;
  uses_hash_files = a.uses_hash_files || is_hash_files f;
}

-- `context_roots.extend(..)`
unfoldable pub extend_roots : Map Text (Unit {0}) → Map Text (Unit {0}) → Map Text (Unit {0})
extend_roots roots [] = roots
extend_roots roots ((k, u) ∷ more) = extend_roots (insert k u roots) more

unfoldable pub merge : ExpressionAnalysis → ExpressionAnalysis → ExpressionAnalysis
unfolding extend_roots
merge a b = record {
  context_roots = extend_roots a.context_roots b.context_roots;
  uses_status_function = a.uses_status_function || b.uses_status_function;
  uses_hash_files = a.uses_hash_files || b.uses_hash_files;
}

-- The analysis is updated in place: each function returns what it leaves.
module _ {N : Type 0} where
  unfoldable mutual
    unfolding insert_context_root note_function

    pub analyze : Expr N → ExpressionAnalysis → ExpressionAnalysis
    analyze (literal l) a = a
    analyze star a = a
    analyze (identifier name) a = insert_context_root name a
    analyze (index e) a = analyze e a
    analyze (call f arguments) a = analyze_all arguments (note_function f a)
    analyze (context parts) a = analyze_context parts a
    analyze (binary op l r) a = analyze r (analyze l a)
    analyze (negation e) a = analyze e a

    pub analyze_all : Exprs N → ExpressionAnalysis → ExpressionAnalysis
    analyze_all no_exprs a = a
    analyze_all (expr e es) a = analyze_all es (analyze e a)

    -- An identifier at the head is a root, as it is where it stands alone.
    pub analyze_context : Exprs N → ExpressionAnalysis → ExpressionAnalysis
    analyze_context no_exprs a = a
    analyze_context (expr head parts) a = analyze_parts parts (analyze head a)

    -- The parts behind the head: property names, stars and literals use nothing.
    pub analyze_parts : Exprs N → ExpressionAnalysis → ExpressionAnalysis
    analyze_parts no_exprs a = a
    analyze_parts (expr (identifier name) parts) a = analyze_parts parts a
    analyze_parts (expr star parts) a = analyze_parts parts a
    analyze_parts (expr (literal l) parts) a = analyze_parts parts a
    analyze_parts (expr (index e) parts) a = analyze_parts parts (analyze e a)
    analyze_parts (expr other parts) a = analyze_parts parts (analyze other a)
