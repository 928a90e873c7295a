-- ===== src/Expression/Sound.antt =====
-- The evaluator beside `ExpressionAnalysis` (crates/gitzero-expression/src/lib.rs).
use gitzero.Expression.Functions.{evaluate_literal, wildcard, access, one, Selection}
use gitzero.Expression.Evaluate.{
  evaluate_operator, evaluate_call, lookup_root, select, evaluate_context, evaluate_all,
  evaluate_expr,
}
use gitzero.Prelude.{
  to_ascii_lowercase, ==_refl, List, Text, ap, arith, nat_key, refl, text_key, true, ◌∙◌, ◌≡◌,
}
use gitzero.Prelude.Map.{get, contains_key, get-insert}
use gitzero.Prelude.Result.{>>=-cong, ok_or}
use gitzero.Expression.{
  string, unknown_context, success_call, failure_call, cancelled_call, always_call, hash_files_call,
  literal, star, identifier, index, call, context, binary, negation, no_exprs, expr, Expr, Exprs,
  Function, Package, EvaluationContext, Evaluation, Evaluated,
}
use gitzero.Expression.Analysis.{
  default_analysis, analyze_parts, analyze_context, analyze_all, insert_context_root, note_function,
  ExpressionAnalysis, analyze,
}

-- `a` reports nothing that `b` does not.
pub record Within (a b : ExpressionAnalysis) : Type 0 where
  pub roots :
      (k : Text) → contains_key k a.context_roots ≡ true → contains_key k b.context_roots ≡ true
  pub status : a.uses_status_function ≡ true → b.uses_status_function ≡ true
  pub hash_files : a.uses_hash_files ≡ true → b.uses_hash_files ≡ true

-- Two contexts have the same values where an analysis says that they are used.
pub record Agree {N : Type 0} (a : ExpressionAnalysis) (c d : EvaluationContext N) : Type 0 where
  pub roots : (k : Text) → contains_key k a.context_roots ≡ true → get k c.roots ≡ get k d.roots
  pub status : a.uses_status_function ≡ true → c.status ≡ d.status
  pub workspace : a.uses_hash_files ≡ true → c.workspace ≡ d.workspace

pub Within-refl : (a : ExpressionAnalysis) → Within a a
Within-refl a = record { roots = λ k h. h; status = λ h. h; hash_files = λ h. h }

pub Within-trans : {a b c : ExpressionAnalysis} → Within a b → Within b c → Within a c
Within-trans p q = record {
  roots = λ k h. q.roots k (p.roots k h);
  status = λ h. q.status (p.status h);
  hash_files = λ h. q.hash_files (p.hash_files h);
}

pub Agree-Within :
    {N : Type 0} {a b : ExpressionAnalysis} {c d : EvaluationContext N}
    → Within a b
    → Agree b c d
    → Agree a c d
Agree-Within w g = record {
  roots = λ k h. g.roots k (w.roots k h);
  status = λ h. g.status (w.status h);
  workspace = λ h. g.workspace (w.hash_files h);
}

Within-insert_context_root :
    (name : Text) (a : ExpressionAnalysis) → Within a (insert_context_root name a)
unfolding insert_context_root
Within-insert_context_root name a = record {
  roots = λ k h. ground (arith, get-insert (to_ascii_lowercase name) k tt a.context_roots);
  status = λ h. h;
  hash_files = λ h. h;
}

Within-note_function : (f : Function) (a : ExpressionAnalysis) → Within a (note_function f a)
unfolding note_function
Within-note_function f a = record {
  roots = λ k h. h;
  status = λ h. ground arith;
  hash_files = λ h. ground arith;
}

module _ {N : Type 0} where
  mutual
    unfolding analyze

    Within-analyze : (e : Expr N) (a : ExpressionAnalysis) → Within a (analyze e a)
    Within-analyze (literal l) a = Within-refl a
    Within-analyze star a = Within-refl a
    Within-analyze (identifier name) a = Within-insert_context_root name a
    Within-analyze (index e) a = Within-analyze e a
    Within-analyze (call f arguments) a =
        Within-trans (Within-note_function f a) (Within-analyze_all arguments (note_function f a))
    Within-analyze (context parts) a = Within-analyze_context parts a
    Within-analyze (binary op l r) a =
        Within-trans (Within-analyze l a) (Within-analyze r (analyze l a))
    Within-analyze (negation e) a = Within-analyze e a

    Within-analyze_all : (es : Exprs N) (a : ExpressionAnalysis) → Within a (analyze_all es a)
    Within-analyze_all no_exprs a = Within-refl a
    Within-analyze_all (expr e es) a =
        Within-trans (Within-analyze e a) (Within-analyze_all es (analyze e a))

    Within-analyze_context :
        (es : Exprs N) (a : ExpressionAnalysis) → Within a (analyze_context es a)
    Within-analyze_context no_exprs a = Within-refl a
    Within-analyze_context (expr e es) a =
        Within-trans (Within-analyze e a) (Within-analyze_parts es (analyze e a))

    Within-analyze_parts : (es : Exprs N) (a : ExpressionAnalysis) → Within a (analyze_parts es a)
    Within-analyze_parts no_exprs a = Within-refl a
    Within-analyze_parts (expr (identifier name) es) a = Within-analyze_parts es a
    Within-analyze_parts (expr star es) a = Within-analyze_parts es a
    Within-analyze_parts (expr (literal l) es) a = Within-analyze_parts es a
    Within-analyze_parts (expr (index e) es) a =
        Within-trans (Within-analyze e a) (Within-analyze_parts es (analyze e a))
    Within-analyze_parts (expr e es) a =
        Within-trans (Within-analyze e a) (Within-analyze_parts es (analyze e a))

module _ {N : Type 0} (p : Package N) (c d : EvaluationContext N) where
  lookup_root-Agree :
      (name : Text) (a : ExpressionAnalysis)
      → Agree (insert_context_root name a) c d
      → lookup_root c name ≡ lookup_root d name
  unfolding lookup_root insert_context_root
  lookup_root-Agree name a g =
      ap (λ v. ok_or v (unknown_context name))
        (g.roots (to_ascii_lowercase name) (
          ground (
            arith,
            get-insert (to_ascii_lowercase name) (to_ascii_lowercase name) tt a.context_roots,
            ==_refl (to_ascii_lowercase name),
          )))

  evaluate_call-Agree :
      (f : Function) (a : ExpressionAnalysis) (outcome : Evaluated (List (Evaluation N)))
      → Agree (note_function f a) c d
      → evaluate_call p c.status c.workspace f outcome
        ≡ evaluate_call p d.status d.workspace f outcome
  unfolding evaluate_call note_function
  evaluate_call-Agree success_call a o g = rw (g.status (ground arith))
  evaluate_call-Agree always_call a o g = refl
  evaluate_call-Agree cancelled_call a o g = rw (g.status (ground arith))
  evaluate_call-Agree failure_call a o g = rw (g.status (ground arith))
  evaluate_call-Agree hash_files_call a o g = rw (g.workspace (ground arith))
  evaluate_call-Agree _ a o g = refl

  mutual
    unfolding analyze evaluate_expr

    sound :
        (e : Expr N) (a : ExpressionAnalysis)
        → Agree (analyze e a) c d
        → evaluate_expr p c e ≡ evaluate_expr p d e
    sound (literal l) a g = refl
    sound star a g = refl
    sound (identifier name) a g = lookup_root-Agree name a g
    sound (index e) a g = sound e a g
    sound (call f arguments) a g =
        ap (evaluate_call p c.status c.workspace f) (sound_all arguments (note_function f a) g)
        ∙ evaluate_call-Agree f a (evaluate_all p d arguments)
            (Agree-Within (Within-analyze_all arguments (note_function f a)) g)
    sound (context parts) a g = sound_context parts a g
    sound (binary op l r) a g =
        >>=-cong (sound l a (Agree-Within (Within-analyze r (analyze l a)) g))
          (λ v. ap (evaluate_operator p op v) (sound r (analyze l a) g))
    sound (negation e) a g = >>=-cong (sound e a g) (λ v. refl)

    sound_all :
        (es : Exprs N) (a : ExpressionAnalysis)
        → Agree (analyze_all es a) c d
        → evaluate_all p c es ≡ evaluate_all p d es
    sound_all no_exprs a g = refl
    sound_all (expr e es) a g =
        >>=-cong (sound e a (Agree-Within (Within-analyze_all es (analyze e a)) g))
          (λ v. >>=-cong (sound_all es (analyze e a) g) (λ vs. refl))

    sound_context :
        (es : Exprs N) (a : ExpressionAnalysis)
        → Agree (analyze_context es a) c d
        → evaluate_context p c es ≡ evaluate_context p d es
    sound_context no_exprs a g = refl
    sound_context (expr e es) a g =
        >>=-cong (sound e a (Agree-Within (Within-analyze_parts es (analyze e a)) g))
          (λ v. >>=-cong (sound_parts es (analyze e a) g (one v)) (λ s. refl))

    sound_parts :
        (es : Exprs N) (a : ExpressionAnalysis)
        → Agree (analyze_parts es a) c d
        → (s : Selection N) → select p c s es ≡ select p d s es
    sound_parts no_exprs a g s = refl
    sound_parts (expr (identifier name) es) a g s =
        >>=-cong {m = access p s (string name)} refl (sound_parts es a g)
    sound_parts (expr star es) a g s = >>=-cong {m = wildcard s} refl (sound_parts es a g)
    sound_parts (expr (literal l) es) a g s =
        >>=-cong {m = access p s (evaluate_literal l)} refl (sound_parts es a g)
    sound_parts (expr (index e) es) a g s =
        >>=-cong (sound e a (Agree-Within (Within-analyze_parts es (analyze e a)) g))
          (λ v. >>=-cong {m = access p s v} refl (sound_parts es (analyze e a) g))
    sound_parts (expr e es) a g s =
        >>=-cong (sound e a (Agree-Within (Within-analyze_parts es (analyze e a)) g))
          (λ v. >>=-cong {m = access p s v} refl (sound_parts es (analyze e a) g))

-- The value of an expression, or its error, depends on no context root, on no status of the run
-- and on no workspace that its analysis does not report.
pub evaluate-Agree :
    {N : Type 0} (p : Package N) (e : Expr N) (c d : EvaluationContext N)
    → Agree (analyze e default_analysis) c d
    → evaluate_expr p c e ≡ evaluate_expr p d e
evaluate-Agree p e c d g = sound p c d e default_analysis g
