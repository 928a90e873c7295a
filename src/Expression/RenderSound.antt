-- ===== src/Expression/RenderSound.antt =====
-- `EvaluationContext::render` beside `analyze_template` (crates/gitzero-expression/src/lib.rs).
use gitzero.Prelude.{
  Option, Text, [], arith, length, nat_key, none, refl, some, subst, suc, text_key, zero, ℕ, ◌||◌,
  ◌∷◌, ◌≡◌,
}
use gitzero.Prelude.Map.{Map, insert, get, contains_key, get-insert}
use gitzero.Prelude.Result.{ok, err, ◌>>=◌, ok_or}
use gitzero.Expression.{Expr, Package, EvaluationContext, Evaluated, parse_error}
use gitzero.Expression.Analysis.{extend_roots, ExpressionAnalysis, default_analysis, analyze, merge}
use gitzero.Expression.Evaluate.{evaluate_expr}
use gitzero.Expression.Template.{
  render_value, analyze_value, analyze_round, analyze_template, next_expression, render_round,
  unwrap_expression, analyze_from, evaluate, Scan, found, unclosed, plain, analyze_expression,
  render_from, render,
}
use gitzero.Expression.Sound.{
  Within, Agree, Agree-Within, Within-refl, Within-trans, evaluate-Agree,
}

get-extend_roots :
    (k : Text) (a b : Map Text (Unit {0}))
    → contains_key k (extend_roots a b) ≡ (contains_key k a || contains_key k b)
unfolding extend_roots get
get-extend_roots k a [] = ground arith
get-extend_roots k a ((j, u) ∷ b) =
    ground (arith, get-extend_roots k (insert j u a) b, get-insert j k u a)

Within-merge-left : (a b : ExpressionAnalysis) → Within a (merge a b)
unfolding merge
Within-merge-left a b = record {
  roots = λ k h. ground (arith, get-extend_roots k a.context_roots b.context_roots);
  status = λ h. ground arith;
  hash_files = λ h. ground arith;
}

Within-merge-right : (a b : ExpressionAnalysis) → Within b (merge a b)
unfolding merge
Within-merge-right a b = record {
  roots = λ k h. ground (arith, get-extend_roots k a.context_roots b.context_roots);
  status = λ h. ground arith;
  hash_files = λ h. ground arith;
}

module _ {N : Type 0} (p : Package N) where
  evaluate-Agree_source :
      (source : Text) (c d : EvaluationContext N) (b : ExpressionAnalysis)
      → analyze_expression p source ≡ ok b
      → Agree b c d
      → evaluate p c source ≡ evaluate p d source
  unfolding analyze_expression evaluate
  evaluate-Agree_source source c d b = go (p.parse (unwrap_expression source))
    where
      go :
          (o : Option (Expr N))
          → (ok_or o parse_error >>= λ e. ok (analyze e default_analysis)) ≡ ok b
          → Agree b c d
          → (ok_or o parse_error >>= λ e. evaluate_expr p c e)
            ≡ (ok_or o parse_error >>= λ e. evaluate_expr p d e)
      go none h g = refl
      go (some e) h g =
          let same : b ≡ analyze e default_analysis = cc in
          evaluate-Agree p e c d (subst (λ x. Agree x c d) same g)

  module _ (b : ExpressionAnalysis) where
    analyze_round-Within :
        (a : ExpressionAnalysis) (sc : Scan)
        (next : Text → ExpressionAnalysis → Option (Evaluated ExpressionAnalysis))
        → ((rest : Text) (e : ExpressionAnalysis) → next rest e ≡ some (ok b) → Within e b)
        → analyze_round p a sc next ≡ some (ok b)
        → Within a b
    unfolding analyze_round
    analyze_round-Within a plain next ih h =
        let same : a ≡ b = cc in subst (Within a) same (Within-refl a)
    analyze_round-Within a unclosed next ih h = cc
    analyze_round-Within a (found before source rest) next ih h = go (analyze_expression p source) h
      where
        go :
            (v : Evaluated ExpressionAnalysis)
            → analyze_value p a v (next rest) ≡ some (ok b)
            → Within a b
        go (err e) k = cc
        go (ok e) k = Within-trans (Within-merge-left a e) (ih rest (merge a e) k)

    -- What an analysis in progress reports stays reported.
    analyze_from-Within :
        (fuel : ℕ) (s : Text) (a : ExpressionAnalysis)
        → analyze_from p fuel s a ≡ some (ok b)
        → Within a b
    unfolding analyze_from
    analyze_from-Within zero s a h = cc
    analyze_from-Within (suc fuel) s a h =
        analyze_round-Within a (next_expression s) (analyze_from p fuel)
          (λ rest e k. analyze_from-Within fuel rest e k) h

    module _ (c d : EvaluationContext N) (g : Agree b c d) where
      render_round-Agree :
          (s : Text) (a : ExpressionAnalysis) (sc : Scan)
          (next : Text → ExpressionAnalysis → Option (Evaluated ExpressionAnalysis))
          (next_c next_d : Text → Option (Evaluated Text))
          → ((rest : Text) (e : ExpressionAnalysis)
              → next rest e ≡ some (ok b)
              → Within e b × (next_c rest ≡ next_d rest))
          → analyze_round p a sc next ≡ some (ok b)
          → render_round p c s sc next_c ≡ render_round p d s sc next_d
      unfolding render_round analyze_round
      render_round-Agree s a plain next next_c next_d ih h = refl
      render_round-Agree s a unclosed next next_c next_d ih h = refl
      render_round-Agree s a (found before source rest) next next_c next_d ih h =
          go (analyze_expression p source) refl h
        where
          go :
              (v : Evaluated ExpressionAnalysis)
              → analyze_expression p source ≡ v
              → analyze_value p a v (next rest) ≡ some (ok b)
              → render_value p before (evaluate p c source) (next_c rest)
                ≡ render_value p before (evaluate p d source) (next_d rest)
          go (err e) q k = cc
          go (ok e) q k =
              let (within, later) = ih rest (merge a e) k in
              let same =
                evaluate-Agree_source source c d e q
                  (Agree-Within (Within-trans (Within-merge-right a e) within) g) in
              λ i. render_value p before (same i) (later i)

      render_from-Agree :
          (fuel : ℕ) (s : Text) (a : ExpressionAnalysis)
          → analyze_from p fuel s a ≡ some (ok b)
          → render_from p fuel c s ≡ render_from p fuel d s
      unfolding render_from analyze_from
      render_from-Agree zero s a h = refl
      render_from-Agree (suc fuel) s a h =
          render_round-Agree s a (next_expression s) (analyze_from p fuel) (render_from p fuel c)
            (render_from p fuel d)
            (λ rest e k. (analyze_from-Within fuel rest e k, render_from-Agree fuel rest e k)) h

-- A template that is analysed without an error is rendered to the same text, or the same error,
-- in any two contexts that agree on the roots, the status and the workspace that are reported.
pub render-Agree :
    {N : Type 0} (p : Package N) (template : Text) (b : ExpressionAnalysis)
    (c d : EvaluationContext N)
    → analyze_template p template ≡ some (ok b)
    → Agree b c d
    → render p c template ≡ render p d template
unfolding render analyze_template
render-Agree p template b c d h g =
    render_from-Agree p b c d g (suc (length template)) template default_analysis h
