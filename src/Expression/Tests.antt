-- ===== src/Expression/Tests.antt =====
-- Evaluations and renderings, and the theorems at concrete inputs. The package is one whose parser
-- reads every source as an identifier.
use gitzero.Expression.Roots.{lookup_root-extend_json_object, Json, extend_json_object}
use gitzero.Expression.Laws.{placeholder_wraps}
use gitzero.Expression.Render.{render_total}
use gitzero.Expression.Format.{
  escape_braces, format_values-escape_braces, format_values, placeholder,
}
use gitzero.Expression.Body.{
  done, close_quote, inner_char, open_quote, plain_char, render_expression, IsBody, render-IsPlain,
}
use gitzero.Prelude.Map.{contains_key, insert, get}
use gitzero.Expression.RenderSound.{render-Agree}
use gitzero.Expression.Evaluate.{lookup_root, empty_context, evaluate_expr, insert_root}
use gitzero.Expression.Sound.{evaluate-Agree, Agree}
use gitzero.Expression.Analysis.{default_analysis, merge, analyze, ExpressionAnalysis}
use gitzero.Expression.Template.{
  render_value, unwrap_expression, analyze_expression, evaluate, analyze_template, render,
}
use gitzero.Expression.{
  Evaluated, failure, boolean, null, identifier, string, Evaluation, EvaluationContext, Package,
}
use gitzero.Prelude.{
  to_ascii_lowercase, ascii_lower, Text, [], arith, codes, false, nat_key, not, refl, some, subst,
  sym, text_beq, text_beq_iff, text_key, text_less, true, ℕ, ◌++◌, ◌∷◌, ◌≡◌,
}
use gitzero.Prelude.Result.{ok}
use gitzero.Prelude.Strings.{parse_usize, before_colon}

abbrev show : Evaluation ℕ → Text
show (string s) = s
show _ = []

abbrev pub names : Package ℕ
names = record {
  parse = λ s. some (identifier s);
  as_boolean = elim [ boolean b ↦ b | _ ↦ false ];
  display = show;
  sema_eq = λ v w. text_beq (show v) (show w);
  sema_ne = λ v w. not (text_beq (show v) (show w));
  sema_gt = λ v w. text_less (show w) (show v);
  sema_ge = λ v w. not (text_less (show v) (show w));
  sema_lt = λ v w. text_less (show v) (show w);
  sema_le = λ v w. not (text_less (show w) (show v));
  to_uppercase = λ s. s;
  number_index = λ n. some n;
  to_json = λ v. some (show v);
  from_json = λ s. some (some (string s));
  hash_workspace = λ w a. ok [];
}

abbrev here : EvaluationContext ℕ
here = insert_root (codes "SHA") (string (codes "abc")) empty_context

-- `here` with another status and a root that no template below names.
abbrev elsewhere : EvaluationContext ℕ
elsewhere =
    insert_root (codes "env") null
      (record { roots = here.roots; status = failure; workspace = some (codes "/w") })

abbrev template : Text
template = codes "at ${{ sha }}!"

render-template : render names here template ≡ some (ok (codes "at abc!"))
unfolding render evaluate evaluate_expr insert_root get insert text_beq text_less ascii_lower
    unwrap_expression
render-template = refl

abbrev reported : ExpressionAnalysis
reported = record {
  context_roots = (codes "sha", tt) ∷ [];
  uses_status_function = false;
  uses_hash_files = false;
}

analyze-template : analyze_template names template ≡ some (ok reported)
unfolding analyze_template analyze_expression analyze merge insert text_beq text_less ascii_lower
    unwrap_expression
analyze-template = refl

only_sha : (k : Text) → contains_key k reported.context_roots ≡ true → codes "sha" ≡ k
unfolding get
only_sha k h = ground (arith, text_beq_iff (codes "sha") k)

same_sha : get (codes "sha") here.roots ≡ get (codes "sha") elsewhere.roots
unfolding get insert_root insert text_beq text_less ascii_lower
same_sha = refl

agree : Agree reported here elsewhere
agree = record {
  roots = λ k h. subst (λ k. get k here.roots ≡ get k elsewhere.roots) (only_sha k h) same_sha;
  status = λ h. cc;
  workspace = λ h. cc;
}

render-Agree_example : render names here template ≡ render names elsewhere template
render-Agree_example = render-Agree names template reported here elsewhere analyze-template agree

analyze-sha : analyze {N = ℕ} (identifier (codes "sha")) default_analysis ≡ reported
unfolding analyze insert ascii_lower
analyze-sha = refl

evaluate-Agree_example :
    evaluate_expr names here (identifier (codes "sha"))
    ≡ evaluate_expr names elsewhere (identifier (codes "sha"))
evaluate-Agree_example =
    evaluate-Agree names (identifier (codes "sha")) here elsewhere
      (subst (λ a. Agree a here elsewhere) (sym analyze-sha) agree)

render_total_example : (r : Evaluated Text) × (render names here template ≡ some r)
render_total_example = render_total names here template

-- The source `f('}}')`, whose string holds two closing braces.
quoted_braces : IsBody false (codes "f('}}')")
quoted_braces = plain_char b'f' (omega arith) (omega arith) (
    plain_char b'(' (omega arith) (omega arith) (
      open_quote (
        inner_char b'}' (omega arith) (
          inner_char b'}' (omega arith)
            (close_quote refl (plain_char b')' (omega arith) (omega arith) done))))))

render_expression_example :
    render names here (codes "a" ++ (codes "${{" ++ (codes "f('}}')" ++ b'}' ∷ b'}' ∷ codes "b")))
    ≡ render_value names
        (codes "a")
        (evaluate names here (codes "f('}}')"))
        (render names here (codes "b"))
render_expression_example =
    render_expression names here (codes "a") (codes "f('}}')") (codes "b") (omega arith)
      quoted_braces

render-IsPlain_example :
    render names here (codes "no expression") ≡ some (ok (codes "no expression"))
render-IsPlain_example = render-IsPlain names here (codes "no expression") (omega arith)

format_values-escape_braces_example :
    format_values names (string (codes "{{x}}") ∷ []) ≡ ok (string (codes "{x}"))
format_values-escape_braces_example =
    format_values-escape_braces names (string (codes "{{x}}")) [] (codes "{x}")
      (unfold escape_braces in refl)

placeholder_wraps_example :
    placeholder names (string (codes "t") ∷ []) (codes "18446744073709551615") ≡ ok (codes "t")
placeholder_wraps_example =
    placeholder_wraps names (string (codes "t")) [] (codes "18446744073709551615")
      (unfold parse_usize before_colon in refl)

-- JSON whose objects are all empty.
abbrev empty_objects : Json ℕ (Evaluation ℕ)
empty_objects = record {
  of_value = λ v. some v;
  to_value = λ v. some v;
  as_object = λ v. some [];
  object = λ o. null;
  json_type = λ v. codes "object";
}

shas_differ : text_beq (to_ascii_lowercase (codes "ENV")) (to_ascii_lowercase (codes "sha")) ≡ false
unfolding text_beq ascii_lower
shas_differ = refl

lookup_root-extend_json_object_example :
    lookup_root
      (extend_json_object empty_objects (codes "ENV") ((codes "A", null) ∷ []) here).0
      (codes "sha")
    ≡ lookup_root here (codes "sha")
lookup_root-extend_json_object_example =
    lookup_root-extend_json_object empty_objects (codes "ENV") (codes "sha")
      ((codes "A", null) ∷ []) here shas_differ
