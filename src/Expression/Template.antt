-- ===== src/Expression/Template.antt =====
-- The templates of crates/gitzero-expression/src/lib.rs: text with `${{ ... }}` in it. A cursor
-- into the template is the text that is left from there, and the fuel bounds the expressions.
use gitzero.Prelude.Split.{strip_prefix}
use mathlib.Core.List.{reverse}
use mathlib.Core.Option
use gitzero.Prelude.{
  Bool, Option, Text, [], codes, false, if◌then◌else◌, leb, length, nat_beq, nat_key, none, not,
  some, suc, text_key, zero, ℕ, ◌&&◌, ◌++◌, ◌||◌, ◌∷◌,
}
use gitzero.Prelude.Result.{ok, err, ◌>>=◌, ok_or}
use gitzero.Expression.{
  Package, EvaluationContext, Evaluation, Evaluated, parse_error, unclosed_template,
}
use gitzero.Expression.Analysis.{ExpressionAnalysis, default_analysis, analyze, merge}
use gitzero.Expression.Evaluate.{evaluate_expr}

abbrev pub opening : Text
opening = codes "${{"

-- `find("${{")`: the text before the opening and the text behind it.
unfoldable pub find_opening : Text → Option (Text × Text)
find_opening [] = none
find_opening (a ∷ []) = none
find_opening (a ∷ b ∷ []) = none
find_opening (a ∷ b ∷ c ∷ s) =
    let later = find_opening (b ∷ c ∷ s) in
    if nat_beq a b'$' && (nat_beq b b'{' && nat_beq c b'{')
    then some ([], s)
    else elim later [ none ↦ none | some (before, after) ↦ some (a ∷ before, after) ]

abbrev pub prepend : ℕ → Option (Text × Text) → Option (Text × Text)
prepend c none = none
prepend c (some (body, rest)) = some (c ∷ body, rest)

-- `find_expression_end` from inside or outside a quoted string: the expression and the text behind
-- its two closing braces. A doubled quote inside a string is a part of it.
unfoldable pub find_end : Bool → Text → Option (Text × Text)
find_end quoted [] = none
find_end quoted (c ∷ []) = none
find_end quoted (c ∷ d ∷ s) =
    let behind = find_end quoted s in
    let toggled = find_end (not quoted) (d ∷ s) in
    let further = find_end quoted (d ∷ s) in
    if nat_beq c b'\''
    then (if quoted && nat_beq d b'\'' then prepend c (prepend d behind) else prepend c toggled)
    else if not quoted && (nat_beq c b'}' && nat_beq d b'}')
    then some ([], s)
    else prepend c further

-- What the loops find at a cursor: no more expression, one that is not closed, or the text before
-- an expression, its source, and the text behind it.
pub data Scan : Type 0 where
  plain unclosed : Scan
  found : Text → Text → Text → Scan

unfoldable pub scan_end : Text → Option (Text × Text) → Scan
scan_end before none = unclosed
scan_end before (some (source, rest)) = found before source rest

unfoldable pub scan_opening : Option (Text × Text) → Scan
unfolding scan_end find_end
scan_opening none = plain
scan_opening (some (before, behind)) = scan_end before (find_end false behind)

unfoldable pub next_expression : Text → Scan
unfolding scan_opening find_opening
next_expression s = scan_opening (find_opening s)

-- char::is_whitespace
unfoldable pub is_whitespace : ℕ → Bool
is_whitespace c =
    (leb 9 c && leb c 13)
    || nat_beq c 0x20
    || nat_beq c 0x85
    || nat_beq c 0xa0
    || nat_beq c 0x1680
    || (leb 0x2000 c && leb c 0x200a)
    || nat_beq c 0x2028
    || nat_beq c 0x2029
    || nat_beq c 0x202f
    || nat_beq c 0x205f
    || nat_beq c 0x3000

trim_start : Text → Text
trim_start [] = []
trim_start (c ∷ s) = if is_whitespace c then trim_start s else c ∷ s

-- str::trim
unfoldable pub trim : Text → Text
unfolding trim_start is_whitespace
trim s = reverse (trim_start (reverse (trim_start s)))

strip_suffix : Text → Text → Option Text
unfolding strip_prefix
strip_suffix p s = Option.map reverse (strip_prefix (reverse p) (reverse s))

-- `unwrap_expression`
unfoldable pub unwrap_expression : Text → Text
unfolding trim strip_prefix strip_suffix
unwrap_expression source = elim (strip_prefix opening (trim source)) [
  | none ↦ trim source
  | some inner ↦ elim (strip_suffix (codes "}}") inner) [
    | none ↦ trim source
    | some body ↦ trim body
  ]
]

module _ {N : Type 0} (p : Package N) where
  unfoldable pub evaluate : EvaluationContext N → Text → Evaluated (Evaluation N)
  evaluate c source = do
    e ← ok_or (p.parse (unwrap_expression source)) parse_error
    evaluate_expr p c e

  unfoldable pub analyze_expression : Text → Evaluated ExpressionAnalysis
  analyze_expression source = do
    e ← ok_or (p.parse (unwrap_expression source)) parse_error
    ok (analyze e default_analysis)

  unfoldable pub evaluate_condition : EvaluationContext N → Text → Evaluated Bool
  unfolding evaluate
  evaluate_condition c source = do v ← evaluate c source; ok (p.as_boolean v)

  unfoldable pub render_value :
      Text → Evaluated (Evaluation N) → Option (Evaluated Text) → Option (Evaluated Text)
  render_value before (err e) later = some (err e)
  render_value before (ok v) later =
      Option.map (λ r. r >>= λ text. ok (before ++ (p.display v ++ text))) later

  -- One round of the loop of `render`, whose next rounds are `next`.
  unfoldable pub render_round :
      EvaluationContext N → Text → Scan → (Text → Option (Evaluated Text)) → Option (Evaluated Text)
  unfolding render_value
  render_round c s plain next = some (ok s)
  render_round c s unclosed next = some (err unclosed_template)
  render_round c s (found before source rest) next =
      render_value before (evaluate c source) (next rest)

  -- `none` means that the fuel ran out.
  unfoldable pub render_from : ℕ → EvaluationContext N → Text → Option (Evaluated Text)
  unfolding next_expression render_round
  render_from zero c s = none
  render_from (suc fuel) c s = render_round c s (next_expression s) (render_from fuel c)

  unfoldable pub render : EvaluationContext N → Text → Option (Evaluated Text)
  unfolding render_from
  render c template = render_from (suc (length template)) c template

  unfoldable pub analyze_value :
      ExpressionAnalysis
      → Evaluated ExpressionAnalysis
      → (ExpressionAnalysis → Option (Evaluated ExpressionAnalysis))
      → Option (Evaluated ExpressionAnalysis)
  analyze_value a (err e) next = some (err e)
  analyze_value a (ok b) next = next (merge a b)

  -- One round of the loop of `analyze_template`.
  unfoldable pub analyze_round :
      ExpressionAnalysis
      → Scan
      → (Text → ExpressionAnalysis → Option (Evaluated ExpressionAnalysis))
      → Option (Evaluated ExpressionAnalysis)
  unfolding analyze_value
  analyze_round a plain next = some (ok a)
  analyze_round a unclosed next = some (err unclosed_template)
  analyze_round a (found before source rest) next =
      analyze_value a (analyze_expression source) (next rest)

  unfoldable pub analyze_from :
      ℕ → Text → ExpressionAnalysis → Option (Evaluated ExpressionAnalysis)
  unfolding next_expression analyze_round
  analyze_from zero s a = none
  analyze_from (suc fuel) s a = analyze_round a (next_expression s) (analyze_from fuel)

  unfoldable pub analyze_template : Text → Option (Evaluated ExpressionAnalysis)
  unfolding analyze_from
  analyze_template template = analyze_from (suc (length template)) template default_analysis
