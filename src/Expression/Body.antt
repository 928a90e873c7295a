-- ===== src/Expression/Body.antt =====
-- One expression in a template: `next_expression` and `EvaluationContext::render`
-- (crates/gitzero-expression/src/lib.rs).
use gitzero.Expression.Render.{render-next_expression}
use gitzero.Prelude.{
  Bool, Text, [], ap, arith, codes, false, inl, inr, nat_beq, nat_key, none, not, refl, some,
  text_key, true, ℕ, ◌&&◌, ◌++◌, ◌∙◌, ◌∷◌, ◌≡◌, ◌≢◌, ◌⊎◌,
}
use gitzero.Prelude.Result.{ok}
use gitzero.Expression.{Package, EvaluationContext}
use gitzero.Expression.Template.{
  scan_end, render_round, render_value, scan_opening, prepend, find_opening, find_end,
  next_expression, render_from, render, evaluate, opening, found,
}

abbrev quote : ℕ
quote = b'\''

abbrev starts_quote : Text → Bool
starts_quote [] = false
starts_quote (c ∷ s) = nat_beq c quote

-- The source of an expression, read outside (`false`) or inside (`true`) a quoted string: no
-- closing brace outside strings, any character inside, where a quote is written twice.
pub data IsBody : Bool → Text → Type 0 where
  done : IsBody false []
  plain_char : (c : ℕ) {s : Text} → c ≢ quote → c ≢ b'}' → IsBody false s → IsBody false (c ∷ s)
  open_quote : {s : Text} → IsBody true s → IsBody false (quote ∷ s)
  inner_char : (c : ℕ) {s : Text} → c ≢ quote → IsBody true s → IsBody true (c ∷ s)
  double_quote : {s : Text} → IsBody true s → IsBody true (quote ∷ quote ∷ s)
  close_quote : {s : Text} → starts_quote s ≡ false → IsBody false s → IsBody true (quote ∷ s)

abbrev closing : Text → Text
closing rest = b'}' ∷ b'}' ∷ rest

closing-ne-nil : (s rest : Text) → s ++ closing rest ≢ []
closing-ne-nil [] rest = λ h. cc
closing-ne-nil (c ∷ s) rest = λ h. cc

starts_quote-closing : (s rest : Text) → starts_quote (s ++ closing rest) ≡ starts_quote s
starts_quote-closing [] rest = refl
starts_quote-closing (c ∷ s) rest = refl

find_end-step :
    (quoted : Bool) (c : ℕ) (t : Text)
    → t ≢ []
    → c ≢ quote
    → (quoted ≡ true) ⊎ (c ≢ b'}')
    → find_end quoted (c ∷ t) ≡ prepend c (find_end quoted t)
unfolding find_end
find_end-step quoted c [] n h k = absurd (n refl)
find_end-step quoted c (d ∷ t) n h k = ground arith

find_end-toggle :
    (quoted : Bool) (t : Text)
    → t ≢ []
    → (quoted && starts_quote t) ≡ false
    → find_end quoted (quote ∷ t) ≡ prepend quote (find_end (not quoted) t)
unfolding find_end
find_end-toggle quoted [] n h = absurd (n refl)
find_end-toggle quoted (d ∷ t) n h = ground arith

find_end-double :
    (t : Text) → find_end true (quote ∷ quote ∷ t) ≡ prepend quote (prepend quote (find_end true t))
unfolding find_end
find_end-double t = ground arith

find_end-IsBody :
    {quoted : Bool} {body : Text} (rest : Text)
    → IsBody quoted body
    → find_end quoted (body ++ closing rest) ≡ some (body, rest)
find_end-IsBody rest done = unfold find_end in refl
find_end-IsBody rest (plain_char c {s} h k b) =
    find_end-step false c (s ++ closing rest) (closing-ne-nil s rest) h (inr k)
    ∙ ap (prepend c) (find_end-IsBody rest b)
find_end-IsBody rest (open_quote {s} b) =
    find_end-toggle false (s ++ closing rest) (closing-ne-nil s rest) refl
    ∙ ap (prepend quote) (find_end-IsBody rest b)
find_end-IsBody rest (inner_char c {s} h b) =
    find_end-step true c (s ++ closing rest) (closing-ne-nil s rest) h (inl refl)
    ∙ ap (prepend c) (find_end-IsBody rest b)
find_end-IsBody rest (double_quote {s} b) =
    find_end-double (s ++ closing rest)
    ∙ ap (λ o. prepend quote (prepend quote o)) (find_end-IsBody rest b)
find_end-IsBody rest (close_quote {s} h b) =
    find_end-toggle true (s ++ closing rest) (closing-ne-nil s rest)
      (starts_quote-closing s rest ∙ h)
    ∙ ap (prepend quote) (find_end-IsBody rest b)

-- No dollar sign, so no opening.
abbrev pub IsPlain : Text → Type 0
IsPlain [] = Unit {0}
IsPlain (c ∷ s) = (c ≢ b'$') × IsPlain s

find_opening-IsPlain :
    (before behind : Text)
    → IsPlain before
    → find_opening (before ++ (opening ++ behind)) ≡ some (before, behind)
unfolding find_opening
find_opening-IsPlain [] behind h = refl
find_opening-IsPlain (c ∷ []) behind h = ground arith
find_opening-IsPlain (c ∷ d ∷ []) behind h =
    ground (arith, find_opening-IsPlain (d ∷ []) behind h.1)
find_opening-IsPlain (c ∷ d ∷ e ∷ s) behind h =
    ground (arith, find_opening-IsPlain (d ∷ e ∷ s) behind h.1)

find_opening-absent : (s : Text) → IsPlain s → find_opening s ≡ none
unfolding find_opening
find_opening-absent [] h = refl
find_opening-absent (a ∷ []) h = refl
find_opening-absent (a ∷ b ∷ []) h = refl
find_opening-absent (a ∷ b ∷ c ∷ s) h = ground (arith, find_opening-absent (b ∷ c ∷ s) h.1)

next_expression-IsBody :
    (before body rest : Text)
    → IsPlain before
    → IsBody false body
    → next_expression (before ++ (opening ++ (body ++ closing rest))) ≡ found before body rest
unfolding next_expression
next_expression-IsBody before body rest h b =
    ap scan_opening (find_opening-IsPlain before (body ++ closing rest) h)
    ∙ ap (scan_end before) (find_end-IsBody rest b)

module _ {N : Type 0} (p : Package N) (c : EvaluationContext N) where
  -- Rendering plain text, an expression and more text renders the expression between the text and
  -- the rendering of the rest, or returns the error of the expression. A closing `}}` inside a
  -- quoted string of the expression does not end it.
  pub render_expression :
      (before body rest : Text)
      → IsPlain before
      → IsBody false body
      → render p c (before ++ (codes "${{" ++ (body ++ b'}' ∷ b'}' ∷ rest)))
        ≡ render_value p before (evaluate p c body) (render p c rest)
  render_expression before body rest h b =
      render-next_expression p c (before ++ (opening ++ (body ++ closing rest)))
        (next_expression-IsBody before body rest h b)

  -- A text without a dollar sign is rendered as it is.
  pub render-IsPlain : (s : Text) → IsPlain s → render p c s ≡ some (ok s)
  unfolding render render_from next_expression render_round
  render-IsPlain s h = rw (find_opening-absent s h)
