-- ===== src/Expression/Render.antt =====
-- The loop of `EvaluationContext::render` (crates/gitzero-expression/src/lib.rs), round by round.
use gitzero.Prelude.{
  Bool, Option, Text, [], ap, arith, false, length, nat_key, none, not, refl, some, subst, suc,
  text_key, zero, ℕ, ◌++◌, ◌<◌, ◌∙◌, ◌∷◌, ◌≡◌,
}
use gitzero.Prelude.Result.{ok, err, ◌>>=◌}
use gitzero.Expression.{Package, EvaluationContext, Evaluation, Evaluated, unclosed_template}
use gitzero.Expression.Template.{
  unclosed, plain, evaluate, render_value, scan_opening, found, scan_end, Scan, next_expression,
  render_round, find_opening, find_end, render_from, render,
}

-- What is left behind an expression is shorter.
abbrev Shorter : ℕ → Option (Text × Text) → Type 0
Shorter n none = Unit {0}
Shorter n (some (before, behind)) = length behind < n

find_opening-Shorter : (s : Text) → Shorter (length s) (find_opening s)
unfolding find_opening
find_opening-Shorter [] = tt
find_opening-Shorter (a ∷ []) = tt
find_opening-Shorter (a ∷ b ∷ []) = tt
find_opening-Shorter (a ∷ b ∷ c ∷ s) = ground (arith, find_opening-Shorter (b ∷ c ∷ s))

find_end-Shorter : (quoted : Bool) (s : Text) → Shorter (length s) (find_end quoted s)
unfolding find_end
find_end-Shorter quoted [] = tt
find_end-Shorter quoted (c ∷ []) = tt
find_end-Shorter quoted (c ∷ d ∷ s) = ground (
  arith,
  find_end-Shorter quoted s,
  find_end-Shorter (not quoted) (d ∷ s),
  find_end-Shorter quoted (d ∷ s),
)

abbrev ShorterScan : ℕ → Scan → Type 0
ShorterScan n (found before source rest) = length rest < n
ShorterScan n _ = Unit {0}

next_expression-ShorterScan : (s : Text) → ShorterScan (length s) (next_expression s)
unfolding next_expression
next_expression-ShorterScan s = go (find_opening s) (find_opening-Shorter s)
  where
    finish_scan :
        (n : ℕ) (before : Text) (o : Option (Text × Text))
        → Shorter n o
        → ShorterScan n (scan_end before o)
    finish_scan n before none h = tt
    finish_scan n before (some (source, rest)) h = h

    wider : (m n : ℕ) (sc : Scan) → m < n → ShorterScan m sc → ShorterScan n sc
    wider m n plain l h = tt
    wider m n unclosed l h = tt
    wider m n (found before source rest) l h = omega arith

    go : (o : Option (Text × Text)) → Shorter (length s) o → ShorterScan (length s) (scan_opening o)
    go none h = tt
    go (some (before, behind)) h =
        wider (length behind) (length s) _ h (
          finish_scan (length behind) before (find_end false behind)
            (find_end-Shorter false behind))

-- A loop that has ended.
abbrev Ends {ℓ} : {A : Type ℓ} → Option A → Type ℓ
Ends {A} o = (a : A) × (o ≡ some a)

module _ {N : Type 0} (p : Package N) where
  render_round-Ends :
      (c : EvaluationContext N) (s : Text) (n : ℕ) (sc : Scan)
      (next : Text → Option (Evaluated Text))
      → ShorterScan n sc
      → ((rest : Text) → length rest < n → Ends (next rest))
      → Ends (render_round p c s sc next)
  unfolding render_round
  render_round-Ends c s n plain next h k = (ok s, refl)
  render_round-Ends c s n unclosed next h k = (err unclosed_template, refl)
  render_round-Ends c s n (found before source rest) next h k = go (evaluate p c source) (k rest h)
    where
      go :
          (v : Evaluated (Evaluation N))
          → Ends (next rest)
          → Ends (render_value p before v (next rest))
      go (err e) later = (err e, refl)
      go (ok v) (r, e) = (r >>= λ text. ok (before ++ (p.display v ++ text)), rw e)

  render_from-Ends :
      (c : EvaluationContext N) (fuel : ℕ) (s : Text)
      → length s < fuel
      → Ends (render_from p fuel c s)
  unfolding render_from
  render_from-Ends c zero s h = absurd (omega arith)
  render_from-Ends c (suc fuel) s h =
      render_round-Ends c s (length s) (next_expression s) (render_from p fuel c)
        (next_expression-ShorterScan s) (λ rest l. render_from-Ends c fuel rest (omega arith))

  -- The fuel that `render` starts with is enough for every template.
  pub render_total :
      (c : EvaluationContext N) (template : Text)
      → (r : Evaluated Text) × (render p c template ≡ some r)
  unfolding render
  render_total c template = render_from-Ends c (suc (length template)) template (omega arith)

  render_round_same :
      (c : EvaluationContext N) (s : Text) (n : ℕ) (sc : Scan)
      (next next' : Text → Option (Evaluated Text))
      → ShorterScan n sc
      → ((rest : Text) → length rest < n → next rest ≡ next' rest)
      → render_round p c s sc next ≡ render_round p c s sc next'
  unfolding render_round
  render_round_same c s n plain next next' h k = refl
  render_round_same c s n unclosed next next' h k = refl
  render_round_same c s n (found before source rest) next next' h k =
      ap (render_value p before (evaluate p c source)) (k rest h)

  -- Any two amounts of fuel that are enough give the same result.
  render_from_same :
      (c : EvaluationContext N) (fuel fuel' : ℕ) (s : Text)
      → length s < fuel
      → length s < fuel'
      → render_from p fuel c s ≡ render_from p fuel' c s
  unfolding render_from
  render_from_same c zero fuel' s h h' = absurd (omega arith)
  render_from_same c (suc fuel) zero s h h' = absurd (omega arith)
  render_from_same c (suc fuel) (suc fuel') s h h' =
      render_round_same c s (length s) (next_expression s) (render_from p fuel c)
        (render_from p fuel' c) (next_expression-ShorterScan s)
        (λ rest l. render_from_same c fuel fuel' rest (omega arith) (omega arith))

  -- One round of the loop: what stands behind the expression is rendered as a template.
  pub render-next_expression :
      (c : EvaluationContext N) (s : Text) {before source rest : Text}
      → next_expression s ≡ found before source rest
      → render p c s ≡ render_value p before (evaluate p c source) (render p c rest)
  unfolding render
  render-next_expression c s {before} {source} {rest} e =
      let shorter = subst (ShorterScan (length s)) e (next_expression-ShorterScan s) in
      ap (λ sc. render_round p c s sc (render_from p (length s) c)) e
      ∙ ap (render_value p before (evaluate p c source))
          (render_from_same c (length s) (suc (length rest)) rest shorter (omega arith))
