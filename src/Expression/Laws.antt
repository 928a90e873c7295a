-- ===== src/Expression/Laws.antt =====
-- The context roots, `case` and the placeholders of `format`
-- (crates/gitzero-expression/src/lib.rs).
use gitzero.Expression.Format.{placeholder}
use gitzero.Expression.Evaluate.{insert_root, lookup_root}
use gitzero.Prelude.{
  to_ascii_lowercase, eq_ignore_ascii_case, Bool, List, Text, [], arith, false, if◌then◌else◌,
  length, nat_key, refl, some, text_key, true, ◌∷◌, ◌≡◌, ◌≤◌,
}
use gitzero.Prelude.Map.{get-insert}
use gitzero.Prelude.Strings.{parse_usize, before_colon, usize_max}
use gitzero.Prelude.Result.{ok}
use gitzero.Expression.{Package, EvaluationContext, Evaluation, boolean}
use gitzero.Expression.Functions.{case_value, case_pairs, is_even_length}

-- A root that is inserted is found under its name in any ASCII case, and the insertion changes
-- nothing under any other name.
pub lookup_root-insert_root :
    {N : Type 0} (c : EvaluationContext N) (name other : Text) (v : Evaluation N)
    → lookup_root (insert_root name v c) other
      ≡ (if eq_ignore_ascii_case name other then ok v else lookup_root c other)
unfolding lookup_root insert_root
lookup_root-insert_root c name other v =
    ground (arith, get-insert (to_ascii_lowercase name) (to_ascii_lowercase other) v c.roots)

module _ {N : Type 0} where
  -- The arguments of `case`: conditions that are booleans with their values, and a default.
  abbrev pub case_arguments : List (Bool × Evaluation N) → Evaluation N → List (Evaluation N)
  case_arguments [] d = d ∷ []
  case_arguments ((b, v) ∷ pairs) d = boolean b ∷ v ∷ case_arguments pairs d

  -- The value of the first condition that holds.
  abbrev pub choose : List (Bool × Evaluation N) → Evaluation N → Evaluation N
  choose [] d = d
  choose ((b, v) ∷ pairs) d = if b then v else choose pairs d

  case_pairs-choose :
      (p : Package N) (pairs : List (Bool × Evaluation N)) (d : Evaluation N)
      → case_pairs p (case_arguments pairs d) ≡ ok (choose pairs d)
  unfolding case_pairs
  case_pairs-choose p [] d = refl
  case_pairs-choose p ((true, v) ∷ []) d = refl
  case_pairs-choose p ((true, v) ∷ (b, w) ∷ pairs) d = refl
  case_pairs-choose p ((false, v) ∷ []) d = refl
  case_pairs-choose p ((false, v) ∷ (b, w) ∷ pairs) d = case_pairs-choose p ((b, w) ∷ pairs) d

  is_even_length-case_arguments :
      (p : Package N) (pairs : List (Bool × Evaluation N)) (d : Evaluation N)
      → is_even_length p (case_arguments pairs d) ≡ false
  unfolding is_even_length
  is_even_length-case_arguments p [] d = refl
  is_even_length-case_arguments p ((b, v) ∷ []) d = refl
  is_even_length-case_arguments p ((b, v) ∷ (b', w) ∷ pairs) d =
      is_even_length-case_arguments p ((b', w) ∷ pairs) d

  three_arguments :
      (b : Bool) (v d : Evaluation N) (pairs : List (Bool × Evaluation N))
      → 3 ≤ length (case_arguments ((b, v) ∷ pairs) d)
  three_arguments b v d [] = omega arith
  three_arguments b v d ((b', w) ∷ pairs) = omega (arith, three_arguments b' w d pairs)

  -- `case` with at least one pair of a boolean condition and a value returns the value of the
  -- first condition that is true, and the default if none is.
  pub case_value-choose :
      (p : Package N) (b : Bool) (v d : Evaluation N) (pairs : List (Bool × Evaluation N))
      → case_value p (case_arguments ((b, v) ∷ pairs) d) ≡ ok (choose ((b, v) ∷ pairs) d)
  unfolding case_value
  case_value-choose p b v d pairs = ground (
    arith,
    three_arguments b v d pairs,
    is_even_length-case_arguments p ((b, v) ∷ pairs) d,
    case_pairs-choose p ((b, v) ∷ pairs) d,
  )

-- A placeholder with the largest index of the machine is not refused: the index wraps round, and
-- it stands for the template itself.
pub placeholder_wraps :
    {N : Type 0} (p : Package N) (template : Evaluation N) (arguments : List (Evaluation N))
    (text : Text)
    → parse_usize (before_colon text) ≡ some usize_max
    → placeholder p (template ∷ arguments) text ≡ ok (p.display template)
unfolding placeholder
placeholder_wraps p template arguments text e = rw e
