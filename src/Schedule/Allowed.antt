-- ===== src/Schedule/Allowed.antt =====
-- The jobs that `condition_allows` lets run after a need that did not succeed
-- (crates/gitzero-agent/src/executor.rs).
use gitzero.Schedule.Conclusions.{dependency_status, JobConclusion}
use gitzero.Expression.Evaluate.{status_is}
use gitzero.Expression.Template.{evaluate_condition, is_whitespace}
use gitzero.Prelude.Map.{get, Map}
use gitzero.Prelude.Result.{ok}
use gitzero.Expression.{EvaluationContext, ExecutionStatus, Evaluated, Package}
use gitzero.Prelude.Substrings.{contained, contains_text-append}
use gitzero.Prelude.Strings.{contains_text}
use gitzero.Schedule.Conditions.{
  compact, condition_allows, contains_status_function, status_functions,
}
use gitzero.Schedule.Needs.{dependency_status_failed}
use gitzero.Prelude.Split.{concat, filter}
use gitzero.Prelude.{
  ◌∷◌, [], map, some-injective, if◌then◌else◌, ◌==◌, any, Bool, List, Option, Text, arith, false,
  refl, some, none, true, ℕ, ◌≡◌, ◌++◌, ◌⊎◌, ◌↔◌, ◌≢◌, ◌&&◌, ◌||◌, not, subst, sym, inl, inr,
  text_key, nat_key, codes,
}

-- How the call of a status function begins.
abbrev pub IsStatusCall : Text → Type 0
IsStatusCall called =
    (called ≡ codes "success(")
    ⊎ (called ≡ codes "failure(")
    ⊎ (called ≡ codes "cancelled(")
    ⊎ (called ≡ codes "always(")

-- A text has the call of a status function in it.
pub record NamesStatus (compacted : Text) : Type 0 where
  before : Text
  called : Text
  after : Text
  found : compacted ≡ before ++ (called ++ after)
  is_status : IsStatusCall called

contains_text-NamesStatus :
    (s function : Text) → IsStatusCall function → contains_text s function ≡ true → NamesStatus s
contains_text-NamesStatus s function which h =
    let (before, after, e) = contained s function h in
    record { before = before; called = function; after = after; found = e; is_status = which }

four_true :
    (a b c d : Bool)
    → (a || (b || (c || (d || false)))) ≡ true
    → (a ≡ true) ⊎ (b ≡ true) ⊎ (c ≡ true) ⊎ (d ≡ true)
four_true true b c d h = inl refl
four_true false true c d h = inr (inl refl)
four_true false false true d h = inr (inr (inl refl))
four_true false false false true h = inr (inr (inr refl))
four_true false false false false h = cc

one_true :
    (a b c d : Bool)
    → (a ≡ true) ⊎ (b ≡ true) ⊎ (c ≡ true) ⊎ (d ≡ true)
    → (a || (b || (c || (d || false)))) ≡ true
one_true a b c d (inl h) = ground (arith, h)
one_true a b c d (inr (inl h)) = ground (arith, h)
one_true a b c d (inr (inr (inl h))) = ground (arith, h)
one_true a b c d (inr (inr (inr h))) = ground (arith, h)

not_allowed : (b : Bool) → b ≡ false → ◌≡◌ {A = Evaluated Bool} (ok b) (ok true) → ⊥
not_allowed b e h = ground arith

allowed_cases :
    (succeeded named : Bool) (r : Evaluated Bool)
    → succeeded ≡ false
    → (if not succeeded && not named then ok false else r) ≡ ok true
    → (named ≡ true) × (r ≡ ok true)
allowed_cases true named r e h = cc
allowed_cases false true r e h = (refl, h)
allowed_cases false false r e h = absurd (not_allowed false refl h)

named_status :
    (s : Text) → any (λ function. contains_text s function) status_functions ≡ true → NamesStatus s
named_status s h =
    elim (four_true (contains_text s (codes "success(")) (contains_text s (codes "failure("))
      (contains_text s (codes "cancelled(")) (contains_text s (codes "always(")) h) [
        | inl f ↦ contains_text-NamesStatus s _ (inl refl) f
        | inr (inl f) ↦ contains_text-NamesStatus s _ (inr (inl refl)) f
        | inr (inr (inl f)) ↦ contains_text-NamesStatus s _ (inr (inr (inl refl))) f
        | inr (inr (inr f)) ↦ contains_text-NamesStatus s _ (inr (inr (inr refl))) f
      ]

status_named :
    (s : Text) → NamesStatus s → any (λ function. contains_text s function) status_functions ≡ true
status_named s n =
    one_true (contains_text s (codes "success(")) (contains_text s (codes "failure("))
      (contains_text s (codes "cancelled(")) (contains_text s (codes "always("))
      (elim n.is_status [
        | inl e ↦ inl (has _ e)
        | inr (inl e) ↦ inr (inl (has _ e))
        | inr (inr (inl e)) ↦ inr (inr (inl (has _ e)))
        | inr (inr (inr e)) ↦ inr (inr (inr (has _ e)))
      ])
  where
    has : (function : Text) → n.called ≡ function → contains_text s function ≡ true
    has function e =
        subst (λ f. contains_text s f ≡ true) e
          (subst (λ t. contains_text t n.called ≡ true) (sym n.found)
            (contains_text-append n.before n.called n.after))

module _ {N : Type 0} (p : Package N) (to_lowercase : ℕ → Text) where
  -- A text without its white space, each of its other characters in lower case.
  abbrev pub lowered : Text → Text
  lowered s = concat (map to_lowercase (filter (λ c. not (is_whitespace c)) s))

  compact_lem : (s : Text) → compact p to_lowercase s ≡ lowered s
  unfolding compact filter
  compact_lem [] = refl
  compact_lem (c ∷ s) = grind (arith, compact_lem s)

  contains_status_function_iff :
      (source : Text)
      → (contains_status_function p to_lowercase source ≡ true) ↔ NamesStatus (lowered source)
  unfolding contains_status_function
  contains_status_function_iff source = (
    λ h. subst NamesStatus (compact_lem source) (named_status (compact p to_lowercase source) h),
    λ n.
        status_named (compact p to_lowercase source)
          (subst NamesStatus (sym (compact_lem source)) n),
  )

  -- What lets a job run whose needs did not all succeed.
  pub record IsAllowed (condition : Option Text) (context : EvaluationContext N) : Type 0 where
    source : Text
    written : condition ≡ some source
    named : NamesStatus (lowered source)
    holds : evaluate_condition p context source ≡ ok true

  allows_after :
      (condition : Option Text) (status : ExecutionStatus) (context : EvaluationContext N)
      → status_is status ExecutionStatus.success ≡ false
      → (condition_allows p to_lowercase condition status context ≡ ok true)
        ↔ IsAllowed condition context
  unfolding condition_allows
  allows_after none status context failed =
      (λ h. absurd (not_allowed _ failed h), λ a. absurd (not_written a.written))
    where
      not_written : {source : Text} → ◌≡◌ {A = Option Text} none (some source) → ⊥
      not_written h = cc
  allows_after (some source) status context failed = (
    λ h.
        let (named, evaluated) =
          allowed_cases _ (contains_status_function p to_lowercase source) _ failed h in
        record {
          source = source;
          written = refl;
          named = (contains_status_function_iff source).0 named;
          holds = evaluated;
        },
    λ a.
        let same = some-injective a.written in
        let named =
          subst (λ s. contains_status_function p to_lowercase s ≡ true) (sym same)
            ((contains_status_function_iff a.source).1 a.named) in
        let holds = subst (λ s. evaluate_condition p context s ≡ ok true) (sym same) a.holds in
        rw (failed, named, holds) refl,
  )

  -- If a need of a job has ended otherwise than with success, and the status is that of its needs,
  -- then the condition of the job lets it run exactly if it is written down, has one of the texts
  -- `success(`, `failure(`, `cancelled(` and `always(` in it once white space is left out and each
  -- character is replaced by its lower case, and evaluates to true.
  pub condition_allows_failed :
      (needs : List Text) (completed : Map Text JobConclusion) (need : Text) (c : JobConclusion)
      (condition : Option Text) (status : ExecutionStatus) (context : EvaluationContext N)
      → any (λ dependency. dependency == need) needs ≡ true
      → get need completed ≡ some c
      → c ≢ JobConclusion.success
      → dependency_status needs completed ≡ some status
      → (condition_allows p to_lowercase condition status context ≡ ok true)
        ↔ IsAllowed condition context
  condition_allows_failed needs completed need c condition status context named ended bad behind =
      allows_after condition status context
        (dependency_status_failed needs completed need c status named ended bad behind)
