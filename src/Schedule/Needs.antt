-- ===== src/Schedule/Needs.antt =====
-- The status behind a need that did not succeed
-- (crates/gitzero-agent/src/executor.rs).
use gitzero.Expression.{ExecutionStatus}
use gitzero.Prelude.Map.{get, Map}
use gitzero.Expression.Evaluate.{status_is}
use gitzero.Schedule.Conclusions.{
  any_completed, cancelled, dependency_status, failure, is_conclusion, is_failed, or_else, skipped,
  success, timed_out, JobConclusion,
}
use gitzero.Prelude.{
  if◌then◌else◌, ◌∷◌, [], ◌==◌, any, Bool, List, Option, Text, arith, false, refl, some, none, true,
  ◌≡◌, ◌≢◌, Bool-cases, subst, some-injective, sym, ==_iff, inl, inr, text_key, nat_key,
}

-- A test that is false of the conclusions of all needs is false of each.
any_completed_each :
    (test : JobConclusion → Bool) (needs : List Text) (completed : Map Text JobConclusion)
    (need : Text) (c : JobConclusion)
    → any (λ dependency. dependency == need) needs ≡ true
    → get need completed ≡ some c
    → any_completed test needs completed ≡ some false
    → test c ≡ false
unfolding any_completed
any_completed_each test [] completed need c named ended h = cc
any_completed_each test (dependency ∷ needs) completed need c named ended h =
    elim (Bool-cases (dependency == need)) [
      | inl same ↦
          let at : get dependency completed ≡ some c =
            subst (λ n. get n completed ≡ some c) (sym ((==_iff dependency need).0 same)) ended in
          first_test (test c) _ (
            subst
              (λ o.
                elim o [
                  | none ↦ none
                  | some c ↦ if test c then some true else any_completed test needs completed
                ]
                ≡ some false)
              at h)
      | inr other ↦
          any_completed_each test needs completed need c (ground (arith, named, other)) ended
            (later_test test (get dependency completed) _ h)
    ]
  where
    first_test :
        (b : Bool) (rest : Option Bool) → (if b then some true else rest) ≡ some false → b ≡ false
    first_test b rest h = ground arith

    later_test :
        (test : JobConclusion → Bool) (o : Option JobConclusion) (rest : Option Bool)
        → elim o [ none ↦ none | some c ↦ if test c then some true else rest ] ≡ some false
        → rest ≡ some false
    later_test test none rest h = cc
    later_test test (some c) rest h = ground arith

other_status :
    (found status : ExecutionStatus)
    → ◌≡◌ {A = Option ExecutionStatus} (some found) (some status)
    → status_is found ExecutionStatus.success ≡ false
    → status_is status ExecutionStatus.success ≡ true
    → ⊥
other_status found status h wrong right =
    let e = subst (λ s. status_is s ExecutionStatus.success ≡ false) (some-injective h) wrong in
    ground (arith, e, right)

-- The tests that `dependency_status` has passed when it says success.
all_passed :
    (a b s : Option Bool) (status : ExecutionStatus)
    → or_else a ExecutionStatus.cancelled (
        or_else b ExecutionStatus.failure
          (or_else s ExecutionStatus.skipped (some ExecutionStatus.success)))
      ≡ some status
    → status_is status ExecutionStatus.success ≡ true
    → (a ≡ some false) × (b ≡ some false) × (s ≡ some false)
unfolding status_is
all_passed none b s status h e = cc
all_passed (some true) b s status h e =
    absurd (other_status ExecutionStatus.cancelled status h refl e)
all_passed (some false) none s status h e = cc
all_passed (some false) (some true) s status h e =
    absurd (other_status ExecutionStatus.failure status h refl e)
all_passed (some false) (some false) none status h e = cc
all_passed (some false) (some false) (some true) status h e =
    absurd (other_status ExecutionStatus.skipped status h refl e)
all_passed (some false) (some false) (some false) status h e = (refl, refl, refl)

-- The status behind a need that did not succeed is not success.
pub dependency_status_failed :
    (needs : List Text) (completed : Map Text JobConclusion) (need : Text) (c : JobConclusion)
    (status : ExecutionStatus)
    → any (λ dependency. dependency == need) needs ≡ true
    → get need completed ≡ some c
    → c ≢ success
    → dependency_status needs completed ≡ some status
    → status_is status ExecutionStatus.success ≡ false
unfolding dependency_status
dependency_status_failed needs completed need c status named ended bad h =
    elim (Bool-cases (status_is status ExecutionStatus.success)) [
      | inl good ↦
          let (cancels, fails, skips) = all_passed _ _ _ status h good in
          absurd (
            none_left c bad
              (any_completed_each (is_conclusion cancelled) needs completed need c named ended
                cancels)
              (any_completed_each is_failed needs completed need c named ended fails)
              (any_completed_each (is_conclusion skipped) needs completed need c named ended skips))
      | inr other ↦ other
    ]
  where
    none_left :
        (c : JobConclusion)
        → c ≢ success
        → is_conclusion cancelled c ≡ false
        → is_failed c ≡ false
        → is_conclusion skipped c ≡ false
        → ⊥
    none_left success bad h i j = bad refl
    none_left failure bad h i j = cc
    none_left timed_out bad h i j = cc
    none_left cancelled bad h i j = cc
    none_left skipped bad h i j = cc
