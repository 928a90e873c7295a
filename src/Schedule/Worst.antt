-- ===== src/Schedule/Worst.antt =====
-- The order of severity behind `aggregate_conclusions` and `dependency_status`
-- (crates/gitzero-agent/src/executor.rs).
use mathlib.Core.Option
use gitzero.Expression.{ExecutionStatus}
use gitzero.Prelude.Map.{get, Map}
use gitzero.Schedule.Conclusions.{
  or_else, status_severity, skipped, timed_out, failure, is_failed, cancelled, success,
  is_conclusion, need_severity, severity, worst, worst_need, JobConclusion, aggregate_conclusions,
  any_completed, dependency_status,
}
use gitzero.Prelude.{
  Bool, List, Option, Text, [], ap, arith, false, if◌then◌else◌, nat_key, none, refl, some,
  text_key, true, ℕ, ◌||◌, ◌∙◌, ◌∷◌, ◌≡◌,
}
use Prim.Native.Nat.{max}

aggregate_conclusions-cons :
    (c : JobConclusion) (conclusions : List JobConclusion)
    → severity (aggregate_conclusions (c ∷ conclusions))
      ≡ max (severity c) (severity (aggregate_conclusions conclusions))
unfolding aggregate_conclusions
aggregate_conclusions-cons success conclusions = ground arith
aggregate_conclusions-cons failure conclusions = ground arith
aggregate_conclusions-cons timed_out conclusions = ground arith
aggregate_conclusions-cons cancelled conclusions = ground arith
aggregate_conclusions-cons skipped conclusions = ground arith

-- The conclusion of a job is the worst of the conclusions of its matrix: a failure before a
-- timeout, a cancellation, a success and a skip, whatever the order. With none it is skipped.
pub aggregate_conclusions-worst :
    (conclusions : List JobConclusion)
    → severity (aggregate_conclusions conclusions) ≡ worst conclusions
unfolding aggregate_conclusions worst
aggregate_conclusions-worst [] = refl
aggregate_conclusions-worst (c ∷ conclusions) =
    aggregate_conclusions-cons c conclusions
    ∙ ap (max (severity c)) (aggregate_conclusions-worst conclusions)

-- What the three tests of `dependency_status` find.
record IsScan (needs : List Text) (completed : Map Text JobConclusion) (n : ℕ) : Type 0 where
  any_cancelled : Bool
  any_failed : Bool
  any_skipped : Bool
  cancels : any_completed (is_conclusion cancelled) needs completed ≡ some any_cancelled
  fails : any_completed is_failed needs completed ≡ some any_failed
  skips : any_completed (is_conclusion skipped) needs completed ≡ some any_skipped
  is_worst :
      n ≡ (if any_cancelled then 3 else if any_failed then 2 else if any_skipped then 1 else 0)

any_completed-cons :
    (test : JobConclusion → Bool) (dependency : Text) (needs : List Text)
    (completed : Map Text JobConclusion) (c : JobConclusion) (found : Bool)
    → get dependency completed ≡ some c
    → any_completed test needs completed ≡ some found
    → any_completed test (dependency ∷ needs) completed ≡ some (test c || found)
unfolding any_completed
any_completed-cons test dependency needs completed c found h e = grind arith

worst_of :
    (c : JobConclusion) (a b s : Bool)
    → max (need_severity c) (if a then 3 else if b then 2 else if s then 1 else 0) ≡ (
        if is_conclusion cancelled c || a
        then 3
        else if is_failed c || b
        then 2
        else if is_conclusion skipped c || s
        then 1
        else 0)
worst_of success a b s = ground arith
worst_of failure a b s = ground arith
worst_of timed_out a b s = ground arith
worst_of cancelled a b s = ground arith
worst_of skipped a b s = ground arith

-- The step of `worst_need`, with what it finds for the first need and for the others.
worst_need_step :
    (first : Option JobConclusion) (rest : Option ℕ) (n : ℕ)
    → elim first [
      | none ↦ none
      | some c ↦ elim rest [ none ↦ none | some m ↦ some (max (need_severity c) m) ]
    ]
      ≡ some n
    → (c : JobConclusion) × (m : ℕ) × (first ≡ some c)
      × (rest ≡ some m)
      × (n ≡ max (need_severity c) m)
worst_need_step none rest n h = cc
worst_need_step (some c) none n h = cc
worst_need_step (some c) (some m) n h = (c, m, refl, refl, cc)

scan :
    (needs : List Text) (completed : Map Text JobConclusion) (n : ℕ)
    → worst_need needs completed ≡ some n
    → IsScan needs completed n
unfolding any_completed worst_need
scan [] completed n h = record {
  any_cancelled = false;
  any_failed = false;
  any_skipped = false;
  cancels = refl;
  fails = refl;
  skips = refl;
  is_worst = cc;
}
scan (dependency ∷ needs) completed n h =
    let (c, m, found, rest, worse) =
      worst_need_step (get dependency completed) (worst_need needs completed) n h in
    let tail = scan needs completed m rest in
    record {
      any_cancelled = is_conclusion cancelled c || tail.any_cancelled;
      any_failed = is_failed c || tail.any_failed;
      any_skipped = is_conclusion skipped c || tail.any_skipped;
      cancels =
          any_completed-cons (is_conclusion cancelled) dependency needs completed c _ found
            tail.cancels;
      fails = any_completed-cons is_failed dependency needs completed c _ found tail.fails;
      skips =
          any_completed-cons (is_conclusion skipped) dependency needs completed c _ found
            tail.skips;
      is_worst =
          worse
          ∙ ap (max (need_severity c)) tail.is_worst
          ∙ worst_of c tail.any_cancelled tail.any_failed tail.any_skipped;
    }

chosen :
    (a b s : Bool)
    → Option.map status_severity (
        or_else (some a) ExecutionStatus.cancelled (
          or_else
            (some b)
            ExecutionStatus.failure
            (or_else (some s) ExecutionStatus.skipped (some ExecutionStatus.success))))
      ≡ some (if a then 3 else if b then 2 else if s then 1 else 0)
chosen true b s = refl
chosen false true s = refl
chosen false false true = refl
chosen false false false = refl

-- If every need has a conclusion, then the status that the condition of a job sees is that of
-- the worst of them: cancelled before failed or timed out, before skipped, before success. In
-- particular the look-up never panics.
pub dependency_status-worst_need :
    (needs : List Text) (completed : Map Text JobConclusion) (n : ℕ)
    → worst_need needs completed ≡ some n
    → Option.map status_severity (dependency_status needs completed) ≡ some n
unfolding dependency_status
dependency_status-worst_need needs completed n h =
    let s = scan needs completed n h in
    rw (s.cancels, s.fails, s.skips, s.is_worst) (chosen s.any_cancelled s.any_failed s.any_skipped)
