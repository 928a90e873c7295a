-- ===== src/Schedule/Processes.antt =====
-- `process_conclusion` and `protocol_conclusion` of crates/gitzero-agent/src/executor.rs, with the
use gitzero.Schedule.Worst.{aggregate_conclusions-worst}
use gitzero.Schedule.Conclusions.{
  skipped, cancelled, severity, timed_out, failure, worst, aggregate_conclusions, success,
  JobConclusion,
}
use gitzero.Prelude.Result.{err, ok, Result}
use gitzero.Prelude.{
  Bool, List, Option, false, nat_key, none, refl, some, text_key, true, ℕ, ◌∙◌, ◌≡◌,
}

-- conclusions of crates/gitzero-protocol/src/lib.rs. `C` is the type of the exit codes, `i32`.
pub data Conclusion : Type 0 where
  succeeds fails is_cancelled times_out is_neutral : Conclusion

pub data ProcessError (C : Type 0) : Type 0 where
  process_cancelled process_timed_out process_io : ProcessError C
  exit : C → ProcessError C

module _ {C : Type 0} where
  unfoldable pub process_conclusion : Result (ProcessError C) C → Bool → Conclusion × Option C
  process_conclusion (ok code) job_timed_out = (succeeds, some code)
  process_conclusion (err process_cancelled) true = (times_out, none)
  process_conclusion (err process_cancelled) false = (is_cancelled, none)
  process_conclusion (err process_timed_out) job_timed_out = (times_out, none)
  process_conclusion (err (exit code)) job_timed_out = (fails, some code)
  process_conclusion (err process_io) job_timed_out = (fails, none)

unfoldable pub protocol_conclusion : JobConclusion → Conclusion
protocol_conclusion success = succeeds
protocol_conclusion failure = fails
protocol_conclusion timed_out = times_out
protocol_conclusion cancelled = is_cancelled
protocol_conclusion skipped = is_neutral

-- How bad a conclusion that is reported is, in the order of `severity`.
abbrev pub reported_severity : Conclusion → ℕ
reported_severity is_neutral = 0
reported_severity succeeds = 1
reported_severity is_cancelled = 2
reported_severity times_out = 3
reported_severity fails = 4

-- What is reported for a job is the worst of the conclusions of its matrix: reporting loses
-- nothing of the order of the conclusions.
pub protocol_conclusion-aggregate_conclusions :
    (conclusions : List JobConclusion)
    → reported_severity (protocol_conclusion (aggregate_conclusions conclusions))
      ≡ worst conclusions
unfolding protocol_conclusion
protocol_conclusion-aggregate_conclusions conclusions =
    reported (aggregate_conclusions conclusions) ∙ aggregate_conclusions-worst conclusions
  where
    reported : (c : JobConclusion) → reported_severity (protocol_conclusion c) ≡ severity c
    reported success = refl
    reported failure = refl
    reported timed_out = refl
    reported cancelled = refl
    reported skipped = refl
