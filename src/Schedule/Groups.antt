-- ===== src/Schedule/Groups.antt =====
-- The concurrency groups that `resolve_concurrency` accepts
-- (crates/gitzero-agent/src/executor.rs).
use gitzero.Expression.Render.{render_total}
use gitzero.Expression.Template.{render, trim, evaluate_condition}
use gitzero.Prelude.Result.{err, ok, ok-injective, >>=-eq-ok, guard-eq-ok}
use gitzero.Concurrency.{single, Queue}
use gitzero.Prelude.Utf8.{byte_len}
use gitzero.Schedule.Conditions.{
  max_with_cancel, queue_of, as_expression, resolve_group, invalid_group, is_max, is_empty,
  is_forbidden, is_invalid_group, planned_max, planned_single, PlannedConcurrency, PlannedQueue,
  resolve_concurrency, resolve_rendered,
}
use gitzero.Expression.{Evaluated, EvaluationContext, Package}
use gitzero.Prelude.{
  All, any, Bool, Text, [], ap, arith, false, length, ltb, nat_key, refl, some, some-injective,
  subst, sym, text_key, true, ℕ, ◌&&◌, ◌||◌, ◌∷◌, ◌↔◌, ◌≡◌, ◌≢◌, ◌≤◌, ◌∙◌,
}

-- A valid name of a group: not empty, at most 256 bytes, and no NUL or line break in it.
pub record IsGroupName (group : Text) : Type 0 where
  not_empty : 1 ≤ length group
  short : byte_len group ≤ 256
  plain : All (λ c. (c ≢ 0) × (c ≢ 10) × (c ≢ 13)) group

-- The queue that is planned, which is not `max` together with a cancellation.
unfoldable pub IsQueue : PlannedQueue → Bool → Queue → Type 0
IsQueue planned_single cancel queue = queue ≡ single
IsQueue planned_max cancel queue = (queue ≡ Queue.max) × (cancel ≡ false)

is_forbidden_iff : (c : ℕ) → (is_forbidden c ≡ false) ↔ ((c ≢ 0) × (c ≢ 10) × (c ≢ 13))
is_forbidden_iff c = (
  λ h. (λ e. ground (arith, e, h), λ e. ground (arith, e, h), λ e. ground (arith, e, h)),
  λ (a, b, d). ground (arith, a, b, d),
)

none_forbidden :
    (s : Text) → (any is_forbidden s ≡ false) ↔ All (λ c. (c ≢ 0) × (c ≢ 10) × (c ≢ 13)) s
none_forbidden [] = (λ h. tt, λ h. refl)
none_forbidden (c ∷ s) = (
  λ h. ((is_forbidden_iff c).0 (ground (arith, h)), (none_forbidden s).0 (ground (arith, h))),
  λ (first, rest). ground (arith, (is_forbidden_iff c).1 first, (none_forbidden s).1 rest),
)

not_empty_iff : (s : Text) → (is_empty s ≡ false) ↔ (1 ≤ length s)
not_empty_iff [] = (λ h. cc, λ h. absurd (omega (arith, h)))
not_empty_iff (c ∷ s) = (λ h. omega arith, λ h. refl)

three_false : (a b c : Bool) → ((a || b || c) ≡ false) ↔ ((a ≡ false) × (b ≡ false) × (c ≡ false))
three_false true b c = (λ h. cc, λ h. h.0)
three_false false true c = (λ h. cc, λ h. h.1)
three_false false false c = (λ h. (refl, refl, h), λ h. h.2)

is_invalid_group_iff : (group : Text) → (is_invalid_group group ≡ false) ↔ IsGroupName group
is_invalid_group_iff group = (
  λ h.
      let (full, short, plain) =
        (three_false (is_empty group) (ltb 256 (byte_len group)) (any is_forbidden group)).0 h in
      record {
        not_empty = (not_empty_iff group).0 full;
        short = ground (arith, short);
        plain = (none_forbidden group).0 plain;
      },
  λ v. (three_false (is_empty group) (ltb 256 (byte_len group)) (any is_forbidden group)).1 (
    (not_empty_iff group).1 v.not_empty,
    ground (arith, v.short),
    (none_forbidden group).1 v.plain,
  ),
)

queue_of_iff :
    (planned : PlannedQueue) (cancel : Bool) (queue : Queue)
    → ((queue_of planned ≡ queue) × ((is_max (queue_of planned) && cancel) ≡ false))
      ↔ IsQueue planned cancel queue
unfolding IsQueue
queue_of_iff planned_single cancel queue = (λ h. sym h.0, λ e. (sym e, refl))
queue_of_iff planned_max cancel queue = (λ h. (sym h.0, h.1), λ h. (sym h.0, h.1))

module _ {N : Type 0} (p : Package N) where
  -- What the three parts of a resolved concurrency are.
  pub record IsConcurrency (concurrency : PlannedConcurrency) (context : EvaluationContext N)
      (group : Text) (cancel_in_progress : Bool) (queue : Queue) : Type 0 where
    text : Text
    rendered : render p context concurrency.group ≡ some (ok text)
    trimmed : trim text ≡ group
    name : IsGroupName group
    cancels : evaluate_condition p context concurrency.cancel_in_progress ≡ ok cancel_in_progress
    queued : IsQueue concurrency.queue cancel_in_progress queue

  as_expression_ok : {A : Type 0} (r : Evaluated A) (a : A) → as_expression r ≡ ok a → r ≡ ok a
  as_expression_ok (ok b) a h = ap ok (ok-injective h)
  as_expression_ok (err e) a h = cc

  -- A concurrency is resolved to a group, a cancellation and a queue exactly if the group is the
  -- rendered text without the white space around it, is not empty, has at most 256 bytes and no
  -- NUL or line break, the cancellation is what its condition evaluates to, and the queue is the
  -- planned one, where `max` does not cancel.
  pub resolve_concurrency_iff :
      (concurrency : PlannedConcurrency) (context : EvaluationContext N) (group : Text)
      (cancel_in_progress : Bool) (queue : Queue)
      → (resolve_concurrency p concurrency context ≡ some (ok (group, cancel_in_progress, queue)))
        ↔ IsConcurrency concurrency context group cancel_in_progress queue
  unfolding resolve_concurrency resolve_rendered
  resolve_concurrency_iff concurrency context group cancel_in_progress queue = (resolved, accepted)
    where
      resolved :
          resolve_concurrency p concurrency context ≡ some (ok (group, cancel_in_progress, queue))
          → IsConcurrency concurrency context group cancel_in_progress queue
      resolved h =
          let (r, found) = render_total p context concurrency.group in
          let chain = some-injective (
            subst
              (λ o.
                resolve_group p concurrency context o
                ≡ some (ok (group, cancel_in_progress, queue)))
              found h) in
          let (text, given, rest) =
            >>=-eq-ok (as_expression r) (resolve_rendered p concurrency context) chain in
          let (valid, evaluation) =
            guard-eq-ok (is_invalid_group (trim text)) invalid_group _ rest in
          let (cancel, evaluated, last) =
            >>=-eq-ok (as_expression (evaluate_condition p context concurrency.cancel_in_progress))
              _ evaluation in
          let (compatible, done) =
            guard-eq-ok (is_max (queue_of concurrency.queue) && cancel) max_with_cancel _ last in
          let same = ok-injective done in
          let cancelled = ap (λ r. r.1) same in
          record {
            text = text;
            rendered = found ∙ ap some (as_expression_ok r text given);
            trimmed = ap (λ r. r.0) same;
            name =
                subst IsGroupName (ap (λ r. r.0) same) ((is_invalid_group_iff (trim text)).0 valid);
            cancels = as_expression_ok _ cancel_in_progress (evaluated ∙ ap ok cancelled);
            queued = (queue_of_iff concurrency.queue cancel_in_progress queue).0 (
              ap (λ r. r.2) same,
              subst (λ c. (is_max (queue_of concurrency.queue) && c) ≡ false) cancelled compatible,
            );
          }

      accepted :
          IsConcurrency concurrency context group cancel_in_progress queue
          → resolve_concurrency p concurrency context ≡ some (ok (group, cancel_in_progress, queue))
      accepted s =
          let valid = (is_invalid_group_iff group).1 s.name in
          let (same, compatible) =
            (queue_of_iff concurrency.queue cancel_in_progress queue).1 s.queued in
          rw (s.rendered, s.trimmed, valid, s.cancels, compatible, same) refl
