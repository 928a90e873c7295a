-- ===== src/Commands/Counted.antt =====
-- What `record_annotation` keeps of the limits (crates/gitzero-agent/src/executor.rs).
use gitzero.Commands.Bounded.{IsProcessor}
use gitzero.Prelude.Map.{All-insert, get-All, get, Map}
use gitzero.Commands.State.{or_else, WorkflowCommandProcessor, step_limit, record_annotation}
use gitzero.Protocol.{
  failed_check, warning, notice, max_annotations, CheckAnnotation, CheckAnnotationLevel, level_key,
}
use gitzero.Prelude.{
  pair_key, length-append, All, Bool-cases, List, Option-cases, Text, [], arith, if◌then◌else◌, inl,
  inr, leb, length, ltb, nat_key, refl, subst, sym, text_key, ℕ, ◌++◌, ◌+◌, ◌∷◌, ◌≡◌, ◌≤◌,
}

pub level_limit : (level : CheckAnnotationLevel) → step_limit level ≡ 10
level_limit notice = refl
level_limit warning = refl
level_limit failed_check = refl

count_le :
    (key : Text × CheckAnnotationLevel) (counts : Map (Text × CheckAnnotationLevel) ℕ)
    → All (λ e. e.1 ≤ 10) counts
    → or_else 0 (get key counts) ≤ 10
count_le key counts h = elim (Option-cases (get key counts)) [
  | inl absent ↦ subst (λ o. or_else 0 o ≤ 10) (sym absent) (omega arith)
  | inr (n, present) ↦
      subst (λ o. or_else 0 o ≤ 10) (sym present) (get-All (λ n. n ≤ 10) key counts n present h)
]

kept_le :
    (annotations : List CheckAnnotation) (annotation : CheckAnnotation)
    → length annotations ≤ max_annotations
    → length (
        if ltb (length annotations) max_annotations
        then annotations ++ annotation ∷ []
        else annotations)
      ≤ max_annotations
kept_le annotations annotation h = ground (arith, h, length-append annotations (annotation ∷ []))

module _ {Regex : Type 0} where
  pub record_annotation-IsProcessor :
      (step_id : Text) (annotation : CheckAnnotation) (s : WorkflowCommandProcessor Regex)
      → IsProcessor s
      → IsProcessor (record_annotation step_id annotation s)
  unfolding record_annotation
  record_annotation-IsProcessor step_id annotation s k =
      elim (Bool-cases (leb (step_limit annotation.annotation_level) count)) [
        | inl full ↦
            rw (full, record_annotation)
              (record {
                masks_full = k.masks_full;
                scopes_good = k.scopes_good;
                annotations_capped = k.annotations_capped;
                counts_capped =
                    All-insert (λ e. e.1 ≤ 10) key count s.annotation_counts
                      (count_le key s.annotation_counts k.counts_capped) k.counts_capped;
                matchers_good = k.matchers_good;
              })
        | inr room ↦
            rw (room, record_annotation)
              (record {
                masks_full = k.masks_full;
                scopes_good = k.scopes_good;
                annotations_capped = kept_le s.annotations annotation k.annotations_capped;
                counts_capped =
                    All-insert (λ e. e.1 ≤ 10) key (count + 1) s.annotation_counts
                      (ground (arith, room, level_limit annotation.annotation_level))
                      k.counts_capped;
                matchers_good = k.matchers_good;
              })
      ]
    where
      key : Text × CheckAnnotationLevel
      key = (step_id, annotation.annotation_level)

      count : ℕ
      count = or_else 0 (get key s.annotation_counts)
