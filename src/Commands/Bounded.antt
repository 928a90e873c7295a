-- ===== src/Commands/Bounded.antt =====
-- What holds of the workflow command processor between two operations
-- (crates/gitzero-agent/src/executor.rs).
use gitzero.Prelude.Map.{get-All, All-insert, get}
use gitzero.Commands.Hidden.{register_mask-IsScope}
use gitzero.Matcher.Active.{IsRegistry}
use gitzero.Matcher.Registry.{ProblemMatcherRegistry}
use gitzero.Commands.Masks.{WorkflowCommandScope}
use gitzero.Protocol.{max_annotations}
use gitzero.Prelude.Split.{is_empty}
use gitzero.Commands.MaskLists.{all_append, none_empty, IsScope}
use gitzero.Prelude.Result.{err, ok, Result}
use gitzero.Commands.State.{
  panicked, drop_repeated, ProcessError, empty_scope, or_else, scope_of, set_scope,
  WorkflowCommandProcessor, dedup, insert_global, register_global_mask, register_scope_mask,
  set_stop_token, sort_global, with_global_masks,
}
use gitzero.Prelude.{
  &&-true, All, Bool, Bool-cases, List, Option, Option-cases, Text, [], any, arith, false, inl, inr,
  length, nat_key, not, refl, subst, sym, text_key, true, ◌&&◌, ◌++◌, ◌==◌, ◌||◌, ◌∙◌, ◌∷◌, ◌≡◌,
  ◌≤◌,
}

-- The masks are never empty and every scope is well-formed, at most 50 annotations are kept, no
-- level of a step counts more than 10, and the registry of matchers is well-formed.
pub record IsProcessor {Regex : Type 0} (s : WorkflowCommandProcessor Regex) : Type 0 where
  pub masks_full : none_empty s.global_masks ≡ true
  pub scopes_good : All (λ e. IsScope e.1) s.scopes
  pub annotations_capped : length s.annotations ≤ max_annotations
  pub counts_capped : All (λ e. e.1 ≤ 10) s.annotation_counts
  pub matchers_good : IsRegistry s.problem_matchers

-- Whether a result stands for a panic.
abbrev pub panics {ℓ} : {A : Type ℓ} → Result ProcessError A → Bool
panics (ok a) = false
panics (err panicked) = true
panics (err _) = false

-- The processor is well-formed afterwards, and nothing panicked.
abbrev pub Completes {ℓ} :
    {Regex : Type 0} {A : Type ℓ} → WorkflowCommandProcessor Regex × Result ProcessError A → Type 0
Completes (s, r) = IsProcessor s × (panics r ≡ false)

empty_scope-IsScope : IsScope empty_scope
empty_scope-IsScope = record {
  counted = refl;
  bytes_capped = omega arith;
  masks_capped = omega arith;
  not_empty = refl;
  once = refl;
}

insert_global-none_empty :
    (x : Text) (masks : List Text)
    → none_empty (insert_global x masks) ≡ (not (is_empty x) && none_empty masks)
unfolding insert_global
insert_global-none_empty x [] = refl
insert_global-none_empty x (y ∷ masks) = ground (arith, insert_global-none_empty x masks)

pub sort_global-none_empty : (masks : List Text) → none_empty (sort_global masks) ≡ none_empty masks
unfolding sort_global
sort_global-none_empty [] = refl
sort_global-none_empty (x ∷ masks) =
    rw (insert_global-none_empty x (sort_global masks), sort_global-none_empty masks) refl

drop_repeated-none_empty :
    (x : Text) (masks : List Text)
    → not (is_empty x) ≡ true
    → none_empty masks ≡ true
    → none_empty (drop_repeated x masks) ≡ true
drop_repeated-none_empty x [] h k = ground (arith, h)
drop_repeated-none_empty x (y ∷ masks) h k = ground (arith, h, k)

pub dedup-none_empty :
    (masks : List Text) → none_empty masks ≡ true → none_empty (dedup masks) ≡ true
unfolding dedup
dedup-none_empty [] h = refl
dedup-none_empty (x ∷ masks) h =
    let (full, rest) = &&-true (not (is_empty x)) (none_empty masks) h in
    drop_repeated-none_empty x (dedup masks) full (dedup-none_empty masks rest)

-- The stop token is no part of what holds of a scope.
pub stop_token-IsScope :
    (scope : WorkflowCommandScope) (token : Option Text)
    → IsScope scope
    → IsScope (record scope { stop_token = token })
stop_token-IsScope scope token k = record {
  counted = k.counted;
  bytes_capped = k.bytes_capped;
  masks_capped = k.masks_capped;
  not_empty = k.not_empty;
  once = k.once;
}

module _ {Regex : Type 0} where
  pub with_global_masks-IsProcessor :
      (masks : List Text) (folder root : Text)
      → none_empty masks ≡ true
      → IsProcessor (with_global_masks {Regex = Regex} masks folder root)
  unfolding with_global_masks IsRegistry
  with_global_masks-IsProcessor masks folder root full = record {
    masks_full = dedup-none_empty (sort_global masks) (sort_global-none_empty masks ∙ full);
    scopes_good = tt;
    annotations_capped = omega arith;
    counts_capped = tt;
    matchers_good = tt;
  }

  pub scope_of-IsScope :
      (scope_id : Text) (s : WorkflowCommandProcessor Regex)
      → IsProcessor s
      → IsScope (scope_of scope_id s)
  scope_of-IsScope scope_id s k = elim (Option-cases (get scope_id s.scopes)) [
    | inl absent ↦ subst (λ o. IsScope (or_else empty_scope o)) (sym absent) empty_scope-IsScope
    | inr (scope, present) ↦
        subst (λ o. IsScope (or_else empty_scope o)) (sym present)
          (get-All IsScope scope_id s.scopes scope present k.scopes_good)
  ]

  pub set_scope-IsProcessor :
      (scope_id : Text) (scope : WorkflowCommandScope) (s : WorkflowCommandProcessor Regex)
      → IsScope scope
      → IsProcessor s
      → IsProcessor (set_scope scope_id scope s)
  set_scope-IsProcessor scope_id scope s good k = record {
    masks_full = k.masks_full;
    scopes_good = All-insert (λ e. IsScope e.1) scope_id scope s.scopes good k.scopes_good;
    annotations_capped = k.annotations_capped;
    counts_capped = k.counts_capped;
    matchers_good = k.matchers_good;
  }

  pub set_stop_token-IsProcessor :
      (scope_id : Text) (token : Option Text) (s : WorkflowCommandProcessor Regex)
      → IsProcessor s
      → IsProcessor (set_stop_token scope_id token s)
  unfolding set_stop_token
  set_stop_token-IsProcessor scope_id token s k =
      set_scope-IsProcessor scope_id _ s
        (stop_token-IsScope (scope_of scope_id s) token (scope_of-IsScope scope_id s k)) k

  pub register_scope_mask-Completes :
      (scope_id value : Text) (s : WorkflowCommandProcessor Regex)
      → IsProcessor s
      → Completes (register_scope_mask scope_id value s)
  unfolding register_scope_mask
  register_scope_mask-Completes scope_id value s k = (
    set_scope-IsProcessor scope_id _ s
        (register_mask-IsScope value (scope_of scope_id s) (scope_of-IsScope scope_id s k)) k,
    ground arith,
  )

  pub register_global_mask-IsProcessor :
      (value : Text) (s : WorkflowCommandProcessor Regex)
      → IsProcessor s
      → IsProcessor (register_global_mask value s)
  unfolding register_global_mask
  register_global_mask-IsProcessor value s k =
      elim (Bool-cases (is_empty value || any (λ mask. mask == value) s.global_masks)) [
        | inl passed ↦ rw (passed, register_global_mask) k
        | inr new ↦
            rw (new, register_global_mask)
              (record {
                masks_full =
                    sort_global-none_empty (s.global_masks ++ value ∷ [])
                    ∙ all_append s.global_masks (λ mask. not (is_empty mask)) value
                    ∙ ground (arith, new, k.masks_full);
                scopes_good = k.scopes_good;
                annotations_capped = k.annotations_capped;
                counts_capped = k.counts_capped;
                matchers_good = k.matchers_good;
              })
      ]

  pub set_matchers-IsProcessor :
      (registry : ProblemMatcherRegistry Regex) (s : WorkflowCommandProcessor Regex)
      → IsRegistry registry
      → IsProcessor s
      → IsProcessor (record s { problem_matchers = registry })
  set_matchers-IsProcessor registry s good k = record {
    masks_full = k.masks_full;
    scopes_good = k.scopes_good;
    annotations_capped = k.annotations_capped;
    counts_capped = k.counts_capped;
    matchers_good = good;
  }
