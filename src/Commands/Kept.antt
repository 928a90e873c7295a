-- ===== src/Commands/Kept.antt =====
-- Which annotations a job keeps (crates/gitzero-agent/src/executor.rs).
use gitzero.Commands.MaskLists.{none_empty}
use gitzero.Commands.Bounded.{with_global_masks-IsProcessor, IsProcessor}
use gitzero.Commands.Counted.{record_annotation-IsProcessor, level_limit}
use gitzero.Prelude.Map.{get-insert, insert, get}
use gitzero.Commands.State.{
  with_global_masks, or_else, step_limit, WorkflowCommandProcessor, record_annotation,
}
use gitzero.Protocol.{max_annotations, CheckAnnotation, CheckAnnotationLevel}
use gitzero.Protocol.{level_key}
use gitzero.Prelude.{
  pair_key, ==_iff, Bool-cases, List, Text, [], ap, append-nil, append_assoc, arith, false,
  if◌then◌else◌, inl, inr, leb, length, ltb, nat_key, refl, subst, suc, sym, text_key, true, zero,
  ℕ, ◌++◌, ◌+◌, ◌==◌, ◌∙◌, ◌∷◌, ◌≡◌, ◌≤◌,
}

-- A step, and an annotation that it offers.
abbrev pub Offer : Type 0
Offer = Text × CheckAnnotation

abbrev pub key_of : Offer → Text × CheckAnnotationLevel
key_of (step_id, annotation) = (step_id, annotation.annotation_level)

-- How often a step has offered annotations of a level.
unfoldable pub count_of : Text × CheckAnnotationLevel → List Offer → ℕ
count_of key [] = 0
count_of key (o ∷ offers) =
    let rest = count_of key offers in if key_of o == key then suc rest else rest

-- The offers that are among the first ten of their step and level.
unfoldable pub admitted : List Offer → List Offer → List CheckAnnotation
unfolding count_of
admitted before [] = []
admitted before (o ∷ offers) =
    let rest = admitted (o ∷ before) offers in
    if ltb (count_of (key_of o) before) 10 then o.1 ∷ rest else rest

-- List.take over the native ℕ
unfoldable pub take {ℓ} : {A : Type ℓ} → ℕ → List A → List A
take n [] = []
take zero (x ∷ xs) = []
take (suc n) (x ∷ xs) = x ∷ take n xs

take-append : {A : Type 0} (n : ℕ) (xs ys : List A) → n ≤ length xs → take n (xs ++ ys) ≡ take n xs
unfolding take
take-append zero [] [] h = refl
take-append zero [] (y ∷ ys) h = refl
take-append (suc n) [] ys h = absurd (omega arith)
take-append zero (x ∷ xs) ys h = refl
take-append (suc n) (x ∷ xs) ys h = ap (λ t. x ∷ t) (take-append n xs ys (omega arith))

take_all : {A : Type 0} (n : ℕ) (xs : List A) → length xs ≤ n → take n xs ≡ xs
unfolding take
take_all n [] h = refl
take_all zero (x ∷ xs) h = absurd (omega arith)
take_all (suc n) (x ∷ xs) h = ap (λ t. x ∷ t) (take_all n xs (omega arith))

-- Up to ten.
abbrev capped : ℕ → ℕ
capped n = if leb 10 n then 10 else n

abbrev recorded :
    {Regex : Type 0} → WorkflowCommandProcessor Regex → Text × CheckAnnotationLevel → ℕ
recorded s key = or_else 0 (get key s.annotation_counts)

-- The processor counts the offers up to ten.
Counts : {Regex : Type 0} → WorkflowCommandProcessor Regex → List Offer → Type 0
Counts s before =
    (key : Text × CheckAnnotationLevel) → recorded s key ≡ capped (count_of key before)

unfoldable pub record_all :
    {Regex : Type 0} → List Offer → WorkflowCommandProcessor Regex → WorkflowCommandProcessor Regex
unfolding record_annotation
record_all [] s = s
record_all (o ∷ offers) s = record_all offers (record_annotation o.0 o.1 s)

-- An annotation is added while there is room.
fills :
    (annotations rest : List CheckAnnotation) (annotation : CheckAnnotation)
    → take max_annotations (
        (if ltb (length annotations) max_annotations
          then annotations ++ annotation ∷ []
          else annotations)
        ++ rest)
      ≡ take max_annotations (annotations ++ annotation ∷ rest)
fills annotations rest annotation = elim (Bool-cases (ltb (length annotations) max_annotations)) [
  | inl room ↦ rw room (ap (take max_annotations) (append_assoc annotations (annotation ∷ []) rest))
  | inr full ↦ rw full (
      take-append max_annotations annotations rest (ground (arith, full))
      ∙ sym (take-append max_annotations annotations (annotation ∷ rest) (ground (arith, full))))
]

module _ {Regex : Type 0} where
  recorded-insert :
      (s : WorkflowCommandProcessor Regex) (before : List Offer) (o : Offer) (n : ℕ)
      (key : Text × CheckAnnotationLevel)
      → Counts s before
      → n ≡ capped (suc (count_of (key_of o) before))
      → or_else 0 (get key (insert (key_of o) n s.annotation_counts))
        ≡ capped (count_of key (o ∷ before))
  unfolding count_of Counts
  recorded-insert s before o n key counts e =
      ap (or_else 0) (get-insert (key_of o) key n s.annotation_counts)
      ∙ elim (Bool-cases (key_of o == key)) [
        | inl same ↦
            rw same
              (subst (λ k. n ≡ capped (suc (count_of k before))) ((==_iff (key_of o) key).0 same) e)
        | inr other ↦ rw other (counts key)
      ]

  step-Counts :
      (s : WorkflowCommandProcessor Regex) (before : List Offer) (o : Offer)
      → Counts s before
      → Counts (record_annotation o.0 o.1 s) (o ∷ before)
  unfolding record_annotation Counts
  step-Counts s before o counts key =
      elim (Bool-cases (leb (step_limit o.1.annotation_level) (recorded s (key_of o)))) [
        | inl full ↦
            rw (full, record_annotation)
              (recorded-insert s before o (recorded s (key_of o)) key counts
                (ground (arith, full, level_limit o.1.annotation_level, counts (key_of o))))
        | inr room ↦
            rw (room, record_annotation)
              (recorded-insert s before o (recorded s (key_of o) + 1) key counts
                (ground (arith, room, level_limit o.1.annotation_level, counts (key_of o))))
      ]

  -- What one offer adds.
  step_keeps :
      (s : WorkflowCommandProcessor Regex) (before offers : List Offer) (o : Offer)
      → Counts s before
      → take max_annotations
          ((record_annotation o.0 o.1 s).annotations ++ admitted (o ∷ before) offers)
        ≡ take max_annotations (s.annotations ++ admitted before (o ∷ offers))
  unfolding record_annotation Counts admitted
  step_keeps s before offers o counts =
      elim (Bool-cases (leb (step_limit o.1.annotation_level) (recorded s (key_of o)))) [
        | inl full ↦
            let dropped : ltb (count_of (key_of o) before) 10 ≡ false =
              ground (arith, full, level_limit o.1.annotation_level, counts (key_of o)) in
            rw (full, record_annotation) rw (dropped, admitted) refl
        | inr room ↦
            let taken : ltb (count_of (key_of o) before) 10 ≡ true =
              ground (arith, room, level_limit o.1.annotation_level, counts (key_of o)) in
            rw (room, record_annotation) rw (taken, admitted)
              (fills s.annotations (admitted (o ∷ before) offers) o.1)
      ]

  keeps_from :
      (offers before : List Offer) (s : WorkflowCommandProcessor Regex)
      → Counts s before
      → IsProcessor s
      → (record_all offers s).annotations
        ≡ take max_annotations (s.annotations ++ admitted before offers)
  unfolding record_all admitted
  keeps_from [] before s counts k = sym (
      ap (take max_annotations) (append-nil s.annotations)
      ∙ take_all max_annotations s.annotations k.annotations_capped)
  keeps_from (o ∷ offers) before s counts k =
      keeps_from offers (o ∷ before) (record_annotation o.0 o.1 s) (step-Counts s before o counts)
        (record_annotation-IsProcessor o.0 o.1 s k)
      ∙ step_keeps s before offers o counts

none_yet :
    (Regex : Type 0) (masks : List Text) (folder root : Text)
    → Counts (with_global_masks {Regex = Regex} masks folder root) []
unfolding Counts with_global_masks count_of get
none_yet Regex masks folder root key = refl

-- Of the annotations that the steps of a job offer, those are kept that are among the first ten of
-- their step and level, in their order, and of them the first fifty.
pub record_all-admitted :
    (Regex : Type 0) (masks : List Text) (folder root : Text) (offers : List Offer)
    → none_empty masks ≡ true
    → (record_all offers (with_global_masks {Regex = Regex} masks folder root)).annotations
      ≡ take max_annotations (admitted [] offers)
unfolding with_global_masks
record_all-admitted Regex masks folder root offers full =
    keeps_from offers [] (with_global_masks masks folder root) (none_yet Regex masks folder root)
      (with_global_masks-IsProcessor masks folder root full)
