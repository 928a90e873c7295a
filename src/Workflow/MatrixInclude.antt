-- ===== src/Workflow/MatrixInclude.antt =====
-- The include entries of `expand_matrix_definition` (crates/gitzero-workflow/src/lib.rs).
use gitzero.Prelude.Result.{guard-eq-ok, ok-injective, ok}
use gitzero.Workflow.Matrix.{
  over_limit, limit, extend, add_include, add_includes, augment, is_absent_or, is_compatible,
}
use gitzero.Prelude.Map.{get-insert, insert, get, Map}
use gitzero.Prelude.{
  some-injective, &&-true, ==_iff, Bool, Bool-cases, List, Option, Text, [], ap, get_elem?, inl,
  inr, length, ltb, nat_key, none, refl, some, subst, suc, sym, text_key, true, zero, ℕ, ◌++◌, ◌==◌,
  ◌∙◌, ◌∷◌, ◌≡◌,
}

module _ {J : Type 0} where
  -- What an original combination has under a key, its combination has too.
  abbrev Extends : Map Text J → Map Text J → Type 0
  Extends original combination =
      (key : Text) (v : J) → get key original ≡ some v → get key combination ≡ some v

  -- The combinations extend the original ones, in order, with others behind them.
  unfoldable Extend : List (Map Text J) → List (Map Text J) → Type 0
  Extend [] combinations = Unit
  Extend (original ∷ originals) [] = ⊥
  Extend (original ∷ originals) (c ∷ combinations) =
      Extends original c × Extend originals combinations

  Extend-self : (originals : List (Map Text J)) → Extend originals originals
  unfolding Extend
  Extend-self [] = tt
  Extend-self (original ∷ originals) = ((λ key v h. h), Extend-self originals)

  Extend-append :
      (originals combinations more : List (Map Text J))
      → Extend originals combinations
      → Extend originals (combinations ++ more)
  unfolding Extend
  Extend-append [] combinations more e = tt
  Extend-append (original ∷ originals) [] more e = elim e [ ]
  Extend-append (original ∷ originals) (c ∷ combinations) more (e, rest) =
      (e, Extend-append originals combinations more rest)

  Extend-get_elem? :
      (i : ℕ) (originals combinations : List (Map Text J)) (original : Map Text J)
      → Extend originals combinations
      → get_elem? originals i ≡ some original
      → (c : Map Text J) × (get_elem? combinations i ≡ some c) × Extends original c
  unfolding Extend
  Extend-get_elem? i [] combinations original e h = cc
  Extend-get_elem? zero (o ∷ originals) [] original e h = elim e [ ]
  Extend-get_elem? (suc i) (o ∷ originals) [] original e h = elim e [ ]
  Extend-get_elem? zero (o ∷ originals) (c ∷ combinations) original (e, rest) h =
      (c, refl, subst (λ o. Extends o c) (some-injective h) e)
  Extend-get_elem? (suc i) (o ∷ originals) (c ∷ combinations) original (e, rest) h =
      Extend-get_elem? i originals combinations original rest h

module _ {J : Type 0} (same : J → J → Bool) (exact : (v w : J) → same v w ≡ true → v ≡ w) where
  -- A value that the combination has or leaves open, written where the combination already agrees.
  is_absent_or-eq :
      (o : Option J) (v w : J) → is_absent_or same o v ≡ true → o ≡ some w → some v ≡ some w
  is_absent_or-eq none v w h e = cc
  is_absent_or-eq (some u) v w h e = sym (ap some (exact u v h)) ∙ e

  insert-Extends :
      (original combination : Map Text J) (k : Text) (v : J)
      → is_absent_or same (get k original) v ≡ true
      → Extends original combination
      → Extends original (insert k v combination)
  insert-Extends original combination k v h e key w has = elim (Bool-cases (k == key)) [
    | inl here ↦
        get-insert k key v combination
        ∙ rw here (is_absent_or-eq (get k original) v w h (rw ((==_iff k key).0 here) has))
    | inr other ↦ get-insert k key v combination ∙ rw other (e key w has)
  ]

  extend-Extends :
      (original combination include : Map Text J)
      → is_compatible same original include ≡ true
      → Extends original combination
      → Extends original (extend combination include)
  unfolding is_compatible extend
  extend-Extends original combination [] h e = e
  extend-Extends original combination ((k, v) ∷ include) h e =
      let (first, rest) = &&-true _ _ h in
      extend-Extends original (insert k v combination) include rest
        (insert-Extends original combination k v first e)

  augment-Extend :
      (include : Map Text J) (originals combinations : List (Map Text J))
      → Extend originals combinations
      → Extend originals (augment same include originals combinations).0
  unfolding Extend augment
  augment-Extend include [] combinations e = tt
  augment-Extend include (original ∷ originals) [] e = elim e [ ]
  augment-Extend include (original ∷ originals) (c ∷ combinations) (e, rest) =
      elim (Bool-cases (is_compatible same original include)) [
        | inl fits ↦ rw fits (
          extend-Extends original c include fits e,
          augment-Extend include originals combinations rest,
        )
        | inr other ↦ rw other (e, augment-Extend include originals combinations rest)
      ]

  add_include-Extend :
      (originals combinations : List (Map Text J)) (include : Map Text J)
      → Extend originals combinations
      → Extend originals (add_include same originals include combinations)
  unfolding add_include
  add_include-Extend originals combinations include e =
      let kept = augment-Extend include originals combinations e in
      let augmented = augment same include originals combinations in
      elim (Bool-cases augmented.1) [
        | inl applied ↦ rw applied kept
        | inr unused ↦ rw unused (Extend-append originals augmented.0 (include ∷ []) kept)
      ]

  add_includes-Extend :
      (originals includes combinations result : List (Map Text J))
      → Extend originals combinations
      → add_includes same originals includes combinations ≡ ok result
      → Extend originals result
  unfolding add_includes
  add_includes-Extend originals [] combinations result e h =
      subst (Extend originals) (ok-injective h) e
  add_includes-Extend originals (include ∷ includes) combinations result e h =
      let next = add_include same originals include combinations in
      let (fits, rest) =
        guard-eq-ok (ltb limit (length next)) over_limit (add_includes same originals includes next)
          h in
      add_includes-Extend originals includes next result
        (add_include-Extend originals combinations include e) rest

  -- With an equality of values that holds only of equal ones: whatever the include entries are,
  -- if they are accepted, then every original combination stays at its place, and what it had
  -- under a key is not overwritten.
  pub add_includes_keep :
      (originals includes result : List (Map Text J)) (i : ℕ) (original : Map Text J) (key : Text)
      (v : J)
      → add_includes same originals includes originals ≡ ok result
      → get_elem? originals i ≡ some original
      → get key original ≡ some v
      → (c : Map Text J) × (get_elem? result i ≡ some c) × (get key c ≡ some v)
  add_includes_keep originals includes result i original key v accepted at has =
      let extends =
        add_includes-Extend originals includes originals result (Extend-self originals) accepted in
      let (c, there, e) = Extend-get_elem? i originals result original extends at in
      (c, there, e key v has)
