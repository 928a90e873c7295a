-- ===== src/Expression/Roots.antt =====
-- `EvaluationContext::insert_json` and `extend_json_object` (crates/gitzero-expression/src/lib.rs):
use gitzero.Prelude.Result.{ok_or, ok, err}
use gitzero.Prelude.Map.{get-remove, get-insert, get, Map, insert, remove}
use gitzero.Expression.Evaluate.{insert_root, lookup_root}
use gitzero.Expression.{
  unknown_context, invalid_access, json_conversion, Evaluated, Evaluation, EvaluationContext,
}
use gitzero.Prelude.{
  ascii_lower_idem, to_ascii_lowercase, Option, Option-cases, Text, [], ap, false, inl, inr,
  nat_key, none, refl, some, subst, sym, text_key, ◌==◌, ◌∙◌, ◌∷◌, ◌≡◌,
}

-- the context afterwards, beside the result. The JSON values and their conversions are serde_json's
-- and the package's: `J`, with its objects, and the two conversions, which may fail.
pub record Json (N J : Type 0) : Type 0 where
  pub of_value : J → Option (Evaluation N)
  pub to_value : Evaluation N → Option J
  pub as_object : J → Option (Map Text J)
  pub object : Map Text J → J
  pub json_type : J → Text

to_ascii_lowercase_idem :
    (s : Text) → to_ascii_lowercase (to_ascii_lowercase s) ≡ to_ascii_lowercase s
to_ascii_lowercase_idem [] = refl
to_ascii_lowercase_idem (c ∷ s) = rw (ascii_lower_idem c, to_ascii_lowercase_idem s) refl

abbrev pub Updated : Type 0 → Type 0
Updated N = EvaluationContext N × Evaluated (Unit {0})

module _ {N J : Type 0} (json : Json N J) where
  abbrev pub insert_value : Text → Option (Evaluation N) → EvaluationContext N → Updated N
  insert_value name none c = (c, err json_conversion)
  insert_value name (some v) c = (insert_root name v c, ok tt)

  unfoldable pub insert_json : Text → J → EvaluationContext N → Updated N
  unfolding insert_root
  insert_json name value c = insert_value name (json.of_value value) c

  -- The value that is extended, of the root that was removed.
  unfoldable pub current_value : Option (Evaluation N) → Evaluated J
  current_value none = ok (json.object [])
  current_value (some v) = ok_or (json.to_value v) json_conversion

  -- `object.extend(entries)`
  unfoldable pub extend_object : Map Text J → Map Text J → Map Text J
  unfolding insert
  extend_object o [] = o
  extend_object o ((k, v) ∷ entries) = extend_object (insert k v o) entries

  unfoldable pub extend_current : Text → Map Text J → EvaluationContext N → Evaluated J → Updated N
  unfolding insert_json extend_object
  extend_current name entries c (err e) = (c, err e)
  extend_current name entries c (ok current) = elim (json.as_object current) [
    | none ↦ (c, err (invalid_access name (json.json_type current)))
    | some o ↦ insert_json (to_ascii_lowercase name) (json.object (extend_object o entries)) c
  ]

  unfoldable pub extend_json_object : Text → Map Text J → EvaluationContext N → Updated N
  unfolding remove extend_current current_value
  extend_json_object name entries c =
      let key = to_ascii_lowercase name in
      extend_current name entries (record c { roots = remove key c.roots })
        (current_value (get key c.roots))

  insert_value-get :
      (name : Text) (o : Option (Evaluation N)) (c : EvaluationContext N) (key : Text)
      → (to_ascii_lowercase name == key) ≡ false
      → get key (insert_value name o c).0.roots ≡ get key c.roots
  unfolding insert_root
  insert_value-get name none c key other = refl
  insert_value-get name (some v) c key other =
      get-insert (to_ascii_lowercase name) key v c.roots ∙ rw other refl

  extend_current-get :
      (name : Text) (entries : Map Text J) (c : EvaluationContext N) (current : Evaluated J)
      (key : Text)
      → (to_ascii_lowercase (to_ascii_lowercase name) == key) ≡ false
      → get key (extend_current name entries c current).0.roots ≡ get key c.roots
  unfolding extend_current insert_json
  extend_current-get name entries c (err e) key other = refl
  extend_current-get name entries c (ok current) key other =
      elim (Option-cases (json.as_object current)) [
        | inl plain ↦ rw (plain, extend_current) refl
        | inr (o, held) ↦
            rw (held, extend_current)
              (insert_value-get (to_ascii_lowercase name)
                (json.of_value (json.object (extend_object o entries))) c key other)
      ]

  -- Extending the object of one root changes no root of another name, in any ASCII case, whether
  -- the extension succeeds or fails.
  pub lookup_root-extend_json_object :
      (name other : Text) (entries : Map Text J) (c : EvaluationContext N)
      → (to_ascii_lowercase name == to_ascii_lowercase other) ≡ false
      → lookup_root (extend_json_object name entries c).0 other ≡ lookup_root c other
  unfolding lookup_root extend_json_object
  lookup_root-extend_json_object name other entries c differs =
      let key = to_ascii_lowercase name in
      let wanted = to_ascii_lowercase other in
      let removed = record c { roots = remove key c.roots } in
      ap (λ o. ok_or o (unknown_context other))
        (extend_current-get name entries removed (current_value (get key c.roots)) wanted
            (subst (λ k. (k == wanted) ≡ false) (sym (to_ascii_lowercase_idem name)) differs)
          ∙ get-remove key wanted c.roots
          ∙ rw differs refl)
