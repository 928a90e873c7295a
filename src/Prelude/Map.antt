-- ===== src/Prelude/Map.antt =====
-- `BTreeMap`, `BTreeSet` and `HashMap` of the standard library as lists of entries. `insert` keeps
-- the keys ascending, so iteration has the order of a `BTreeMap`; a `HashMap` iterates in an
-- unspecified order, and no theorem about one depends on it.
use mathlib.Core.Path.{◌≡◌, refl, subst}
use mathlib.Core.Bool.{Bool, true, false}
use mathlib.Core.List.{List, [], ◌∷◌}
use mathlib.Core.Option.{Option, none, some}
use native.Mathlib.Omega.{arith}
use gitzero.Prelude.Keys.{Key, ◌==◌, ==_iff}
use mathlib.Core.Logic.{inl, inr}
use gitzero.Prelude.Lists.{All}
use gitzero.Prelude.Tests.{if◌then◌else◌, Bool-cases, some-injective}

abbrev pub Map {ℓ κ} : Type ℓ → Type κ → Type (ℓ ⊔ κ)
Map K V = List (K × V)

module _ {ℓ κ} {K : Type ℓ} {V : Type κ} ⦃o : Key K⦄ where
  unfoldable pub get : K → Map K V → Option V
  get k [] = none
  get k ((j, v) ∷ m) = if j == k then some v else get k m

  unfoldable pub insert : K → V → Map K V → Map K V
  insert k v [] = (k, v) ∷ []
  insert k v ((j, w) ∷ m) =
      if j == k
      then (k, v) ∷ m
      else if o.less k j
      then (k, v) ∷ (j, w) ∷ m
      else (j, w) ∷ insert k v m

  unfoldable pub remove : K → Map K V → Map K V
  remove k [] = []
  remove k ((j, w) ∷ m) = let rest = remove k m in if j == k then rest else (j, w) ∷ rest

  -- `insert` of a `HashMap`, which keeps no order.
  unfoldable pub put : K → V → Map K V → Map K V
  unfolding remove
  put k v m = (k, v) ∷ remove k m

  abbrev pub contains_key : K → Map K V → Bool
  contains_key k m = elim (get k m) [ none ↦ false | some _ ↦ true ]

  pub get-insert :
      (k j : K) (v : V) (m : Map K V) → get j (insert k v m) ≡ (if k == j then some v else get j m)
  unfolding get insert
  get-insert k j v [] = refl
  get-insert k j v ((i, w) ∷ m) =
      ground (arith, ==_iff k j, ==_iff i k, ==_iff i j, get-insert k j v m)

  pub get-remove : (k j : K) (m : Map K V) → get j (remove k m) ≡ (if k == j then none else get j m)
  unfolding get remove
  get-remove k j [] = ground arith
  get-remove k j ((i, w) ∷ m) = ground (arith, ==_iff k j, ==_iff i k, ==_iff i j, get-remove k j m)

  pub get-put :
      (k j : K) (v : V) (m : Map K V) → get j (put k v m) ≡ (if k == j then some v else get j m)
  unfolding put get
  get-put k j v m = ground (arith, get-remove k j m)

  pub ruleset map_laws = (get-insert, get-remove, get-put)

  pub All-insert {ι} :
      (P : K × V → Type ι) (k : K) (v : V) (m : Map K V) → P (k, v) → All P m → All P (insert k v m)
  unfolding insert
  All-insert P k v [] p h = (p, tt)
  All-insert P k v ((j, w) ∷ m) p h = elim (Bool-cases (j == k)) [
    | inl same ↦ rw same (p, h.1)
    | inr other ↦ rw other (elim (Bool-cases (o.less k j)) [
      | inl before ↦ rw before (p, h)
      | inr behind ↦ rw behind (h.0, All-insert P k v m p h.1)
    ])
  ]

  pub get-All {ι} :
      (P : V → Type ι) (k : K) (m : Map K V) (v : V) → get k m ≡ some v → All (λ e. P e.1) m → P v
  unfolding get
  get-All P k [] v h a = cc
  get-All P k ((j, w) ∷ m) v h a = elim (Bool-cases (j == k)) [
    | inl same ↦ subst P (some-injective (found same h)) a.0
    | inr other ↦ get-All P k m v (later other h) a.1
  ]
    where
      found : (j == k) ≡ true → get k ((j, w) ∷ m) ≡ some v → some w ≡ some v
      found same h = ground (arith, same, h)

      later : (j == k) ≡ false → get k ((j, w) ∷ m) ≡ some v → get k m ≡ some v
      later other h = ground (arith, other, h)

  pub All-remove {ι} : (P : K × V → Type ι) (k : K) (m : Map K V) → All P m → All P (remove k m)
  unfolding remove
  All-remove P k [] h = tt
  All-remove P k ((j, w) ∷ m) (p, h) = elim (Bool-cases (j == k)) [
    | inl same ↦ rw (same, remove) (All-remove P k m h)
    | inr other ↦ rw (other, remove) (p, All-remove P k m h)
  ]
