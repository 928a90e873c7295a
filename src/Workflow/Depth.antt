-- ===== src/Workflow/Depth.antt =====
-- The fuel of `validate_dependencies` (crates/gitzero-workflow/src/lib.rs), which bounds the depth
-- of the visit.
use gitzero.Prelude.{
  ==_iff, ==_refl, Bool-cases, List, Option, Text, [], ap, arith, if◌then◌else◌, inl, inr, length,
  nat_key, none, refl, some, suc, text_key, true, zero, ℕ, ◌+◌, ◌<◌, ◌==◌, ◌∷◌, ◌≡◌, ◌≢◌, ◌≤◌,
}
use gitzero.Prelude.Map.{get, insert, contains_key, get-insert}
use gitzero.Prelude.Result.{Result, ok, err}
use gitzero.Workflow.Dependencies.{
  Graph, keys, States, Visit, Mark, visiting, visited, and_then, visit, visit_each, visit_needs,
  visit_marked, PlannedJob, build_graph, check_graph, visit_graph, validate_dependencies,
  checked_visit, finish_visit, DependencyError,
}
use gitzero.Workflow.Acyclic.{Ranked, Ranked-empty, Ranked-enter, visit-Promise, Grows, Promise}

-- How many jobs of the list have no state yet.
unmarked : States → Graph → ℕ
unmarked s [] = 0
unmarked s ((k, v) ∷ m) = (if contains_key k s then 0 else 1) + unmarked s m

unmarked_le_length : (s : States) (m : Graph) → unmarked s m ≤ length m
unfolding unmarked
unmarked_le_length s [] = omega arith
unmarked_le_length s ((k, v) ∷ m) = ground (arith, unmarked_le_length s m)

-- Every state that is there stays there.
abbrev Keeps : States → States → Type 0
Keeps s t = (k : Text) → contains_key k s ≡ true → contains_key k t ≡ true

Grows-Keeps : {s t : States} → Grows s t → Keeps s t
Grows-Keeps {s} {t} g k h = ground (arith, g.visited_stays k, g.visiting_stays k)

unmarked-Keeps : (s t : States) (m : Graph) → Keeps s t → unmarked t m ≤ unmarked s m
unfolding unmarked
unmarked-Keeps s t [] h = omega arith
unmarked-Keeps s t ((k, v) ∷ m) h = ground (arith, h k, unmarked-Keeps s t m h)

insert-Keeps : (job : Text) (m : Mark) (s : States) → Keeps s (insert job m s)
insert-Keeps job m s k h = ground (arith, get-insert job k m s)

-- To enter a job of the graph leaves one job less.
unmarked-insert :
    (job : Text) (s : States) (m : Graph)
    → get job s ≡ none
    → contains_key job m ≡ true
    → unmarked (insert job visiting s) m < unmarked s m
unfolding unmarked get
unmarked-insert job s [] fresh h = cc
unmarked-insert job s ((k, v) ∷ m) fresh h = elim (Bool-cases (k == job)) [
  | inl here ↦
      let same : k ≡ job = (==_iff k job).0 here in
      ground (
        arith,
        unmarked-Keeps s (insert job visiting s) m (insert-Keeps job visiting s),
        get-insert job k visiting s,
        ap (λ x. get x s) same,
        ==_refl job,
        ==_iff job k,
      )
  | inr there ↦ ground (arith, unmarked-insert job s m fresh, insert-Keeps job visiting s k)
]

module _ (graph : Graph) where
  abbrev Returns : ℕ → (Text → States → Visit) → Type 0
  Returns fuel go =
      (job : Text) (s : States) → unmarked s graph < fuel → Ranked graph s → go job s ≢ none

  module _ (fuel : ℕ) (go : Text → States → Visit) (promise : Promise graph go)
      (returns : Returns fuel go) where
    visit_each-Returns :
        (jobs : List Text) (s : States)
        → unmarked s graph < fuel
        → Ranked graph s
        → visit_each go jobs s ≢ none
    unfolding visit_each
    visit_each-Returns [] s l r h = cc
    visit_each-Returns (job ∷ jobs) s l r h =
        after (λ u l' r'. visit_each-Returns jobs u l' r') (go job s) refl h
      where
        after :
            ((u : States) → unmarked u graph < fuel → Ranked graph u → visit_each go jobs u ≢ none)
            → (v : Visit) → go job s ≡ v
            → and_then v (visit_each go jobs) ≢ none
        after rest none e k = returns job s l r e
        after rest (some (err x)) e k = cc
        after rest (some (ok u)) e k =
            let (ru, grows, end) = promise job s u e r in
            rest u (omega (arith, unmarked-Keeps s u graph (Grows-Keeps grows))) ru k

    visit_needs-Returns :
        (job : Text) (o : Option (List Text)) (s : States)
        → get job graph ≡ o
        → get job s ≡ none
        → unmarked s graph < suc fuel
        → Ranked graph s
        → visit_needs go job o s ≢ none
    unfolding visit_needs
    visit_needs-Returns job none s listed fresh l r h = cc
    visit_needs-Returns job (some needs) s listed fresh l r h =
        after (visit_each go needs (insert job visiting s)) refl h
      where
        entered : unmarked (insert job visiting s) graph < fuel
        entered = omega (arith, unmarked-insert job s graph fresh (ground arith))

        after :
            (v : Visit)
            → visit_each go needs (insert job visiting s) ≡ v
            → and_then v (λ t. some (ok (insert job visited t))) ≢ none
        after none e k =
            visit_each-Returns needs (insert job visiting s) entered
              (Ranked-enter graph job s fresh r) e
        after (some (err x)) e k = cc
        after (some (ok u)) e k = cc

    visit_marked-Returns :
        (job : Text) (m : Option Mark) (s : States)
        → get job s ≡ m
        → unmarked s graph < suc fuel
        → Ranked graph s
        → visit_marked go graph job m s ≢ none
    unfolding visit_marked
    visit_marked-Returns job (some visiting) s e l r h = cc
    visit_marked-Returns job (some visited) s e l r h = cc
    visit_marked-Returns job none s e l r h = visit_needs-Returns job (get job graph) s refl e l r h

  visit-Returns : (fuel : ℕ) → Returns fuel (visit fuel graph)
  unfolding visit
  visit-Returns zero job s l r h = absurd (omega arith)
  visit-Returns (suc fuel) job s l r h =
      visit_marked-Returns fuel (visit fuel graph) (visit-Promise graph fuel) (visit-Returns fuel)
        job (get job s) s refl l r h

  visit_graph-ne-none : visit_graph graph ≢ none
  unfolding visit_graph
  visit_graph-ne-none =
      visit_each-Returns (suc (length graph)) (visit (suc (length graph)) graph)
        (visit-Promise graph (suc (length graph))) (visit-Returns (suc (length graph))) (keys graph)
        [] (omega (arith, unmarked_le_length [] graph)) (Ranked-empty graph)

-- The fuel is enough for every list of jobs: the validation returns.
pub validate_dependencies_total :
    (jobs : List PlannedJob)
    → (r : Result DependencyError (Unit {0})) × (validate_dependencies jobs ≡ some r)
unfolding validate_dependencies
validate_dependencies_total jobs = go (check_graph (build_graph jobs) (build_graph jobs))
  where
    after :
        (v : Visit) → v ≢ none → (r : Result DependencyError (Unit {0})) × (finish_visit v ≡ some r)
    after none h = absurd (h refl)
    after (some (err x)) h = (err x, refl)
    after (some (ok s)) h = (ok tt, refl)

    go :
        (c : Result DependencyError (Unit {0}))
        → (r : Result DependencyError (Unit {0})) × (checked_visit (build_graph jobs) c ≡ some r)
    go (err x) = (err x, refl)
    go (ok tt) = after (visit_graph (build_graph jobs)) (visit_graph-ne-none (build_graph jobs))
