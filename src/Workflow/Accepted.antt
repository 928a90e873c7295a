-- ===== src/Workflow/Accepted.antt =====
-- The lists of jobs that `validate_dependencies` (crates/gitzero-workflow/src/lib.rs) accepts.
use gitzero.Prelude.{
  ==_iff, ==_refl, All, All-map, Bool-cases, List, Option, Text, [], all, ap, arith, false,
  if◌then◌else◌, inl, inr, length, nat_key, none, refl, some, suc, sym, text_key, true, ℕ, ◌<◌,
  ◌==◌, ◌∙◌, ◌∷◌, ◌≡◌, ◌≢◌,
}
use gitzero.Prelude.Map.{get, insert, contains_key, get-insert, All-insert}
use gitzero.Prelude.Result.{>>=-eq-ok, Result, ok, err}
use gitzero.Workflow.Dependencies.{
  finish_visit, visited, Visit, States, DependencyError, add_job, Graph, keys, PlannedJob,
  build_graph, build_from, check_graph, check_needs, visit, visit_graph, validate_dependencies,
  checked_visit,
}
use gitzero.Workflow.Acyclic.{Ranked-empty, visit-Promise, visit_each-Promise}

-- Every entry is found under its key.
abbrev pub Unique : Graph → Type 0
Unique graph = All (λ e. get e.0 graph ≡ some e.1) graph

insert-Unique :
    (job : Text) (needs : List Text) (graph : Graph)
    → get job graph ≡ none
    → Unique graph
    → Unique (insert job needs graph)
insert-Unique job needs graph fresh u =
    All-insert (λ e. get e.0 (insert job needs graph) ≡ some e.1) job needs graph
      (ground (arith, get-insert job job needs graph, ==_refl job))
      (All-map graph (λ e p. get-insert job e.0 needs graph ∙ rw (differs e.0 e.1 p) p) u)
  where
    absent : {v : List Text} → none ≢ some v
    absent e = cc

    differs : (k : Text) (v : List Text) → get k graph ≡ some v → (job == k) ≡ false
    differs k v h = elim (Bool-cases (job == k)) [
      | inl same ↦ absurd (absent (sym fresh ∙ ap (λ x. get x graph) ((==_iff job k).0 same) ∙ h))
      | inr other ↦ other
    ]

add_job-Unique : (job : PlannedJob) (graph : Graph) → Unique graph → Unique (add_job job graph)
add_job-Unique job graph u = go (get job.base_id graph) refl
  where
    go :
        (o : Option (List Text))
        → get job.base_id graph ≡ o
        → Unique (
            if (elim o [ none ↦ false | some _ ↦ true ])
            then graph
            else insert job.base_id job.needs graph)
    go none e = insert-Unique job.base_id job.needs graph e u
    go (some needs) e = u

pub build_from-Unique :
    (jobs : List PlannedJob) (graph : Graph) → Unique graph → Unique (build_from jobs graph)
unfolding build_from
build_from-Unique [] graph u = u
build_from-Unique (job ∷ jobs) graph u =
    build_from-Unique jobs (add_job job graph) (add_job-Unique job graph u)

pub build_graph-Unique : (jobs : List PlannedJob) → Unique (build_graph jobs)
unfolding build_graph
build_graph-Unique jobs = build_from-Unique jobs [] tt

All-keys {ℓ} : (P : Text → Type ℓ) (m : Graph) → All P (keys m) → All (λ e. P e.0) m
All-keys P [] h = tt
All-keys P ((k, v) ∷ m) h = (h.0, All-keys P m h.1)

All-and {ℓ κ} :
    {A : Type 0} (P : A → Type ℓ) (Q : A → Type κ) (xs : List A)
    → All P xs
    → All Q xs
    → All (λ x. P x × Q x) xs
All-and P Q [] h k = tt
All-and P Q (x ∷ xs) h k = ((h.0, k.0), All-and P Q xs h.1 k.1)

check_needs-ok :
    (graph : Graph) (job : Text) (needs : List Text)
    → check_needs graph job needs ≡ ok tt
    → All (λ d. contains_key d graph ≡ true) needs
unfolding check_needs
check_needs-ok graph job [] h = tt
check_needs-ok graph job (d ∷ needs) h = elim (Bool-cases (contains_key d graph)) [
  | inl known ↦ (known, check_needs-ok graph job needs (ground arith))
  | inr unknown ↦ cc (rw unknown at h)
]

pub check_graph-ok :
    (graph m : Graph)
    → check_graph graph m ≡ ok tt
    → All (λ e. All (λ d. contains_key d graph ≡ true) e.1) m
unfolding check_graph
check_graph-ok graph [] h = tt
check_graph-ok graph ((job, needs) ∷ m) h =
    let (u, first, later) = >>=-eq-ok (check_needs graph job needs) (λ c. check_graph graph m) h in
    (check_needs-ok graph job needs first, check_graph-ok graph m later)

checked_visit-ok :
    (graph : Graph)
    → checked_visit graph (check_graph graph graph) ≡ some (ok tt)
    → (s : States) × (check_graph graph graph ≡ ok tt) × (visit_graph graph ≡ some (ok s))
checked_visit-ok graph h = go (check_graph graph graph) h
  where
    after : (v : Visit) → finish_visit v ≡ some (ok tt) → (s : States) × (v ≡ some (ok s))
    after none k = cc
    after (some (err e)) k = cc
    after (some (ok s)) k = (s, refl)

    go :
        (r : Result DependencyError (Unit {0}))
        → checked_visit graph r ≡ some (ok tt)
        → (s : States) × (r ≡ ok tt) × (visit_graph graph ≡ some (ok s))
    go (err e) k = cc
    go (ok tt) k = let (s, e) = after (visit_graph graph) k in (s, refl, e)

-- Every need of every job of the graph is a job of it, of lower rank.
abbrev pub IsTopological : (Text → ℕ) → Graph → Type 0
IsTopological rank graph =
    All (λ e. All (λ d. (contains_key d graph ≡ true) × (rank d < rank e.0)) e.1) graph

-- If the validation of a list of jobs succeeds, each job that is needed is in the graph, and the
-- jobs can be ranked so that each stands above all that it needs: there is no cycle.
pub validate_dependencies-IsTopological :
    (jobs : List PlannedJob)
    → validate_dependencies jobs ≡ some (ok tt)
    → (rank : Text → ℕ) × IsTopological rank (build_graph jobs)
unfolding validate_dependencies visit_graph
validate_dependencies-IsTopological jobs h =
    let graph = build_graph jobs in
    let (s, checked, run) = checked_visit-ok graph h in
    let (r, grows, all) =
      visit_each-Promise graph (visit (suc (length graph)) graph)
        (visit-Promise graph (suc (length graph))) (keys graph) [] s run (Ranked-empty graph) in
    let known = check_graph-ok graph graph checked in
    let done = All-keys (λ k. get k s ≡ some visited) graph all in
    (
      r.rank,
      All-map graph
          (λ e p.
            All-and (λ d. contains_key d graph ≡ true) (λ d. r.rank d < r.rank e.0) e.1 p.1.1
              (All-map e.1 (λ d q. q.1) (r.lower e.0 e.1 p.1.0 p.0)))
          (All-and (λ e. get e.0 graph ≡ some e.1)
            (λ e. (get e.0 s ≡ some visited) × All (λ d. contains_key d graph ≡ true) e.1) graph
            (build_graph-Unique jobs)
            (All-and (λ e. get e.0 s ≡ some visited)
              (λ e. All (λ d. contains_key d graph ≡ true) e.1) graph done known)),
    )
