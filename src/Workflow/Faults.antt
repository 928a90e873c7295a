-- ===== src/Workflow/Faults.antt =====
-- The errors of `validate_dependencies` (crates/gitzero-workflow/src/lib.rs).
use gitzero.Prelude.{
  ==_iff, All, All-map, Bool-cases, List, Option, Text, [], ap, arith, false, inl, inr, length,
  nat_key, none, refl, some, subst, suc, sym, text_key, true, zero, ℕ, ◌==◌, ◌∙◌, ◌∷◌, ◌≡◌, ◌⊎◌,
}
use gitzero.Prelude.Map.{get, insert, contains_key, get-insert}
use gitzero.Prelude.Result.{>>=-eq-err, Result, ok, err}
use gitzero.Workflow.Dependencies.{
  Graph, keys, States, Visit, Mark, visiting, visited, and_then, visit, visit_each, visit_needs,
  visit_marked, cycle, missing_key, unknown_job, needs_itself, PlannedJob, build_graph, check_graph,
  check_needs, visit_graph, validate_dependencies, checked_visit, finish_visit, DependencyError,
}
use gitzero.Workflow.Acyclic.{Ranked-enter, Ranked, Ranked-empty, visit-Promise, Promise}
use gitzero.Workflow.Accepted.{check_graph-ok, build_graph-Unique, Unique}

pub data Listed (d : Text) : List Text → Type 0 where
  first : {k : Text} {ks : List Text} → d ≡ k → Listed d (k ∷ ks)
  later : {k : Text} {ks : List Text} → Listed d ks → Listed d (k ∷ ks)

-- The job `d` is among the needs of the job `j`.
pub data Edge (graph : Graph) (j d : Text) : Type 0 where
  edge : (needs : List Text) → get j graph ≡ some needs → Listed d needs → Edge graph j d

-- One job needs another, directly or through others.
pub data Reaches (graph : Graph) (j : Text) : Text → Type 0 where
  direct : {d : Text} → Edge graph j d → Reaches graph j d
  through : {k d : Text} → Reaches graph j k → Edge graph k d → Reaches graph j d

-- What each error says of the graph; the panic on a missing key says something false.
abbrev pub IsFault : Graph → DependencyError → Type 0
IsFault graph (unknown_job j d) = Edge graph j d × (contains_key d graph ≡ false)
IsFault graph (needs_itself j) = Edge graph j j
IsFault graph (cycle j) = Reaches graph j j
IsFault graph (missing_key j) = ⊥

and_then-err :
    (v : Visit) (f : States → Visit) (e : DependencyError)
    → and_then v f ≡ some (err e)
    → (v ≡ some (err e)) ⊎ ((s : States) × (v ≡ some (ok s)) × (f s ≡ some (err e)))
and_then-err none f e h = cc
and_then-err (some (err x)) f e h = inl h
and_then-err (some (ok s)) f e h = inr (s, refl, h)

module _ (graph : Graph) where
  -- Every job that is being visited needs this one.
  abbrev Above : States → Text → Type 0
  Above s job = (k : Text) → get k s ≡ some visiting → Reaches graph k job

  abbrev Blames : (Text → States → Visit) → Type 0
  Blames go =
      (job : Text) (s : States) (e : DependencyError)
      → go job s ≡ some (err e)
      → Ranked graph s
      → Above s job
      → contains_key job graph ≡ true
      → IsFault graph e

  module _ (go : Text → States → Visit) (promise : Promise graph go) (blames : Blames go)
      (closed : (j : Text) (needs : List Text)
        → get j graph ≡ some needs
        → All (λ d. contains_key d graph ≡ true) needs) where
    visit_each-IsFault :
        (jobs : List Text) (s : States) (e : DependencyError)
        → visit_each go jobs s ≡ some (err e)
        → Ranked graph s
        → All (Above s) jobs
        → All (λ d. contains_key d graph ≡ true) jobs
        → IsFault graph e
    unfolding visit_each
    visit_each-IsFault [] s e h r above known = cc
    visit_each-IsFault (job ∷ jobs) s e h r above known =
        elim (and_then-err (go job s) (visit_each go jobs) e h) [
          | inl here ↦ blames job s e here r above.0 known.0
          | inr (u, done, rest) ↦
              let (ru, grows, end) = promise job s u done r in
              visit_each-IsFault jobs u e rest ru
                (All-map jobs (λ d up k v. up k (grows.visiting_only k v)) above.1) known.1
        ]

    Above-enter :
        (job : Text) (needs more : List Text) (s : States)
        → ((d : Text) → Listed d more → Edge graph job d)
        → Above s job
        → All (Above (insert job visiting s)) more
    Above-enter job needs [] s edges above = tt
    Above-enter job needs (d ∷ more) s edges above = (
      λ k v. elim (Bool-cases (job == k)) [
        | inl same ↦
            subst (λ x. Reaches graph x d) ((==_iff job k).0 same) (direct (edges d (first refl)))
        | inr other ↦
            through (above k (ground (arith, get-insert job k visiting s))) (edges d (first refl))
      ],
      Above-enter job needs more s (λ x l. edges x (later l)) above,
    )

    visit_needs-IsFault :
        (job : Text) (o : Option (List Text)) (s : States) (e : DependencyError)
        → get job graph ≡ o
        → visit_needs go job o s ≡ some (err e)
        → Ranked graph (insert job visiting s)
        → Above s job
        → contains_key job graph ≡ true
        → IsFault graph e
    unfolding visit_needs
    visit_needs-IsFault job none s e listed h r above known = absurd (ground arith)
    visit_needs-IsFault job (some needs) s e listed h r above known =
        elim (and_then-err (visit_each go needs (insert job visiting s)) _ e h) [
          | inl inside ↦
              visit_each-IsFault needs (insert job visiting s) e inside r
                (Above-enter job needs needs s (λ d l. edge needs listed l) above)
                (closed job needs listed)
          | inr (u, done, never) ↦ cc never
        ]

    visit_marked-IsFault :
        (job : Text) (m : Option Mark) (s : States) (e : DependencyError)
        → get job s ≡ m
        → visit_marked go graph job m s ≡ some (err e)
        → Ranked graph s
        → Above s job
        → contains_key job graph ≡ true
        → IsFault graph e
    unfolding visit_marked
    visit_marked-IsFault job (some visiting) s e marked h r above known =
        let same : cycle job ≡ e = cc in subst (IsFault graph) same (above job marked)
    visit_marked-IsFault job (some visited) s e marked h r above known = cc
    visit_marked-IsFault job none s e marked h r above known =
        visit_needs-IsFault job (get job graph) s e refl h (Ranked-enter graph job s marked r) above
          known

  module _
      (closed : (j : Text) (needs : List Text)
        → get j graph ≡ some needs
        → All (λ d. contains_key d graph ≡ true) needs) where
    visit-Blames : (fuel : ℕ) → Blames (visit fuel graph)
    unfolding visit
    visit-Blames zero job s e h r above known = cc
    visit-Blames (suc fuel) job s e h r above known =
        visit_marked-IsFault (visit fuel graph) (visit-Promise graph fuel) (visit-Blames fuel)
          closed job (get job s) s e refl h r above known

  check_needs-IsFault :
      (job : Text) (needs : List Text) (e : DependencyError)
      → ((d : Text) → Listed d needs → Edge graph job d)
      → check_needs graph job needs ≡ err e
      → IsFault graph e
  unfolding check_needs
  check_needs-IsFault job [] e edges h = cc
  check_needs-IsFault job (d ∷ needs) e edges h = elim (Bool-cases (contains_key d graph)) [
    | inr unknown ↦
        let same : unknown_job job d ≡ e = ground arith in
        subst (IsFault graph) same (edges d (first refl), unknown)
    | inl known ↦ elim (Bool-cases (d == job)) [
      | inl itself ↦
          let same : needs_itself job ≡ e = ground arith in
          subst (IsFault graph) same (edges job (first (sym ((==_iff d job).0 itself))))
      | inr other ↦ check_needs-IsFault job needs e (λ x l. edges x (later l)) (ground arith)
    ]
  ]

  check_graph-IsFault :
      (m : Graph) (e : DependencyError)
      → All (λ x. get x.0 graph ≡ some x.1) m
      → check_graph graph m ≡ err e
      → IsFault graph e
  unfolding check_graph
  check_graph-IsFault [] e u h = cc
  check_graph-IsFault ((job, needs) ∷ m) e u h =
      elim (>>=-eq-err (check_needs graph job needs) (λ c. check_graph graph m) h) [
        | inl here ↦ check_needs-IsFault job needs e (λ d l. edge needs u.0 l) here
        | inr (c, done, rest) ↦ check_graph-IsFault m e u.1 rest
      ]

lookup_values :
    (graph m : Graph) (j : Text) (needs : List Text)
    → All (λ e. All (λ d. contains_key d graph ≡ true) e.1) m
    → get j m ≡ some needs
    → All (λ d. contains_key d graph ≡ true) needs
unfolding get
lookup_values graph [] j needs h e = cc
lookup_values graph ((k, v) ∷ m) j needs h e = elim (Bool-cases (k == j)) [
  | inl here ↦
      let same : v ≡ needs = ground arith in
      subst (λ x. All (λ d. contains_key d graph ≡ true) x) same h.0
  | inr there ↦ lookup_values graph m j needs h.1 (ground arith)
]

All-contains_key :
    (m : Graph) (n : Graph)
    → All (λ e. get e.0 n ≡ some e.1) m
    → All (λ k. contains_key k n ≡ true) (keys m)
All-contains_key [] n h = tt
All-contains_key ((k, v) ∷ m) n h = (ground arith, All-contains_key m n h.1)

finish_visit-err :
    (v : Visit) (e : DependencyError) → finish_visit v ≡ some (err e) → v ≡ some (err e)
finish_visit-err none e h = cc
finish_visit-err (some (err x)) e h = cc
finish_visit-err (some (ok s)) e h = cc

abbrev no_states : States
no_states = []

none_above :
    (graph : Graph) (jobs : List Text)
    → All (λ j. (k : Text) → get k no_states ≡ some visiting → Reaches graph k j) jobs
unfolding get
none_above graph [] = tt
none_above graph (j ∷ jobs) = ((λ k h. cc), none_above graph jobs)

-- An error of the validation names a real fault: the unknown job is needed by the job named and is
-- not in the graph, the job that is said to need itself does, and the job at which a cycle was
-- found needs itself through others. The lookup that panics on a missing job never does.
pub validate_dependencies-IsFault :
    (jobs : List PlannedJob) (e : DependencyError)
    → validate_dependencies jobs ≡ some (err e)
    → IsFault (build_graph jobs) e
unfolding validate_dependencies visit_graph
validate_dependencies-IsFault jobs e = go (check_graph graph graph) refl
  where
    graph : Graph
    graph = build_graph jobs

    unique : Unique graph
    unique = build_graph-Unique jobs

    go :
        (r : Result DependencyError (Unit {0}))
        → check_graph graph graph ≡ r
        → checked_visit graph r ≡ some (err e)
        → IsFault graph e
    go (err x) q h =
        let same : x ≡ e = cc in check_graph-IsFault graph graph e unique (q ∙ ap err same)
    go (ok tt) q h =
        let closed = λ (j : Text) (needs : List Text).
          lookup_values graph graph j needs (check_graph-ok graph graph q) in
        visit_each-IsFault graph (visit (suc (length graph)) graph)
          (visit-Promise graph (suc (length graph)))
          (visit-Blames graph closed (suc (length graph))) closed (keys graph) [] e
          (finish_visit-err (visit_graph graph) e h) (Ranked-empty graph)
          (none_above graph (keys graph)) (All-contains_key graph graph unique)
