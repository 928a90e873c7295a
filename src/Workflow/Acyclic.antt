-- ===== src/Workflow/Acyclic.antt =====
-- What a visit of `validate_dependencies` (crates/gitzero-workflow/src/lib.rs) does to the states
-- of the jobs.
use gitzero.Prelude.{
  All-map, ==_iff, ==_refl, All, Bool-cases, List, Option, Text, [], all, ap, arith, false,
  if◌then◌else◌, inl, inr, nat_key, none, refl, some, subst, suc, sym, text_key, true, zero, ℕ, ◌+◌,
  ◌<◌, ◌==◌, ◌∙◌, ◌∷◌, ◌≡◌, ◌≢◌,
}
use gitzero.Prelude.Map.{get, insert, get-insert}
use gitzero.Prelude.Result.{ok, err}
use gitzero.Workflow.Dependencies.{
  Graph, States, Visit, Mark, visiting, visited, and_then, visit, visit_each, visit_needs,
  visit_marked,
}

-- How the states of jobs change: what is visited stays so, and what is being visited is the same.
pub record Grows (s t : States) : Type 0 where
  pub visited_stays : (k : Text) → get k s ≡ some visited → get k t ≡ some visited
  pub visiting_stays : (k : Text) → get k s ≡ some visiting → get k t ≡ some visiting
  pub visiting_only : (k : Text) → get k t ≡ some visiting → get k s ≡ some visiting

pub Grows-refl : (s : States) → Grows s s
Grows-refl s = record {
  visited_stays = λ k h. h;
  visiting_stays = λ k h. h;
  visiting_only = λ k h. h;
}

pub Grows-trans : {s t u : States} → Grows s t → Grows t u → Grows s u
Grows-trans p q = record {
  visited_stays = λ k h. q.visited_stays k (p.visited_stays k h);
  visiting_stays = λ k h. q.visiting_stays k (p.visiting_stays k h);
  visiting_only = λ k h. p.visiting_only k (q.visiting_only k h);
}

pub and_then-ok :
    (v : Visit) (f : States → Visit) (t : States)
    → and_then v f ≡ some (ok t)
    → (s : States) × (v ≡ some (ok s)) × (f s ≡ some (ok t))
and_then-ok none f t h = cc
and_then-ok (some (err e)) f t h = cc
and_then-ok (some (ok s)) f t h = (s, refl, h)

-- The needs of a visited job are visited and of lower rank.
abbrev pub Lowered : (Text → ℕ) → States → Text → List Text → Type 0
Lowered rank s job needs = All (λ d. (get d s ≡ some visited) × (rank d < rank job)) needs

-- A visited job is none that is not visited.
ne_of_visited :
    (d job : Text) (s : States)
    → get d s ≡ some visited
    → get job s ≢ some visited
    → (job == d) ≡ false
ne_of_visited d job s v n = elim (Bool-cases (job == d)) [
  | inl same ↦ absurd (n (ap (λ x. get x s) ((==_iff job d).0 same) ∙ v))
  | inr other ↦ other
]

visited-insert :
    (d job : Text) (m : Mark) (s : States)
    → get d s ≡ some visited
    → get job s ≢ some visited
    → get d (insert job m s) ≡ some visited
visited-insert d job m s v n = get-insert job d m s ∙ rw (ne_of_visited d job s v n) v

module _ (graph : Graph) where
  pub record Ranked (s : States) : Type 0 where
    pub rank : Text → ℕ
    pub bound : ℕ
    pub below : (k : Text) → get k s ≡ some visited → rank k < bound
    pub lower :
        (k : Text) (needs : List Text)
        → get k s ≡ some visited
        → get k graph ≡ some needs
        → Lowered rank s k needs

  -- What a successful visit of a job promises.
  abbrev pub Promise : (Text → States → Visit) → Type 0
  Promise go =
      (job : Text) (s t : States)
      → go job s ≡ some (ok t)
      → Ranked s
      → Ranked t × Grows s t × (get job t ≡ some visited)

  pub visit_each-Promise :
      (go : Text → States → Visit)
      → Promise go
      → (jobs : List Text) (s t : States) → visit_each go jobs s ≡ some (ok t)
      → Ranked s
      → Ranked t × Grows s t × All (λ j. get j t ≡ some visited) jobs
  unfolding visit_each
  visit_each-Promise go promise [] s t h r =
      let same : s ≡ t = cc in (subst Ranked same r, subst (Grows s) same (Grows-refl s), tt)
  visit_each-Promise go promise (job ∷ jobs) s t h r =
      let (u, first, later) = and_then-ok (go job s) (visit_each go jobs) t h in
      let (ru, gu, done) = promise job s u first r in
      let (rt, gt, all) = visit_each-Promise go promise jobs u t later ru in
      (rt, Grows-trans gu gt, (gt.visited_stays job done, all))

  pub Ranked-enter :
      (job : Text) (s : States) → get job s ≡ none → Ranked s → Ranked (insert job visiting s)
  Ranked-enter job s fresh r = record {
    rank = r.rank;
    bound = r.bound;
    below = λ k h. ground (arith, get-insert job k visiting s, r.below k);
    lower = λ k needs h g.
        All-map needs (λ d p. (visited-insert d job visiting s p.0 fresh_ne, p.1))
          (r.lower k needs (ground (arith, get-insert job k visiting s)) g);
  }
    where
      fresh_ne : get job s ≢ some visited
      fresh_ne e = cc

  -- Once its needs are visited, a job gets the next rank.
  Ranked-leave :
      (job : Text) (needs : List Text) (s : States)
      → get job graph ≡ some needs
      → get job s ≡ some visiting
      → All (λ j. get j s ≡ some visited) needs
      → Ranked s
      → Ranked (insert job visited s)
  Ranked-leave job needs s listed inside done r = record {
    rank = next_rank;
    bound = r.bound + 1;
    below = λ k h. ground (arith, get-insert job k visited s, r.below k);
    lower = λ k more h g. elim (Bool-cases (job == k)) [
      | inl here ↦
          let same : job ≡ k = (==_iff job k).0 here in
          let found : some needs ≡ some more = sym listed ∙ ap (λ x. get x graph) same ∙ g in
          let e : needs ≡ more = cc in
          subst (Lowered next_rank (insert job visited s) k) e (
            All-map needs
              (λ d v. (
                visited-insert d job visited s v inside_ne,
                ground (arith, other d v, r.below d v),
              ))
              done)
      | inr there ↦
          All-map more
            (λ d p. (visited-insert d job visited s p.0 inside_ne, ground (arith, other d p.0)))
            (r.lower k more (ground (arith, get-insert job k visited s)) g)
    ];
  }
    where
      next_rank : Text → ℕ
      next_rank k = if job == k then r.bound else r.rank k

      inside_ne : get job s ≢ some visited
      inside_ne e = cc

      other : (d : Text) → get d s ≡ some visited → (job == d) ≡ false
      other d v = ne_of_visited d job s v inside_ne

  Grows-visit :
      (job : Text) (s u : States)
      → get job s ≡ none
      → Grows (insert job visiting s) u
      → Grows s (insert job visited u)
  Grows-visit job s u fresh g = record {
    visited_stays = λ k h. ground (
      arith,
      get-insert job k visited u,
      g.visited_stays k,
      get-insert job k visiting s,
      same_as_job k,
    );
    visiting_stays = λ k h. ground (
      arith,
      get-insert job k visited u,
      g.visiting_stays k,
      get-insert job k visiting s,
      same_as_job k,
    );
    visiting_only = λ k h. ground (
      arith,
      get-insert job k visited u,
      g.visiting_only k,
      get-insert job k visiting s,
      same_as_job k,
    );
  }
    where
      same_as_job : (k : Text) → (job == k) ≡ true → get k s ≡ none
      same_as_job k e = ap (λ x. get x s) (sym ((==_iff job k).0 e)) ∙ fresh

  module _ (go : Text → States → Visit) (promise : Promise go) where
    visit_needs-Promise :
        (job : Text) (o : Option (List Text)) (s t : States)
        → get job graph ≡ o
        → get job s ≡ none
        → visit_needs go job o s ≡ some (ok t)
        → Ranked s
        → Ranked t × Grows s t × (get job t ≡ some visited)
    unfolding visit_needs
    visit_needs-Promise job none s t listed fresh h r = cc
    visit_needs-Promise job (some needs) s t listed fresh h r =
        let (u, each, end) = and_then-ok (visit_each go needs (insert job visiting s)) _ t h in
        let (ru, gu, done) =
          visit_each-Promise go promise needs (insert job visiting s) u each
            (Ranked-enter job s fresh r) in
        let inside : get job u ≡ some visiting =
          gu.visiting_stays job (ground (arith, get-insert job job visiting s, ==_refl job)) in
        let same : insert job visited u ≡ t = cc in
        subst (λ x. Ranked x × Grows s x × (get job x ≡ some visited)) same
          (
            Ranked-leave job needs u listed inside done ru,
            Grows-visit job s u fresh gu,
            ground (arith, get-insert job job visited u, ==_refl job),
          )

    visit_marked-Promise :
        (job : Text) (m : Option Mark) (s t : States)
        → get job s ≡ m
        → visit_marked go graph job m s ≡ some (ok t)
        → Ranked s
        → Ranked t × Grows s t × (get job t ≡ some visited)
    unfolding visit_marked
    visit_marked-Promise job (some visiting) s t e h r = cc
    visit_marked-Promise job (some visited) s t e h r =
        let same : s ≡ t = cc in
        subst (λ x. Ranked x × Grows s x × (get job x ≡ some visited)) same (r, Grows-refl s, e)
    visit_marked-Promise job none s t e h r = visit_needs-Promise job (get job graph) s t refl e h r

  pub visit-Promise : (fuel : ℕ) → Promise (visit fuel graph)
  unfolding visit
  visit-Promise zero job s t h r = cc
  visit-Promise (suc fuel) job s t h r =
      visit_marked-Promise (visit fuel graph) (visit-Promise fuel) job (get job s) s t refl h r

  pub Ranked-empty : Ranked []
  unfolding get
  Ranked-empty = record { rank = λ k. 0; bound = 0; below = λ k h. cc; lower = λ k needs h g. cc }
