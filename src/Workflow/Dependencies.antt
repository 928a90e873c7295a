-- ===== src/Workflow/Dependencies.antt =====
-- `validate_dependencies` of crates/gitzero-workflow/src/lib.rs: every job that is needed exists,
-- and no job needs itself, directly or through others. The source recurs on the call stack; here
-- fuel bounds the depth, and `none` means that it ran out. A job is read through the two fields
-- that the check uses.
use gitzero.Prelude.{
  List, Option, Text, [], if◌then◌else◌, length, nat_key, none, not, some, suc, text_key, zero, ℕ,
  ◌==◌, ◌∷◌,
}
use gitzero.Prelude.Map.{Map, get, insert, contains_key}
use gitzero.Prelude.Result.{Result, ok, err, ◌>>=◌}

pub record PlannedJob : Type 0 where
  pub base_id : Text
  pub needs : List Text

pub data DependencyError : Type 0 where
  unknown_job : Text → Text → DependencyError
  needs_itself : Text → DependencyError
  cycle : Text → DependencyError
  -- `graph[job]` on a job that is not there, a panic
  missing_key : Text → DependencyError

abbrev pub Graph : Type 0
Graph = Map Text (List Text)

-- `entry(..).or_insert_with(..)`: the first job of an id gives its needs.
abbrev pub add_job : PlannedJob → Graph → Graph
add_job job graph =
    if contains_key job.base_id graph then graph else insert job.base_id job.needs graph

unfoldable pub build_from : List PlannedJob → Graph → Graph
build_from [] graph = graph
build_from (job ∷ jobs) graph = build_from jobs (add_job job graph)

unfoldable pub build_graph : List PlannedJob → Graph
unfolding build_from
build_graph jobs = build_from jobs []

-- The needs of one job, each known and none the job itself.
unfoldable pub check_needs : Graph → Text → List Text → Result DependencyError (Unit {0})
check_needs graph job [] = ok tt
check_needs graph job (d ∷ needs) =
    if not (contains_key d graph)
    then err (unknown_job job d)
    else if d == job
    then err (needs_itself job)
    else check_needs graph job needs

unfoldable pub check_graph : Graph → Graph → Result DependencyError (Unit {0})
unfolding check_needs
check_graph graph [] = ok tt
check_graph graph ((job, needs) ∷ rest) = do
  checked ← check_needs graph job needs
  check_graph graph rest

-- The states 1 and 2 of a job.
pub data Mark : Type 0 where
  visiting visited : Mark

abbrev pub States : Type 0
States = Map Text Mark

-- What a visit leaves, behind the fuel.
abbrev pub Visit : Type 0
Visit = Option (Result DependencyError States)

abbrev pub and_then : Visit → (States → Visit) → Visit
and_then none f = none
and_then (some (err e)) f = some (err e)
and_then (some (ok s)) f = f s

-- A loop over jobs, with the visit of one.
unfoldable pub visit_each : (Text → States → Visit) → List Text → States → Visit
visit_each go [] s = some (ok s)
visit_each go (job ∷ jobs) s = and_then (go job s) (visit_each go jobs)

unfoldable pub visit_needs : (Text → States → Visit) → Text → Option (List Text) → States → Visit
unfolding visit_each
visit_needs go job none s = some (err (missing_key job))
visit_needs go job (some needs) s =
    and_then (visit_each go needs (insert job visiting s)) (λ t. some (ok (insert job visited t)))

unfoldable pub visit_marked : (Text → States → Visit) → Graph → Text → Option Mark → States → Visit
unfolding visit_needs
visit_marked go graph job (some visiting) s = some (err (cycle job))
visit_marked go graph job (some visited) s = some (ok s)
visit_marked go graph job none s = visit_needs go job (get job graph) s

unfoldable pub visit : ℕ → Graph → Text → States → Visit
unfolding visit_marked
visit zero graph job s = none
visit (suc fuel) graph job s = visit_marked (visit fuel graph) graph job (get job s) s

abbrev pub keys {ℓ} : {V : Type ℓ} → Map Text V → List Text
keys [] = []
keys ((k, v) ∷ m) = k ∷ keys m

-- The depth is at most the number of jobs, as a job is entered only while it has no state.
unfoldable pub visit_graph : Graph → Visit
unfolding visit visit_each
visit_graph graph = visit_each (visit (suc (length graph)) graph) (keys graph) []

abbrev pub finish_visit : Visit → Option (Result DependencyError (Unit {0}))
finish_visit none = none
finish_visit (some (err e)) = some (err e)
finish_visit (some (ok s)) = some (ok tt)

abbrev pub checked_visit :
    Graph → Result DependencyError (Unit {0}) → Option (Result DependencyError (Unit {0}))
checked_visit graph (err e) = some (err e)
checked_visit graph (ok u) = finish_visit (visit_graph graph)

unfoldable pub validate_dependencies : List PlannedJob → Option (Result DependencyError (Unit {0}))
unfolding build_graph check_graph
validate_dependencies jobs =
    checked_visit (build_graph jobs) (check_graph (build_graph jobs) (build_graph jobs))
