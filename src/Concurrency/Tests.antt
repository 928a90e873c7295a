-- ===== src/Concurrency/Tests.antt =====
-- Runs of the client, and the theorems at concrete clients.
use gitzero.Concurrency.Leases.{
  release_count, unanswered, cancel_all_lem, grant_cancel_race, release_once, AcquireStep,
  was_signalled, acquire_leaves_nothing,
}
use gitzero.Concurrency.UnitId.{bounded_unit_id}
use gitzero.Concurrency.Traces.{
  announces, cancels, grants, registers, here, next, was_refused, IsFresh, initial, pending, Reach,
  decisions,
}
use gitzero.Concurrency.Decisions.{refused_unregistered, decided_once}
use gitzero.Concurrency.{
  concurrency_acquire, sent, put, refused, accepted, drop, handle_granted, announce, decided,
  handle_cancelled, single, Client, Lease, Request, cancel_all, cancelled, check_outer, register,
  release,
}
use gitzero.Prelude.{
  zero, suc, ℕ, suc, ℕ, Text, [], codes, false, if◌then◌else◌, nat_key, none, refl, some, text_key,
  true, ◌+◌, ◌||◌, ◌∷◌, ◌≡◌, ◌≤◌,
}
use gitzero.Prelude.Map.{contains_key, get, put}

abbrev deploy : Request
deploy = record {
  run_id = 1;
  request_id = 7;
  message_id = 20;
  unit_id = codes "workflow / job";
  group = codes "deploy";
  cancel_in_progress = true;
  queue = single;
}

-- Registered and announced, granted, and then cancelled by a later run.
abbrev waiting_client : Client
waiting_client = (announce deploy true (register deploy initial).1).1

abbrev superseded : Client
superseded = handle_cancelled 7 (codes "superseded") (handle_granted 7 waiting_client)

fresh : IsFresh 7 initial
unfolding get decisions
fresh = record { unused = refl; undecided = refl }

waiting_client_reached : Reach initial waiting_client
waiting_client_reached = next (next here (registers deploy fresh)) (announces deploy true)

superseded_trace :
    superseded.trace
    ≡ cancelled 7
      ∷ decided 7 accepted
      ∷ sent (concurrency_acquire 20 1 7 (codes "workflow / job") (codes "deploy") true single)
      ∷ []
unfolding register announce handle_granted handle_cancelled bounded_unit_id get put
superseded_trace = refl

superseded_reached : Reach initial superseded
superseded_reached = next (next waiting_client_reached (grants 7)) (cancels 7 (codes "superseded"))

decided_once_example : decisions 7 superseded.trace + pending 7 superseded.requests ≤ 1
decided_once_example = decided_once 7 superseded_reached

-- Cancelled before it was granted.
abbrev turned_away : Client
turned_away = handle_cancelled 7 (codes "superseded") waiting_client

turned_away_refused : was_refused 7 turned_away.trace ≡ true
unfolding register announce handle_cancelled bounded_unit_id get put was_refused
turned_away_refused = refl

refused_unregistered_example : get 7 turned_away.requests ≡ none
refused_unregistered_example =
    refused_unregistered 7 (next waiting_client_reached (cancels 7 (codes "superseded")))
      turned_away_refused

waiting_entry : get 7 waiting_client.requests ≡ some unanswered
unfolding register announce get put
waiting_entry = refl

waiting_remote : waiting_client.remote ≡ true
unfolding register announce
waiting_remote = refl

grant_cancel_race_example :
    (superseded.trace ≡ cancelled 7 ∷ decided 7 accepted ∷ waiting_client.trace)
    × (get 7 superseded.requests ≡ some (record { granted = true; grant = false }))
    × ((handle_cancelled 7 (codes "superseded") waiting_client).trace
        ≡ decided 7 (refused (codes "superseded")) ∷ waiting_client.trace)
    × (handle_granted 7 (handle_cancelled 7 (codes "superseded") waiting_client)
        ≡ handle_cancelled 7 (codes "superseded") waiting_client)
grant_cancel_race_example =
    grant_cancel_race 7 (codes "superseded") waiting_client waiting_remote waiting_entry

cancel_all_lem_example :
    ((cancel_all waiting_client).requests ≡ [])
    × (decisions 7 (cancel_all waiting_client).trace
        ≡ decisions 7 waiting_client.trace + pending 7 waiting_client.requests)
    × (was_signalled 7 (cancel_all waiting_client).trace
        ≡ (was_signalled 7 waiting_client.trace || contains_key 7 waiting_client.requests))
cancel_all_lem_example = cancel_all_lem 7 waiting_client waiting_remote

abbrev lease : Lease
lease = record { run_id = 1; request_id = 7; released = false }

release_once_example :
    ((release 30 31 true true lease waiting_client).0 ≡ true)
    × (release_count 7 (release 30 31 true true lease waiting_client).1.trace
        ≡ (if true then 1 else 0) + release_count 7 waiting_client.trace)
    × (get 7 (release 30 31 true true lease waiting_client).1.requests ≡ none)
    × (drop 30 true true lease waiting_client ≡ (release 30 31 true true lease waiting_client).1)
release_once_example = release_once 30 31 true true lease waiting_client waiting_remote refl

acquire_leaves_nothing_example :
    get 7 (check_outer deploy true 40 true waiting_client).1.requests ≡ none
acquire_leaves_nothing_example =
    acquire_leaves_nothing deploy waiting_client_reached waiting_remote
      (AcquireStep.checks true 40 true) (unfold check_outer in refl)

abbrev repeat : ℕ → ℕ → Text
repeat zero c = []
repeat (suc n) c = c ∷ repeat n c
