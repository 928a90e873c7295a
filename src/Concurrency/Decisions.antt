-- ===== src/Concurrency/Decisions.antt =====
-- The interleavings of the client's operations (crates/gitzero-agent/src/concurrency.rs).
use gitzero.Concurrency.Traces.{
  decisions, was_refused, pending, IsFresh, Step, Reach, initial, decisions-close_requests,
  pending-remove, pending-put, pending-get, was_refused-decisions, registers, announces, checks,
  wakes, grants, cancels, closes, releases, drops, here, next,
}
use gitzero.Prelude.{
  ℕ, ◌+◌, ◌≤◌, ◌≡◌, refl, Bool, true, false, Option, none, some, arith, Text, if◌then◌else◌,
  nat_key,
}
use gitzero.Prelude.Map.{get, remove, get-put, get-remove}
use gitzero.Concurrency.{
  cancel_found, grant_found, Client, RequestState, accepted, refused, Request, Lease, Wake,
  response, changed, register, announce, check_outer, wake, handle_granted, handle_cancelled,
  cancel_all, release, drop,
}

-- The invariant: an answer that was sent and a sender still held are at most one together, and
-- a refused request is not registered.
pub record IsCoherent (c : Client) (id : ℕ) : Type 0 where
  pub once : decisions id c.trace + pending id c.requests ≤ 1
  pub refused_gone : was_refused id c.trace ≡ true → get id c.requests ≡ none

IsCoherent-if :
    (b : Bool) (id : ℕ) (c d : Client)
    → IsCoherent c id
    → IsCoherent d id
    → IsCoherent (if b then c else d) id
IsCoherent-if true id c d k l = k
IsCoherent-if false id c d k l = l

module _ (id : ℕ) (c : Client) (k : IsCoherent c id) where
  register-IsCoherent : (r : Request) → IsFresh r.request_id c → IsCoherent (register r c).1 id
  unfolding register
  register-IsCoherent r f = record {
    once = ground (
      arith,
      k.once,
      f.undecided,
      pending-put id r.request_id (record { granted = false; grant = true }) c.requests,
    );
    refused_gone = λ h. ground (
      arith,
      k.refused_gone,
      f.undecided,
      was_refused-decisions id c.trace,
      get-put r.request_id id (record { granted = false; grant = true }) c.requests,
    );
  }

  forget-once : (j : ℕ) → decisions id c.trace + pending id (remove j c.requests) ≤ 1
  forget-once j = ground (arith, k.once, pending-remove id j c.requests)

  forget-gone : (j : ℕ) → was_refused id c.trace ≡ true → get id (remove j c.requests) ≡ none
  forget-gone j h = ground (arith, k.refused_gone h, get-remove j id c.requests)

  announce-IsCoherent : (r : Request) (delivered : Bool) → IsCoherent (announce r delivered c).1 id
  unfolding announce decisions was_refused
  announce-IsCoherent r true = record { once = k.once; refused_gone = k.refused_gone }
  announce-IsCoherent r false = record {
    once = forget-once r.request_id;
    refused_gone = forget-gone r.request_id;
  }

  check_outer-IsCoherent :
      (r : Request) (outer : Bool) (message : ℕ) (delivered : Bool)
      → IsCoherent (check_outer r outer message delivered c).1 id
  unfolding check_outer decisions was_refused
  check_outer-IsCoherent r outer message delivered = record {
    once = ground (arith, k.once, forget-once r.request_id);
    refused_gone = λ h. ground (arith, k.refused_gone, forget-gone r.request_id);
  }

  wake-IsCoherent : (r : Request) (w : Wake) → IsCoherent (wake r w c).1 id
  unfolding wake
  wake-IsCoherent r (response none) = record {
    once = forget-once r.request_id;
    refused_gone = forget-gone r.request_id;
  }
  wake-IsCoherent r (response (some accepted)) = k
  wake-IsCoherent r (response (some (refused reason))) = k
  wake-IsCoherent r changed = k

  grant_found-IsCoherent :
      (j : ℕ) (o : Option RequestState) → get j c.requests ≡ o → IsCoherent (grant_found j c o) id
  unfolding grant_found decisions was_refused
  grant_found-IsCoherent j none e = k
  grant_found-IsCoherent j (some r) e = record {
    once = ground (
      arith,
      k.once,
      pending-get j c.requests r e,
      pending-put id j (record { granted = true; grant = false }) c.requests,
    );
    refused_gone = λ h.
        ground (
          arith,
          k.refused_gone,
          get-put j id (record { granted = true; grant = false }) c.requests,
        );
  }

  cancel_found-IsCoherent :
      (j : ℕ) (reason : Text) (o : Option RequestState)
      → get j c.requests ≡ o
      → IsCoherent (cancel_found j reason c o) id
  unfolding cancel_found decisions was_refused
  cancel_found-IsCoherent j reason none e = record {
    once = forget-once j;
    refused_gone = forget-gone j;
  }
  cancel_found-IsCoherent j reason (some r) e = record {
    once = ground (arith, k.once, pending-get j c.requests r e, pending-remove id j c.requests);
    refused_gone = λ h. ground (arith, k.refused_gone, get-remove j id c.requests);
  }

  handle_granted-IsCoherent : (j : ℕ) → IsCoherent (handle_granted j c) id
  unfolding handle_granted
  handle_granted-IsCoherent j =
      IsCoherent-if c.remote id _ c (grant_found-IsCoherent j (get j c.requests) refl) k

  handle_cancelled-IsCoherent :
      (j : ℕ) (reason : Text) → IsCoherent (handle_cancelled j reason c) id
  unfolding handle_cancelled
  handle_cancelled-IsCoherent j reason =
      IsCoherent-if c.remote id _ c (cancel_found-IsCoherent j reason (get j c.requests) refl) k

  cancel_all-IsCoherent : IsCoherent (cancel_all c) id
  unfolding cancel_all pending get
  cancel_all-IsCoherent = record {
    once = ground (arith, k.once, decisions-close_requests id c.requests c.trace);
    refused_gone = λ h. ground (arith, k.refused_gone);
  }

  drop-IsCoherent :
      (message : ℕ) (unlocked delivered : Bool) (l : Lease)
      → IsCoherent (drop message unlocked delivered l c) id
  unfolding drop decisions was_refused
  drop-IsCoherent message unlocked delivered l = record {
    once = ground (arith, k.once, forget-once l.request_id);
    refused_gone = λ h. ground (arith, k.refused_gone, forget-gone l.request_id);
  }

  release-IsCoherent :
      (message message' : ℕ) (unlocked delivered : Bool) (l : Lease)
      → IsCoherent (release message message' unlocked delivered l c).1 id
  unfolding release decisions was_refused
  release-IsCoherent message message' unlocked delivered l = record {
    once = ground (arith, k.once, forget-once l.request_id);
    refused_gone = λ h. ground (arith, k.refused_gone, forget-gone l.request_id);
  }

Step-IsCoherent : {c d : Client} (id : ℕ) → Step c d → IsCoherent c id → IsCoherent d id
Step-IsCoherent {c} id (registers r f) k = register-IsCoherent id c k r f
Step-IsCoherent {c} id (announces r delivered) k = announce-IsCoherent id c k r delivered
Step-IsCoherent {c} id (checks r outer message delivered) k =
    check_outer-IsCoherent id c k r outer message delivered
Step-IsCoherent {c} id (wakes r w) k = wake-IsCoherent id c k r w
Step-IsCoherent {c} id (grants j) k = handle_granted-IsCoherent id c k j
Step-IsCoherent {c} id (cancels j reason) k = handle_cancelled-IsCoherent id c k j reason
Step-IsCoherent {c} id closes k = cancel_all-IsCoherent id c k
Step-IsCoherent {c} id (releases message message' unlocked delivered l) k =
    release-IsCoherent id c k message message' unlocked delivered l
Step-IsCoherent {c} id (drops message unlocked delivered l) k =
    drop-IsCoherent id c k message unlocked delivered l

Reach-IsCoherent : {c : Client} (id : ℕ) → Reach initial c → IsCoherent c id
unfolding decisions pending was_refused
Reach-IsCoherent id here = record { once = omega arith; refused_gone = λ h. cc }
Reach-IsCoherent id (next r s) = Step-IsCoherent id s (Reach-IsCoherent id r)

-- Whatever the order in which the tasks call the client, and whatever the channels answer, a
-- request is answered at most once, and never again while its sender is still held.
pub decided_once :
    (id : ℕ) {c : Client} → Reach initial c → decisions id c.trace + pending id c.requests ≤ 1
decided_once id r = (Reach-IsCoherent id r).once

-- Whatever the order of the calls, a request that was answered with a refusal is not registered.
pub refused_unregistered :
    (id : ℕ) {c : Client}
    → Reach initial c
    → was_refused id c.trace ≡ true
    → get id c.requests ≡ none
refused_unregistered id r answered = (Reach-IsCoherent id r).refused_gone answered
