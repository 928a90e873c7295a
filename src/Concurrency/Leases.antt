-- ===== src/Concurrency/Leases.antt =====
-- The ends of requests and leases (crates/gitzero-agent/src/concurrency.rs): the race of a grant
-- with a cancellation, the closed connection, release and drop, and the calls of `acquire`.
use gitzero.Prelude.{
  ==_refl, Bool, List, Text, [], arith, false, if◌then◌else◌, nat_beq, nat_key, none, some,
  text_key, true, ℕ, ◌+◌, ◌||◌, ◌∷◌, ◌≡◌,
}
use gitzero.Concurrency.{
  changed, accepted, closed_reason, concurrency_release, cancelled, decided, drop, refused, sent,
  failed, response, Effect, Lease, abandoned, wake, Client, check_outer, handle_granted, Progress,
  Request, RequestState, announce, cancel_all, close_requests, handle_cancelled, release,
}
use gitzero.Prelude.Map.{Map, get, contains_key, get-remove, get-put}
use gitzero.Concurrency.Traces.{
  decisions, was_refused, pending, decisions-close_requests, Reach, initial,
}
use gitzero.Concurrency.Decisions.{refused_unregistered}

-- A request that was registered and not answered yet.
abbrev pub unanswered : RequestState
unanswered = record { granted = false; grant = true }

-- Whether the cancellation of a request's lease was signalled.
unfoldable pub was_signalled : ℕ → List Effect → Bool
was_signalled id [] = false
was_signalled id (cancelled j ∷ trace) = nat_beq j id || was_signalled id trace
was_signalled id (_ ∷ trace) = was_signalled id trace

-- How many release messages went out for a request.
unfoldable pub release_count : ℕ → List Effect → ℕ
release_count id [] = 0
release_count id (sent (concurrency_release message run j) ∷ trace) =
    (if nat_beq j id then 1 else 0) + release_count id trace
release_count id (_ ∷ trace) = release_count id trace

-- On a request that waits, a grant and then a cancellation hand out the lease, signal its
-- cancellation and leave it registered; a cancellation and then a grant refuse the request with
-- the reason, and the late grant changes nothing.
pub grant_cancel_race :
    (id : ℕ) (reason : Text) (c : Client)
    → c.remote ≡ true
    → get id c.requests ≡ some unanswered
    → ((handle_cancelled id reason (handle_granted id c)).trace
        ≡ cancelled id ∷ decided id accepted ∷ c.trace)
      × (get id (handle_cancelled id reason (handle_granted id c)).requests
          ≡ some (record { granted = true; grant = false }))
      × ((handle_cancelled id reason c).trace ≡ decided id (refused reason) ∷ c.trace)
      × (handle_granted id (handle_cancelled id reason c) ≡ handle_cancelled id reason c)
unfolding handle_cancelled handle_granted
grant_cancel_race id reason c remote e =
    let put_law = get-put id id (record { granted = true; grant = false }) c.requests in
    let remove_law = get-remove id id c.requests in
    (
      ground (arith, put_law, ==_refl id),
      ground (arith, put_law, ==_refl id),
      ground (arith, ==_refl id),
      ground (arith, remove_law, ==_refl id),
    )

was_signalled-close_requests :
    (id : ℕ) (m : Map ℕ RequestState) (trace : List Effect)
    → was_signalled id (close_requests m trace) ≡ (was_signalled id trace || contains_key id m)
unfolding was_signalled close_requests get
was_signalled-close_requests id [] trace = ground arith
was_signalled-close_requests id ((j, r) ∷ m) trace = ground (
  arith,
  was_signalled-close_requests id m (decided j (refused closed_reason) ∷ cancelled j ∷ trace),
  was_signalled-close_requests id m (cancelled j ∷ trace),
)

-- When the connection closes, no request stays registered, every sender still held is used for
-- one answer, and exactly the registered requests are signalled as cancelled, beside those that
-- were before.
pub cancel_all_lem :
    (id : ℕ) (c : Client)
    → c.remote ≡ true
    → ((cancel_all c).requests ≡ [])
      × (decisions id (cancel_all c).trace ≡ decisions id c.trace + pending id c.requests)
      × (was_signalled id (cancel_all c).trace
          ≡ (was_signalled id c.trace || contains_key id c.requests))
unfolding cancel_all
cancel_all_lem id c remote = (
  ground arith,
  ground (arith, decisions-close_requests id c.requests c.trace),
  ground (arith, was_signalled-close_requests id c.requests c.trace),
)

-- A lease that is released takes its request off the client and sends one release message, if the
-- channel takes it; the drop that follows adds nothing. Dropping the lease without a release
-- does the same, if the lock is free.
pub release_once :
    (message message' : ℕ) (unlocked delivered : Bool) (l : Lease) (c : Client)
    → c.remote ≡ true
    → l.released ≡ false
    → ((release message message' unlocked delivered l c).0 ≡ delivered)
      × (release_count l.request_id (release message message' unlocked delivered l c).1.trace
          ≡ (if delivered then 1 else 0) + release_count l.request_id c.trace)
      × (get l.request_id (release message message' unlocked delivered l c).1.requests ≡ none)
      × (drop message true delivered l c ≡ (release message message' unlocked delivered l c).1)
unfolding release release_count
release_once message message' unlocked delivered l c remote fresh = (
  ground arith,
  ground arith,
  ground (arith, get-remove l.request_id l.request_id c.requests),
  ground arith,
)

-- The operations of one call of `acquire` on a registered request. An answer arrives only if it
-- was sent.
pub data AcquireStep (r : Request) (c : Client) : Progress → Client → Type 0 where
  announces :
      (delivered : Bool) → AcquireStep r c (announce r delivered c).0 (announce r delivered c).1
  checks :
      (outer : Bool) (message : ℕ) (delivered : Bool)
      → AcquireStep r c
          (check_outer r outer message delivered c).0
          (check_outer r outer message delivered c).1
  refuses :
      (reason : Text)
      → was_refused r.request_id c.trace ≡ true
      → AcquireStep r c
          (wake r (response (some (refused reason))) c).0
          (wake r (response (some (refused reason))) c).1
  accepts :
      AcquireStep r c
        (wake r (response (some accepted)) c).0
        (wake r (response (some accepted)) c).1
  loses : AcquireStep r c (wake r (response none) c).0 (wake r (response none) c).1
  loops : AcquireStep r c (wake r changed c).0 (wake r changed c).1

-- `acquire` has returned, and without a lease.
abbrev pub gave_up : Progress → Bool
gave_up (abandoned reason) = true
gave_up (failed reason) = true
gave_up _ = false

-- However a call of `acquire` ends without a lease (the outbound channel is closed, the run is
-- cancelled, the request is refused, or its answer is lost), its request is not registered.
pub acquire_leaves_nothing :
    (r : Request) {c d : Client} {p : Progress}
    → Reach initial c
    → c.remote ≡ true
    → AcquireStep r c p d
    → gave_up p ≡ true
    → get r.request_id d.requests ≡ none
unfolding announce check_outer wake
acquire_leaves_nothing r {c} reach remote (announces delivered) h =
    ground (arith, get-remove r.request_id r.request_id c.requests)
acquire_leaves_nothing r {c} reach remote (checks outer message delivered) h =
    ground (arith, get-remove r.request_id r.request_id c.requests)
acquire_leaves_nothing r {c} reach remote (refuses reason answered) h =
    refused_unregistered r.request_id reach answered
acquire_leaves_nothing r reach remote accepts h = cc
acquire_leaves_nothing r {c} reach remote loses h =
    ground (arith, get-remove r.request_id r.request_id c.requests)
acquire_leaves_nothing r reach remote loops h = cc
