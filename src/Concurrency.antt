-- ===== src/Concurrency.antt =====
-- crates/gitzero-agent/src/concurrency.rs: the client side of concurrency groups. A request is
-- registered, answered once over its `oneshot` channel, and its lease is released or dropped.
-- The channels belong to tokio, so what the client does with them is a trace of effects, latest
-- first, and what they answer is an argument. Each operation is one step: the lock section and
-- the sends of one call.
pub mod Traces
pub mod UnitId
pub mod Decisions
pub mod Leases
mod Tests
use gitzero.Prelude.{
  ℕ, Bool, true, false, not, Option, none, some, List, [], ◌∷◌, Text, codes, if◌then◌else◌, nat_key,
}
use gitzero.Prelude.Map.{Map, get, put, remove}
use gitzero.Concurrency.UnitId.{bounded_unit_id}

-- `ConcurrencyQueue` of the protocol.
pub data Queue : Type 0 where
  single max : Queue

-- The two messages that this module sends: `ConcurrencyAcquire`, with its message, run and request
-- ids, its unit and group, `cancel_in_progress` and the queue; and `ConcurrencyRelease`.
pub data Message : Type 0 where
  concurrency_acquire : ℕ → ℕ → ℕ → Text → Text → Bool → Queue → Message
  concurrency_release : ℕ → ℕ → ℕ → Message

-- `Result<(), String>`, the answer to a request.
pub data Decision : Type 0 where
  accepted : Decision
  refused : Text → Decision

pub data Effect : Type 0 where
  -- a message accepted by the outbound channel
  sent : Message → Effect
  -- `grant.send` for a request
  decided : ℕ → Decision → Effect
  -- `cancel.send_replace(true)` for a request
  cancelled : ℕ → Effect

-- `grant` says whether the sender of the one answer is still there.
pub record RequestState : Type 0 where
  pub granted : Bool
  pub grant : Bool

-- `remote` is false for a local client, which registers nothing.
pub record Client : Type 0 where
  pub remote : Bool
  pub requests : Map ℕ RequestState
  pub trace : List Effect

pub record Lease : Type 0 where
  pub run_id : ℕ
  pub request_id : ℕ
  pub released : Bool

-- What `acquire` has come to: it still waits, it returned an acquisition, or it failed.
pub data Progress : Type 0 where
  waiting : Progress
  acquired : Lease → Progress
  abandoned : Text → Progress
  failed : Text → Progress

abbrev pub emit : Effect → Client → Client
emit e c = record c { trace = e ∷ c.trace }

abbrev pub forget : ℕ → Client → Client
forget id c = record c { requests = remove id c.requests }

-- The ids of one call of `acquire`, and its arguments.
pub record Request : Type 0 where
  pub run_id : ℕ
  pub request_id : ℕ
  pub message_id : ℕ
  pub unit_id : Text
  pub group : Text
  pub cancel_in_progress : Bool
  pub queue : Queue

abbrev lease_of : Request → Lease
lease_of r = record { run_id = r.run_id; request_id = r.request_id; released = false }

-- `acquire` up to the registration of the request.
unfoldable pub register : Request → Client → Progress × Client
register r c =
    if c.remote
    then (
      waiting,
      record c {
        requests = put r.request_id (record { granted = false; grant = true }) c.requests;
      },
    )
    else (acquired (lease_of r), c)

-- The send of the acquire message; `delivered` is what the outbound channel answers.
unfoldable pub announce : Request → Bool → Client → Progress × Client
announce r delivered c =
    if delivered
    then (
      waiting,
      emit
          (sent (
            concurrency_acquire r.message_id r.run_id r.request_id (bounded_unit_id r.unit_id)
              r.group r.cancel_in_progress r.queue))
          c,
    )
    else (
      failed (codes "control plane event channel closed while acquiring concurrency"),
      forget r.request_id c,
    )

-- A send whose result is ignored or returned.
abbrev send_release : ℕ → ℕ → ℕ → Bool → Client → Client
send_release message run request delivered c =
    if delivered then emit (sent (concurrency_release message run request)) c else c

unfoldable pub abandon : ℕ → ℕ → ℕ → Bool → Client → Client
abandon message run request delivered c =
    if c.remote then send_release message run request delivered (forget request c) else c

-- The top of the waiting loop: the run's own cancellation.
unfoldable pub check_outer : Request → Bool → ℕ → Bool → Client → Progress × Client
unfolding abandon
check_outer r outer message delivered c =
    if outer
    then (
      abandoned (codes "The parent run was cancelled while waiting for concurrency."),
      abandon message r.run_id r.request_id delivered c,
    )
    else (waiting, c)

-- How the `select!` ends: with the answer, with none because the sender is gone (`none`), or with
-- a change of the outer signal, after which the loop goes on.
pub data Wake : Type 0 where
  response : Option Decision → Wake
  changed : Wake

unfoldable pub wake : Request → Wake → Client → Progress × Client
wake r changed c = (waiting, c)
wake r (response (some accepted)) c = (acquired (lease_of r), c)
wake r (response (some (refused reason))) c = (abandoned reason, c)
wake r (response none) c = (
  failed (codes "concurrency request ended without a control plane decision"),
  forget r.request_id c,
)

-- `if let Some(grant) = grant { grant.send(..) }`
abbrev answer : Bool → ℕ → Decision → Client → Client
answer grant id d c = if grant then emit (decided id d) c else c

grant_found : ℕ → Client → Option RequestState → Client
grant_found id c none = c
grant_found id c (some request) =
    answer request.grant id accepted
      (record c { requests = put id (record { granted = true; grant = false }) c.requests })

unfoldable pub handle_granted : ℕ → Client → Client
unfolding grant_found
handle_granted id c = if c.remote then grant_found id c (get id c.requests) else c

cancel_found : ℕ → Text → Client → Option RequestState → Client
cancel_found id reason c none = forget id c
cancel_found id reason c (some request) =
    if request.granted
    then emit (cancelled id) c
    else answer request.grant id (refused reason) (forget id c)

unfoldable pub handle_cancelled : ℕ → Text → Client → Client
unfolding cancel_found
handle_cancelled id reason c = if c.remote then cancel_found id reason c (get id c.requests) else c

abbrev pub closed_reason : Text
closed_reason = codes "Control plane connection closed."

-- The loop over the drained requests.
unfoldable pub close_requests : Map ℕ RequestState → List Effect → List Effect
close_requests [] trace = trace
close_requests ((id, request) ∷ rest) trace =
    let signalled = cancelled id ∷ trace in
    close_requests rest
      (if request.grant then decided id (refused closed_reason) ∷ signalled else signalled)

unfoldable pub cancel_all : Client → Client
unfolding close_requests
cancel_all c =
    if c.remote then record c { requests = []; trace = close_requests c.requests c.trace } else c

-- `release_inner`: whether it returned `Ok`, the lease and the client.
unfoldable pub release_inner : ℕ → Bool → Lease → Client → Bool × Lease × Client
release_inner message delivered l c =
    if l.released
    then (true, l, c)
    else if c.remote
    then (
      delivered,
      record l { released = true },
      send_release message l.run_id l.request_id delivered (forget l.request_id c),
    )
    else (true, record l { released = true }, c)

-- `drop`; `unlocked` says that `try_lock` got the lock.
unfoldable pub drop : ℕ → Bool → Bool → Lease → Client → Client
drop message unlocked delivered l c =
    if l.released
    then c
    else if c.remote
    then send_release message l.run_id l.request_id delivered
        (if unlocked then forget l.request_id c else c)
    else c

-- `release` takes the lease by value, so the lease is dropped when it returns.
unfoldable pub release : ℕ → ℕ → Bool → Bool → Lease → Client → Bool × Client
unfolding release_inner drop
release message message' unlocked delivered l c =
    let (returned, l', c') = release_inner message delivered l c in
    (returned, drop message' unlocked delivered l' c')
