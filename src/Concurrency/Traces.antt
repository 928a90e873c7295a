-- ===== src/Concurrency/Traces.antt =====
-- The operations of the client as steps (crates/gitzero-agent/src/concurrency.rs), and what a
-- trace of effects says of a request.
use gitzero.Prelude.{
  ℕ, ◌+◌, ◌≤◌, ◌≡◌, Bool, true, false, ◌||◌, none, some, List, [], ◌∷◌, arith, Text, if◌then◌else◌,
  nat_key, nat_beq,
}
use gitzero.Prelude.Map.{Map, get, put, remove}
use gitzero.Concurrency.{
  Client, RequestState, Effect, sent, decided, cancelled, accepted, refused, Request, Lease, Wake,
  register, announce, check_outer, wake, handle_granted, handle_cancelled, close_requests,
  closed_reason, cancel_all, release, drop,
}

-- How often a request was answered.
unfoldable pub decisions : ℕ → List Effect → ℕ
decisions id [] = 0
decisions id (decided j d ∷ trace) = (if nat_beq j id then 1 else 0) + decisions id trace
decisions id (_ ∷ trace) = decisions id trace

-- Whether a request was answered with a refusal.
unfoldable pub was_refused : ℕ → List Effect → Bool
was_refused id [] = false
was_refused id (decided j (refused reason) ∷ trace) = nat_beq j id || was_refused id trace
was_refused id (_ ∷ trace) = was_refused id trace

-- How many senders of answers to a request the client still holds.
unfoldable pub pending : ℕ → Map ℕ RequestState → ℕ
pending id [] = 0
pending id ((j, r) ∷ m) = (if nat_beq j id then (if r.grant then 1 else 0) else 0) + pending id m

-- A fresh request id, as `Uuid::new_v4` gives it: no request or answer has it.
pub record IsFresh (id : ℕ) (c : Client) : Type 0 where
  pub unused : get id c.requests ≡ none
  pub undecided : decisions id c.trace ≡ 0

-- One operation of any task that holds the client, with whatever the channels answer.
pub data Step : Client → Client → Type 0 where
  registers : {c : Client} (r : Request) → IsFresh r.request_id c → Step c (register r c).1
  announces : {c : Client} (r : Request) (delivered : Bool) → Step c (announce r delivered c).1
  checks :
      {c : Client} (r : Request) (outer : Bool) (message : ℕ) (delivered : Bool)
      → Step c (check_outer r outer message delivered c).1
  wakes : {c : Client} (r : Request) (w : Wake) → Step c (wake r w c).1
  grants : {c : Client} (id : ℕ) → Step c (handle_granted id c)
  cancels : {c : Client} (id : ℕ) (reason : Text) → Step c (handle_cancelled id reason c)
  closes : {c : Client} → Step c (cancel_all c)
  releases :
      {c : Client} (message message' : ℕ) (unlocked delivered : Bool) (l : Lease)
      → Step c (release message message' unlocked delivered l c).1
  drops :
      {c : Client} (message : ℕ) (unlocked delivered : Bool) (l : Lease)
      → Step c (drop message unlocked delivered l c)

pub data Reach (start : Client) : Client → Type 0 where
  here : Reach start start
  next : {c d : Client} → Reach start c → Step c d → Reach start d

abbrev pub initial : Client
initial = record { remote = true; requests = []; trace = [] }

pub pending-remove :
    (id k : ℕ) (m : Map ℕ RequestState)
    → pending id (remove k m) ≡ (if nat_beq k id then 0 else pending id m)
unfolding pending remove
pending-remove id k [] = ground arith
pending-remove id k ((j, r) ∷ m) = ground (arith, pending-remove id k m)

pub pending-put :
    (id k : ℕ) (r : RequestState) (m : Map ℕ RequestState)
    → pending id (put k r m) ≡ (if nat_beq k id then (if r.grant then 1 else 0) else pending id m)
unfolding pending put
pending-put id k r m = ground (arith, pending-remove id k m)

pub pending-get :
    (id : ℕ) (m : Map ℕ RequestState) (r : RequestState)
    → get id m ≡ some r
    → (if r.grant then 1 else 0) ≤ pending id m
unfolding pending get
pending-get id [] r h = ground arith
pending-get id ((j, s) ∷ m) r h = ground (arith, pending-get id m r)

pub decisions-close_requests :
    (id : ℕ) (m : Map ℕ RequestState) (trace : List Effect)
    → decisions id (close_requests m trace) ≡ decisions id trace + pending id m
unfolding decisions pending close_requests
decisions-close_requests id [] trace = omega arith
decisions-close_requests id ((j, r) ∷ m) trace = ground (
  arith,
  decisions-close_requests id m (decided j (refused closed_reason) ∷ cancelled j ∷ trace),
  decisions-close_requests id m (cancelled j ∷ trace),
)

pub was_refused-decisions :
    (id : ℕ) (trace : List Effect) → was_refused id trace ≡ true → 1 ≤ decisions id trace
unfolding decisions was_refused
was_refused-decisions id (decided j (refused reason) ∷ trace) h =
    ground (arith, was_refused-decisions id trace)
was_refused-decisions id (decided j accepted ∷ trace) h =
    ground (arith, was_refused-decisions id trace)
was_refused-decisions id (sent m ∷ trace) h = was_refused-decisions id trace h
was_refused-decisions id (cancelled j ∷ trace) h = was_refused-decisions id trace h
was_refused-decisions id [] h = cc
