-- ===== src/Routing/Tests.antt =====
-- Events that reach a router, and the theorem at these inputs.
use awesome_distributed_ai_i.Base.{
  ℕ, ◌*◌, ◌<◌, ◌≡◌, refl, Bool, true, Option, none, some, List, [], ◌∷◌, ◌==◌, ==_self, In, In-cons,
  inl, inr, Result, ok,
}
use awesome_distributed_ai_i.Base.Dict.{get, set, remove}
use awesome_distributed_ai_i.Election.{SessionId}
use awesome_distributed_ai_i.Buffer.{ingest, drain_indexed}
use awesome_distributed_ai_i.Buffer.Release.{numbered}
use awesome_distributed_ai_i.Routing.{
  Routed, GlobalEvent, EventRouter, Received, new, accepts, receive_external, receive_all,
  ingest_event, retry, nack_delay, nack_done,
}
use awesome_distributed_ai_i.Routing.Delivery.{accepted, receive_all-in_order}

abbrev session : SessionId
session = record { master_node_id = 1; election_clock = 4 }

abbrev event_at : ℕ → Routed ℕ
event_at i = record { event_id = i * 10; content = i }

abbrev same_event : Routed ℕ → Routed ℕ → Bool
same_event a b = a.event_id == b.event_id

abbrev global : (idx origin : ℕ) → GlobalEvent ℕ
global idx origin = record {
  origin_idx = idx;
  origin = origin;
  session = session;
  event = event_at idx;
}

-- Index 1 is early, and node 2 is not the master.
abbrev events : List (GlobalEvent ℕ)
events = global 1 1 ∷ global 0 2 ∷ global 0 1 ∷ []

program : Unit {0}
unfolding get set remove ingest drain_indexed new receive_external receive_all ingest_event retry
    nack_delay nack_done
program = tt

abbrev requested_of : Result (Received ℕ) → Option ℕ
requested_of (ok r) = r.requested
requested_of _ = none

asks : requested_of (receive_external same_event (global 1 1) (new session)) ≡ some 0
unfolding program
asks = refl

-- An event that comes again asks for the next index, although nothing is missing.
asks_again :
    requested_of (
      receive_external same_event
        (global 0 1)
        (record (new {T = ℕ} session) { buffer = record { store = []; next_idx_to_release = 1 } }))
    ≡ some 1
unfolding program
asks_again = refl

waits : (nack_delay 5 100 (record (new {T = ℕ} session) { nack_attempts = 3 })).0 ≡ 40
unfolding program
waits = refl

of_master :
    (e : GlobalEvent ℕ) → In e events → accepts session e ≡ true → e.event ≡ event_at e.origin_idx
of_master e m h = elim (In-cons m) [
  | inl same ↦ rw (← same) refl
  | inr m1 ↦ elim (In-cons m1) [
    | inl same ↦ rw (← same) refl
    | inr m2 ↦ elim (In-cons m2) [ inl same ↦ rw (← same) refl | inr m3 ↦ elim m3 [ ] ]
  ]
]

receive_all-in_order_example :
    (n : ℕ) × (router : EventRouter ℕ) × (receive_all same_event events (new session)
      ≡ ok (numbered event_at 0 n, router))
    × ((i : ℕ) → i < n → In i (accepted session events))
    × ¬ In n (accepted session events)
receive_all-in_order_example =
    receive_all-in_order event_at same_event session events (λ i. ==_self (i * 10)) of_master
