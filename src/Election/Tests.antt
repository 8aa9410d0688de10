-- ===== src/Election/Tests.antt =====
-- A node alone, a round that another node starts, and the theorems at concrete inputs.
use awesome_distributed_ai_i.Base.{
  ℕ, ◌≡◌, ◌≢◌, refl, true, false, none, List, [], ◌∷◌, In, here, there, ok,
}
use awesome_distributed_ai_i.Base.Int.{ℤ, pos, negsuc}
use awesome_distributed_ai_i.Election.{
  ElectionMessage, Election, electing, init, connection_receiver, campaign_start, campaign_open,
  campaign_send, campaign_wake, campaign_resend, campaign_elect, campaign_finally,
  election_receiver, max_of, lt,
}
use awesome_distributed_ai_i.Election.Order.{SameRank}
use awesome_distributed_ai_i.Election.Agreement.{SameCandidates, max_of-SameRank, max_of-MayLead}
use awesome_distributed_ai_i.Election.Steps.{
  receive, elect, cancel, connect, start, open_up, send, wake, resend, Reach, start_here, next,
  Keeps, Reach-Keeps,
}

abbrev message : (clock : ℕ) → ℤ → (node : ℕ) → ElectionMessage
message clock seniority node = record {
  clock = clock;
  seniority = seniority;
  proposed_session = record { master_node_id = node; election_clock = clock };
  commands_seen = 0;
}

-- Node 7, of seniority 2, meets a neighbour and campaigns alone.
abbrev met : Election
unfolding init connection_receiver
met = connection_receiver (init 7 true (pos 2))

abbrev started : Election
unfolding campaign_start
started = campaign_start 0 met

-- It still proposes the session in which it spawned.
abbrev own_status : ElectionMessage
own_status = record (message 1 (pos 2) 7) {
  proposed_session = record { master_node_id = 7; election_clock = 0 };
}

abbrev opened : Election
unfolding campaign_open
opened = campaign_open 0 1 started

abbrev asleep : Election
unfolding campaign_send
asleep = campaign_send 0 1 own_status opened

abbrev woken : Election
unfolding campaign_wake
woken = campaign_wake 0 1 own_status asleep

abbrev resent : Election
unfolding campaign_resend
resent = campaign_resend 0 1 own_status woken

program : Unit {0}
unfolding init connection_receiver election_receiver campaign_start campaign_open campaign_send
    campaign_wake campaign_resend campaign_elect campaign_finally
program = tt

to_resent : Reach (init 7 true (pos 2)) resent
unfolding program
to_resent =
    next
      (next
        (next
          (next
            (next (next start_here (connect (init 7 true (pos 2))))
              (start met 0 false [] (record { campaign = refl })))
            (open_up started 0 1 none false [] (record { campaign = refl }) tt))
          (send opened 0 1 own_status false (own_status ∷ []) (record { campaign = refl })))
        (wake asleep 0 1 own_status false (own_status ∷ []) (record { campaign = refl })))
      (resend woken 0 1 own_status false (own_status ∷ []) (record { campaign = refl }))

Reach-Keeps_example : Keeps (init 7 true (pos 2)) resent
Reach-Keeps_example = Reach-Keeps to_resent

-- Node 8 is heard and wins, but a new neighbour starts a campaign that cancels this one before the result is sent: the
-- session has changed, and nothing was announced.
abbrev rival : ElectionMessage
rival = message 1 (pos 5) 8

abbrev heard : Election
heard = election_receiver rival resent

abbrev chosen : Election
chosen = record heard {
  current_session = rival.proposed_session;
  campaigns =
      record {
        candidates = own_status ∷ rival ∷ [];
        phase =
            electing
              (record { session_id = rival.proposed_session; won_clock = 1; is_new_master = true });
        cancelled = false;
      }
      ∷ [];
}

abbrev interrupted : Election
interrupted = campaign_finally 0 (campaign_start 1 (connection_receiver chosen))

interrupted_run : Reach (init 7 true (pos 2)) interrupted
unfolding program max_of lt
interrupted_run =
    next
      (next
        (next
          (next (next to_resent (receive resent rival)) (
            elect heard chosen 0 1 false (own_status ∷ rival ∷ []) (record { campaign = refl })
              refl))
          (connect chosen))
        (start (connection_receiver chosen) 1 false [] (record { campaign = refl })))
      (cancel (campaign_start 1 (connection_receiver chosen)) 0 _ (own_status ∷ rival ∷ [])
        (record { campaign = refl }) tt)

session_changed : interrupted.current_session ≡ rival.proposed_session
unfolding program
session_changed = refl

not_announced : interrupted.results ≡ []
unfolding program
not_announced = refl

-- Node 9 heard 7 and 8, and node 8 heard them the other way round and 7 twice.
abbrev heard_by_9 : List ElectionMessage
heard_by_9 = message 3 (pos 2) 7 ∷ message 3 (pos 2) 8 ∷ []

abbrev heard_by_8 : List ElectionMessage
heard_by_8 = message 3 (pos 2) 8 ∷ message 3 (pos 2) 7 ∷ message 3 (pos 2) 7 ∷ []

max_by_9 : max_of heard_by_9 ≡ ok (message 3 (pos 2) 8)
unfolding max_of lt
max_by_9 = refl

max_by_8 : max_of heard_by_8 ≡ ok (message 3 (pos 2) 8)
unfolding max_of lt
max_by_8 = refl

same_heard : SameCandidates heard_by_9 heard_by_8
same_heard = record { forth = forth; back = back }
  where
    forth : (m : ElectionMessage) → In m heard_by_9 → In m heard_by_8
    forth m (here e) = there (here e)
    forth m (there (here e)) = here e
    forth m (there (there i)) = elim i [ ]

    back : (m : ElectionMessage) → In m heard_by_8 → In m heard_by_9
    back m (here e) = there (here e)
    back m (there (here e)) = here e
    back m (there (there (here e))) = here e
    back m (there (there (there i))) = elim i [ ]

max_of-SameRank_example : SameRank (message 3 (pos 2) 8) (message 3 (pos 2) 8)
max_of-SameRank_example =
    max_of-SameRank heard_by_9 heard_by_8 (message 3 (pos 2) 8) (message 3 (pos 2) 8) same_heard
      max_by_9 max_by_8

-- Node 9 is no candidate.
abbrev with_follower : List ElectionMessage
with_follower = message 3 (negsuc 0) 9 ∷ message 3 (pos 0) 7 ∷ []

max_with_follower : max_of with_follower ≡ ok (message 3 (pos 0) 7)
unfolding max_of lt
max_with_follower = refl

one_round : (m : ElectionMessage) → In m with_follower → m.clock ≡ 3
one_round m (here e) = cc
one_round m (there (here e)) = cc
one_round m (there (there i)) = elim i [ ]

max_of-MayLead_example : pos 0 ≢ negsuc 0
max_of-MayLead_example =
    max_of-MayLead with_follower (message 3 (pos 0) 7) (message 3 (pos 0) 7) one_round
      (there (here refl)) (0, refl) max_with_follower
