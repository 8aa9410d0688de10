-- ===== src/Election.antt =====
-- src/exo/shared/election.py. Node ids are numbers, in the order of the strings. The lists of
-- candidates are objects that the node and its campaigns share, so they stand in a store: the
-- campaign with the number `c` owns the list `c`, and `_candidates` names one of them. Tasks of the
-- event loop interleave at their `await`s only, so a campaign is cut into the steps between them.
pub mod Order
pub mod Agreement
pub mod Steps
pub mod Tests
use awesome_distributed_ai_i.Base.{
  ℕ, zero, suc, ◌+◌, ◌≡◌, Bool, true, false, not, ◌&&◌, Option, none, some, List, [], ◌∷◌, ◌++◌,
  ltb, ◌==◌, if◌then◌else◌, length, get_elem?, Result, ok, raise, value_error, ◌>>=◌,
}
use awesome_distributed_ai_i.Base.Int.{ℤ, pos, negsuc, ltb_ℤ, eqb_ℤ, max_ℤ, leb_ℤ}

pub record SessionId : Type 0 where
  pub master_node_id : ℕ
  pub election_clock : ℕ

abbrev pub same_session : SessionId → SessionId → Bool
same_session a b = a.master_node_id == b.master_node_id && a.election_clock == b.election_clock

pub record ElectionMessage : Type 0 where
  pub clock : ℕ
  pub seniority : ℤ
  pub proposed_session : SessionId
  pub commands_seen : ℕ

-- `__lt__`
unfoldable pub lt : ElectionMessage → ElectionMessage → Bool
lt a b =
    if not (a.clock == b.clock)
    then ltb a.clock b.clock
    else if not (eqb_ℤ a.seniority b.seniority)
    then ltb_ℤ a.seniority b.seniority
    else if not (a.commands_seen == b.commands_seen)
    then ltb a.commands_seen b.commands_seen
    else ltb a.proposed_session.master_node_id b.proposed_session.master_node_id

-- Python's `max`: an item replaces the best one so far if it is greater.
unfoldable pub max_from : ElectionMessage → List ElectionMessage → ElectionMessage
max_from best [] = best
max_from best (m ∷ ms) = max_from (if lt best m then m else best) ms

unfoldable pub max_of : List ElectionMessage → Result ElectionMessage
unfolding max_from
max_of [] = raise value_error
max_of (m ∷ ms) = ok (max_from m ms)

pub record ElectionResult : Type 0 where
  pub session_id : SessionId
  pub won_clock : ℕ
  pub is_new_master : Bool

-- Where a campaign stands: its task is scheduled; it waits for the `done` event of an earlier
-- campaign; it yields before its status is sent; it sleeps; it yields before its status is sent again, and once
-- more after that; it yields before the result of the election is sent; its `finally` has run. A `send` yields
-- before it puts its item on the channel, which has no bound.
pub data Phase : Type 0 where
  scheduled : Phase
  waiting : (clock : ℕ) → (done : Option ℕ) → Phase
  opening sleeping resending : (clock : ℕ) → (status : ElectionMessage) → Phase
  awake : (clock : ℕ) → Phase
  electing : (result : ElectionResult) → Phase
  finished : Phase

pub record Campaign : Type 0 where
  pub candidates : List ElectionMessage
  pub phase : Phase
  pub cancelled : Bool

pub record Election : Type 0 where
  pub node_id : ℕ
  pub seniority : ℤ
  pub clock : ℕ
  pub commands_seen : ℕ
  pub current_session : SessionId
  -- the candidate lists, with the campaign that each was made for
  pub campaigns : List Campaign
  -- `_candidates`, by the number of its campaign: none before `run` made the first list
  pub candidates : Option ℕ
  pub campaign_cancel_scope : Option ℕ
  pub campaign_done : Option ℕ
  -- what was sent on the two channels
  pub messages : List ElectionMessage
  pub results : List ElectionResult

-- `__init__`
unfoldable pub init : (node_id : ℕ) → (is_candidate : Bool) → (seniority : ℤ) → Election
init node_id is_candidate seniority = record {
  node_id = node_id;
  seniority = if is_candidate then seniority else negsuc 0;
  clock = 0;
  commands_seen = 0;
  current_session = record { master_node_id = node_id; election_clock = 0 };
  campaigns = [];
  candidates = none;
  campaign_cancel_scope = none;
  campaign_done = none;
  messages = [];
  results = [];
}

-- A new list of candidates, which `_candidates` names now, and a campaign scheduled on it.
unfoldable pub new_campaign : List ElectionMessage → Election → Election
new_campaign candidates s = record s {
  campaigns =
      s.campaigns ++ record { candidates = candidates; phase = scheduled; cancelled = false } ∷ [];
  candidates = some (length s.campaigns);
}

abbrev pub update : ℕ → (Campaign → Campaign) → List Campaign → List Campaign
update i f [] = []
update zero f (c ∷ cs) = f c ∷ cs
update (suc i) f (c ∷ cs) = c ∷ update i f cs

abbrev pub update_at : Option ℕ → (Campaign → Campaign) → List Campaign → List Campaign
update_at none f cs = cs
update_at (some i) f cs = update i f cs

abbrev pub append_candidate : ElectionMessage → Campaign → Campaign
append_candidate m c = record c { candidates = c.candidates ++ m ∷ [] }

-- One message of `_election_receiver`.
unfoldable pub election_receiver : ElectionMessage → Election → Election
unfolding new_campaign
election_receiver message s =
    if message.proposed_session.master_node_id == s.node_id
    then s
    else if ltb s.clock message.clock
    then new_campaign (message ∷ []) (record s { clock = message.clock })
    else if ltb message.clock s.clock
    then s
    else record s { campaigns = update_at s.candidates (append_candidate message) s.campaigns }

-- One round of `_connection_receiver`: a message and those that came while it slept.
unfoldable pub connection_receiver : Election → Election
unfolding new_campaign
connection_receiver s = new_campaign [] (record s { clock = s.clock + 1 })

-- One command of `_command_counter`.
unfoldable pub command_counter : Election → Election
command_counter s = record s { commands_seen = s.commands_seen + 1 }

-- `_election_status(clock)`
unfoldable pub election_status : ℕ → Election → ElectionMessage
election_status c s = record {
  proposed_session =
      if s.current_session.master_node_id == s.node_id
      then s.current_session
      else record { master_node_id = s.node_id; election_clock = c };
  clock = c;
  seniority = s.seniority;
  commands_seen = s.commands_seen;
}

-- The result that `elect` sends.
abbrev pub result_of : ElectionMessage → SessionId → ElectionResult
result_of em current_session = record {
  won_clock = em.clock;
  session_id = em.proposed_session;
  is_new_master = not (same_session em.proposed_session current_session);
}

-- `_campaign` from its start to the wait for the campaign before it.
unfoldable pub campaign_start : ℕ → Election → Election
campaign_start c s = record s {
  campaigns =
      update c (λ k. record k { phase = waiting s.clock s.campaign_done })
        (update_at s.campaign_cancel_scope (λ k. record k { cancelled = true }) s.campaigns);
}

-- From the wait to the sending: the own `done` and scope, and the own status among the candidates.
unfoldable pub campaign_open : (c clock : ℕ) → Election → Election
unfolding election_status
campaign_open c clock s =
    let status = election_status clock s in
    record s {
      campaign_done = some c;
      campaign_cancel_scope = some c;
      campaigns =
          update c (λ k. record (append_candidate status k) { phase = opening clock status })
            s.campaigns;
    }

-- The status is sent, and the campaign sleeps.
unfoldable pub campaign_send : (c clock : ℕ) (status : ElectionMessage) → Election → Election
campaign_send c clock status s = record s {
  messages = s.messages ++ status ∷ [];
  campaigns = update c (λ k. record k { phase = sleeping clock status }) s.campaigns;
}

-- The end of the sleep.
unfoldable pub campaign_wake : (c clock : ℕ) (status : ElectionMessage) → Election → Election
campaign_wake c clock status s = record s {
  campaigns = update c (λ k. record k { phase = resending clock status }) s.campaigns;
}

-- The status is sent again.
unfoldable pub campaign_resend : (c clock : ℕ) (status : ElectionMessage) → Election → Election
campaign_resend c clock status s = record s {
  messages = s.messages ++ status ∷ [];
  campaigns = update c (λ k. record k { phase = awake clock }) s.campaigns;
}

-- `self._campaign_cancel_scope is scope`
abbrev pub clear_scope : ℕ → Option ℕ → Option ℕ
clear_scope c none = none
clear_scope c (some k) = if k == c then none else some k

-- The `finally` block.
unfoldable pub campaign_finally : ℕ → Election → Election
campaign_finally c s = record s {
  campaign_cancel_scope = clear_scope c s.campaign_cancel_scope;
  campaigns = update c (λ k. record k { phase = finished }) s.campaigns;
}

-- `self.seniority` once `elected` is known.
unfoldable pub new_seniority : ElectionMessage → List ElectionMessage → Election → ℤ
new_seniority elected candidates s =
    if s.node_id == elected.proposed_session.master_node_id && leb_ℤ (pos 0) s.seniority
    then max_ℤ s.seniority (pos (length candidates))
    else s.seniority

-- The choice of the winner, and `elect` up to the sending of its result.
unfoldable pub campaign_elect : ℕ → List ElectionMessage → Election → Result Election
unfolding max_of new_seniority
campaign_elect c candidates s = do
  elected ← max_of candidates
  ok (record s {
    seniority = new_seniority elected candidates s;
    current_session = elected.proposed_session;
    campaigns =
        update c (λ k. record k { phase = electing (result_of elected s.current_session) })
          s.campaigns;
  })

-- The result is sent, and the `finally` runs.
unfoldable pub campaign_finish : ℕ → ElectionResult → Election → Election
unfolding campaign_finally
campaign_finish c result s = campaign_finally c (record s { results = s.results ++ result ∷ [] })
