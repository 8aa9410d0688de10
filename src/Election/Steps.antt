-- ===== src/Election/Steps.antt =====
-- The tasks of one node as steps that interleave in any order, and what holds after any of them.
use awesome_distributed_ai_i.Base.{
  ℕ, ◌≤◌, ◌≡◌, ◌≢◌, Bool, true, Option, none, some, List, [], ◌∷◌, ◌++◌, arith, All, get_elem?, ok,
}
use awesome_distributed_ai_i.Base.Int.{negsuc}
use awesome_distributed_ai_i.Election.{
  ElectionMessage, ElectionResult, Election, Campaign, Phase, scheduled, waiting, opening, sleeping,
  resending, awake, electing, finished, campaign_send, campaign_resend, campaign_elect,
  election_receiver, connection_receiver, command_counter, campaign_start, campaign_open,
  campaign_wake, campaign_finally, campaign_finish, new_campaign,
}

-- `done.wait()` returns: there is no earlier campaign, or its `finally` has run.
abbrev IsDone : Option ℕ → Election → Type 0
IsDone none s = Unit {0}
IsDone (some d) s = (k : Campaign) × (get_elem? s.campaigns d ≡ some k) × (k.phase ≡ finished)

-- The campaign `c` is at the phase `p`.
pub record At (s : Election) (c : ℕ) (p : Phase) (cancelled : Bool)
    (candidates : List ElectionMessage) : Type 0 where
  pub campaign :
      get_elem? s.campaigns c
      ≡ some (record { candidates = candidates; phase = p; cancelled = cancelled })

-- The campaign is in its cancel scope.
abbrev pub IsInScope : Phase → Type 0
IsInScope scheduled = ⊥
IsInScope (waiting clock before) = ⊥
IsInScope finished = ⊥
IsInScope _ = Unit {0}

-- A campaign that is cancelled ends at the place where it yields, or goes on to the next such place if it was due to
-- go on already.
pub data Step : Election → Election → Type 0 where
  receive : (s : Election) (m : ElectionMessage) → Step s (election_receiver m s)
  connect : (s : Election) → Step s (connection_receiver s)
  command : (s : Election) → Step s (command_counter s)
  start :
      (s : Election) (c : ℕ) (x : Bool) (l : List ElectionMessage)
      → At s c scheduled x l
      → Step s (campaign_start c s)
  open_up :
      (s : Election) (c clock : ℕ) (before : Option ℕ) (x : Bool) (l : List ElectionMessage)
      → At s c (waiting clock before) x l
      → IsDone before s
      → Step s (campaign_open c clock s)
  send :
      (s : Election) (c clock : ℕ) (status : ElectionMessage) (x : Bool) (l : List ElectionMessage)
      → At s c (opening clock status) x l
      → Step s (campaign_send c clock status s)
  wake :
      (s : Election) (c clock : ℕ) (status : ElectionMessage) (x : Bool) (l : List ElectionMessage)
      → At s c (sleeping clock status) x l
      → Step s (campaign_wake c clock status s)
  resend :
      (s : Election) (c clock : ℕ) (status : ElectionMessage) (x : Bool) (l : List ElectionMessage)
      → At s c (resending clock status) x l
      → Step s (campaign_resend c clock status s)
  elect :
      (s s' : Election) (c clock : ℕ) (x : Bool) (l : List ElectionMessage)
      → At s c (awake clock) x l
      → campaign_elect c l s ≡ ok s'
      → Step s s'
  finish :
      (s : Election) (c : ℕ) (result : ElectionResult) (x : Bool) (l : List ElectionMessage)
      → At s c (electing result) x l
      → Step s (campaign_finish c result s)
  cancel :
      (s : Election) (c : ℕ) (p : Phase) (l : List ElectionMessage)
      → At s c p true l
      → IsInScope p
      → Step s (campaign_finally c s)

pub data Reach (s : Election) : Election → Type 0 where
  start_here : Reach s s
  next : {t u : Election} → Reach s t → Step t u → Reach s u

-- A campaign that is about to send its status, or has sent it, has a candidate: that status.
abbrev HasCandidate : Phase → List ElectionMessage → Type 0
HasCandidate (opening clock status) l = l ≢ []
HasCandidate (sleeping clock status) l = l ≢ []
HasCandidate (resending clock status) l = l ≢ []
HasCandidate (awake clock) l = l ≢ []
HasCandidate _ l = Unit {0}

abbrev Fits : Campaign → Type 0
Fits k = HasCandidate k.phase k.candidates

All-snoc : (ks : List Campaign) (k : Campaign) → Fits k → All Fits ks → All Fits (ks ++ k ∷ [])
All-snoc [] k h a = (h, tt)
All-snoc (k' ∷ ks) k h a = (a.0, All-snoc ks k h a.1)

abbrev IsWf : Election → Type 0
IsWf s = All Fits s.campaigns

new_campaign-IsWf : (l : List ElectionMessage) (s : Election) → IsWf s → IsWf (new_campaign l s)
unfolding new_campaign
new_campaign-IsWf l s h = All-snoc s.campaigns _ tt h

-- A step leaves the node's id, never turns its clock back, and keeps a seniority of -1.
pub record Keeps (s t : Election) : Type 0 where
  pub same_node : t.node_id ≡ s.node_id
  pub clock_grows : s.clock ≤ t.clock
  pub not_leader : s.seniority ≡ negsuc 0 → t.seniority ≡ negsuc 0

elect-Keeps :
    (c : ℕ) (l : List ElectionMessage) (s t : Election) → campaign_elect c l s ≡ ok t → Keeps s t
unfolding campaign_elect
elect-Keeps c [] s t h = cc
elect-Keeps c (m ∷ ms) s t h = ground arith

Step-Keeps : {s t : Election} → Step s t → Keeps s t
unfolding election_receiver connection_receiver command_counter campaign_start campaign_open
    campaign_wake campaign_finally campaign_send campaign_resend campaign_finish
Step-Keeps (receive s m) = ground arith
Step-Keeps (elect s s' c clock x l at e) = elect-Keeps c l s s' e
Step-Keeps _ = ground arith

-- Over any run of the tasks a node keeps its id, its clock never goes back, and a seniority of -1, which the
-- constructor gives to a node that is no candidate, stays -1.
pub Reach-Keeps : {s t : Election} → Reach s t → Keeps s t
Reach-Keeps start_here = ground arith
Reach-Keeps (next r st) = ground (arith, Reach-Keeps r, Step-Keeps st)
