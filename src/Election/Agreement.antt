-- ===== src/Election/Agreement.antt =====
-- What a finished campaign elects: nodes that heard the same candidates agree, and a node that may
-- not be master loses to any that may.
use awesome_distributed_ai_i.Base.{
  ℕ, zero, suc, ◌≡◌, ◌≢◌, refl, some, get_elem?, true, List, [], ◌∷◌, arith, In, ok, length,
}
use awesome_distributed_ai_i.Base.Int.{pos, negsuc, leb_ℤ}
use awesome_distributed_ai_i.Election.{
  ElectionMessage, Election, Campaign, electing, result_of, update, lt, max_from, max_of,
  campaign_elect,
}
use awesome_distributed_ai_i.Election.Order.{
  AtLeast, AtLeast-antisym, SameRank, IsGreatest, max_of-IsGreatest,
}

-- The same candidates, in whatever order and however often.
pub record SameCandidates (xs ys : List ElectionMessage) : Type 0 where
  pub forth : (m : ElectionMessage) → In m xs → In m ys
  pub back : (m : ElectionMessage) → In m ys → In m xs

-- Two nodes whose campaigns end with the same candidates elect messages of the same rank, hence
-- the same master, whatever the order and the number of times in which the candidates arrived.
pub max_of-SameRank :
    (xs ys : List ElectionMessage) (a b : ElectionMessage)
    → SameCandidates xs ys
    → max_of xs ≡ ok a
    → max_of ys ≡ ok b
    → SameRank a b
max_of-SameRank xs ys a b same h k =
    let (in_xs, above_xs) = parts (max_of-IsGreatest xs a h) in
    let (in_ys, above_ys) = parts (max_of-IsGreatest ys b k) in
    AtLeast-antisym a b (above_xs b (same.back b in_ys)) (above_ys a (same.forth a in_xs))
  where
    parts :
        {ms : List ElectionMessage} {m : ElectionMessage}
        → IsGreatest ms m
        → In m ms × ((x : ElectionMessage) → In x ms → AtLeast m x)
    parts g = (g.candidate, g.greatest)

-- A node that is not a candidate proposes itself with seniority -1.
abbrev pub MayLead : ElectionMessage → Type 0
MayLead m = (n : ℕ) × (m.seniority ≡ pos n)

lt-of-senior :
    (a b : ElectionMessage) (n : ℕ)
    → a.clock ≡ b.clock
    → a.seniority ≡ negsuc 0
    → b.seniority ≡ pos n
    → lt a b ≡ true
unfolding lt
lt-of-senior a b n c h k = ground arith

-- If all candidates of a campaign are of one round and one of them may lead, then the elected one
-- is not a node that may not lead.
pub max_of-MayLead :
    (xs : List ElectionMessage) (a b : ElectionMessage)
    → ((m : ElectionMessage) → In m xs → m.clock ≡ b.clock)
    → In b xs
    → MayLead b
    → max_of xs ≡ ok a
    → a.seniority ≢ negsuc 0
max_of-MayLead xs a b round i (n, senior) h least =
    let g = max_of-IsGreatest xs a h in
    let up = lt-of-senior a b n (round a g.candidate) least senior in cc (up, g.greatest b i)

-- What the choice of the winner does: the session of the greatest candidate becomes the current one, the campaign
-- is about to announce it with the truth about it being new, and the seniority does not fall.
pub record IsElected (c : ℕ) (candidates : List ElectionMessage) (s s' : Election) : Type 0 where
  pub elected : ElectionMessage
  pub best : IsGreatest candidates elected
  pub session : s'.current_session ≡ elected.proposed_session
  pub nothing_sent : s'.results ≡ s.results
  pub to_announce :
      (k : Campaign)
      → get_elem? s.campaigns c ≡ some k
      → get_elem? s'.campaigns c
        ≡ some (record k { phase = electing (result_of elected s.current_session) })
  pub seniority_kept : leb_ℤ s.seniority s'.seniority ≡ true
  pub not_leader : s.seniority ≡ negsuc 0 → s'.seniority ≡ negsuc 0
  pub own_win :
      (n : ℕ)
      → s.seniority ≡ pos n
      → s.node_id ≡ elected.proposed_session.master_node_id
      → leb_ℤ (pos (length candidates)) s'.seniority ≡ true

get-update :
    (c : ℕ) (f : Campaign → Campaign) (ks : List Campaign) (k : Campaign)
    → get_elem? ks c ≡ some k
    → get_elem? (update c f ks) c ≡ some (f k)
get-update c f [] k h = cc
get-update zero f (k' ∷ ks) k h = let same : k' ≡ k = cc in rw same
get-update (suc c) f (k' ∷ ks) k h = get-update c f ks k h

pub campaign_elect-IsElected :
    (c : ℕ) (candidates : List ElectionMessage) (s : Election)
    → candidates ≢ []
    → (s' : Election) × (campaign_elect c candidates s ≡ ok s') × IsElected c candidates s s'
unfolding campaign_elect
campaign_elect-IsElected c [] s h = absurd (h refl)
campaign_elect-IsElected c (m ∷ ms) s h =
    let best = max_from m ms in
    (
      _,
      refl,
      record {
        elected = best;
        best = max_of-IsGreatest (m ∷ ms) best (unfold max_of in refl);
        session = refl;
        nothing_sent = refl;
        to_announce = λ k at. get-update c _ s.campaigns k at;
        seniority_kept = ground arith;
        not_leader = λ e. ground arith;
        own_win = λ n e own. ground arith;
      },
    )
