-- ===== src/Placement/Assigned.antt =====
-- What the loop over the nodes of a cycle assigns: the node of each rank gets the runner of its
-- rank, and the runner the shard of its rank.
use awesome_distributed_ai_i.Base.{
  ℕ, zero, suc, ◌+◌, ◌≤◌, ◌≡◌, ◌≢◌, ◌∙◌, some, List, [], ◌∷◌, In, here, there, get_elem?, inl, inr,
  arith, Result, ok, Result-cases,
}
use awesome_distributed_ai_i.Base.Dict.{Dict, get, set, get-set_self, get-set_ne}
use awesome_distributed_ai_i.Types.{NodeId, RunnerId, ShardMetadata}
use awesome_distributed_ai_i.Topology.Graph.{Distinct}
use awesome_distributed_ai_i.Placement.Shards.{assign_shards}

-- Each rank has a runner of its own.
abbrev pub Fresh : (ℕ → RunnerId) → Type 0
Fresh fresh = (i j : ℕ) → fresh i ≡ fresh j → i ≡ j

pub get_elem?-In : (xs : List ℕ) (i x : ℕ) → get_elem? xs i ≡ some x → In x xs
get_elem?-In [] i x h = cc
get_elem?-In (y ∷ xs) zero x h = let same : y ≡ x = cc in here same
get_elem?-In (y ∷ xs) (suc i) x h = there (get_elem?-In xs i x h)

module _ (fresh : ℕ → RunnerId) (shard_of : ℕ → Result ShardMetadata) where
  -- The node has a runner, and the runner the shard of the rank.
  pub record Assigned (rank node_id : ℕ) (built : Dict ShardMetadata × Dict RunnerId) : Type 0 where
    pub runner : get node_id built.1 ≡ some (fresh rank)
    pub shard : ShardMetadata
    pub shard_of_rank : shard_of rank ≡ ok shard
    pub shard_of_runner : get (fresh rank) built.0 ≡ some shard

  -- A round of the loop that succeeds.
  record Round (rank node_id : ℕ) (node_ids : List NodeId)
      (start built : Dict ShardMetadata × Dict RunnerId) : Type 0 where
    pub shard : ShardMetadata
    pub shard_of_rank : shard_of rank ≡ ok shard
    pub rest :
        assign_shards fresh shard_of
          (rank + 1)
          node_ids
          (set (fresh rank) shard start.0, set node_id (fresh rank) start.1)
        ≡ ok built

  assign_shards-Round :
      (rank node_id : ℕ) (node_ids : List NodeId) (start built : Dict ShardMetadata × Dict RunnerId)
      → assign_shards fresh shard_of rank (node_id ∷ node_ids) start ≡ ok built
      → Round rank node_id node_ids start built
  unfolding assign_shards
  assign_shards-Round rank node_id node_ids (shards, runners) built h =
      elim (Result-cases (shard_of rank)) [
        | inl (shard, e) ↦ record { shard = shard; shard_of_rank = e; rest = rw e at h }
        | inr (x, e) ↦ let no_value = rw e at h in cc
      ]

  -- What stands for another node or an earlier runner stays.
  assign_shards-keeps :
      (rank : ℕ) (node_ids : List NodeId) (start built : Dict ShardMetadata × Dict RunnerId)
      → assign_shards fresh shard_of rank node_ids start ≡ ok built
      → ((node_id : ℕ) → ¬ In node_id node_ids → get node_id built.1 ≡ get node_id start.1)
        × ((runner : ℕ)
            → ((i : ℕ) → rank ≤ i → fresh i ≢ runner)
            → get runner built.0 ≡ get runner start.0)
  unfolding assign_shards
  assign_shards-keeps rank [] start built h =
      let same : start ≡ built = cc in ((λ n other. rw same), (λ r other. rw same))
  assign_shards-keeps rank (n ∷ ns) start built h =
      let r = assign_shards-Round rank n ns start built h in
      let (nodes, runners) =
        assign_shards-keeps (rank + 1) ns
          (set (fresh rank) r.shard start.0, set n (fresh rank) start.1) built r.rest in
      (
        λ m out.
            nodes m (λ i. out (there i))
            ∙ get-set_ne n m (fresh rank) start.1 (λ same. out (here same)),
        λ k other.
            runners k (λ i le. other i (omega arith))
            ∙ get-set_ne (fresh rank) k r.shard start.0 (other rank (omega arith)),
      )

  -- The loop over distinct nodes that returns has assigned every one of them.
  pub assign_shards-Assigned :
      Fresh fresh
      → (rank : ℕ) (node_ids : List NodeId) (start built : Dict ShardMetadata × Dict RunnerId)
      → Distinct node_ids
      → assign_shards fresh shard_of rank node_ids start ≡ ok built
      → (i node_id : ℕ) → get_elem? node_ids i ≡ some node_id
      → Assigned (rank + i) node_id built
  assign_shards-Assigned own rank [] start built distinct h i node_id at = cc
  assign_shards-Assigned own rank (n ∷ ns) start built distinct h zero node_id at =
      let r = assign_shards-Round rank n ns start built h in
      let (nodes, runners) =
        assign_shards-keeps (rank + 1) ns
          (set (fresh rank) r.shard start.0, set n (fresh rank) start.1) built r.rest in
      let same : n ≡ node_id = cc in
      let here_rank : rank + 0 ≡ rank = omega arith in
      rw (here_rank, ← same)
        (record {
          runner = nodes n distinct.0 ∙ get-set_self n (fresh rank) start.1;
          shard = r.shard;
          shard_of_rank = r.shard_of_rank;
          shard_of_runner =
              runners (fresh rank) (λ j le e. let clash = own j rank e in absurd (omega arith))
              ∙ get-set_self (fresh rank) r.shard start.0;
        })
  assign_shards-Assigned own rank (n ∷ ns) start built distinct h (suc i) node_id at =
      let r = assign_shards-Round rank n ns start built h in
      let later : rank + suc i ≡ rank + 1 + i = omega arith in
      rw later (
        assign_shards-Assigned own (rank + 1) ns
          (set (fresh rank) r.shard start.0, set n (fresh rank) start.1) built distinct.1 r.rest i
          node_id at)
