-- ===== src/Apply/Links.antt =====
-- Deleting an instance, and switching RDMA off on a node.
use awesome_distributed_ai_i.Base.{
  ℕ, subst, ◌≡◌, ◌≢◌, ◌↔◌, inl, inr, false, not, ◌||◌, none, some, List, [], ◌∷◌, In, In-keep, keep,
  ◌==◌, arith, ok, Bool-cases, Option-cases,
}
use awesome_distributed_ai_i.Base.Dict.{
  Dict, get, set, Entries, Entries-set, get-set_self, get-remove_self,
}
use awesome_distributed_ai_i.Types.{
  NodeId, InstanceId, InstanceLinkId, InstanceLink, Connection, rdma_ctl_status,
}
use awesome_distributed_ai_i.Topology.Graph.{PyDiGraph, Laws}
use awesome_distributed_ai_i.Topology.{add_node}
use awesome_distributed_ai_i.Topology.Nodes.{Connected, IsValid, add_node-Adds}
use awesome_distributed_ai_i.Topology.Rdma.{TouchesByRdma, remove_all_rdma-exact}
use awesome_distributed_ai_i.Apply.Data.{State}
use awesome_distributed_ai_i.Apply.Handlers.{is_empty, unlink, unlink_all, apply_instance_deleted}
use awesome_distributed_ai_i.Apply.Gathered.{
  is_rdma_ctl_enabled, apply_info, apply_node_gathered_info,
}

-- Neither side of the link names the instance, and neither is empty.
pub record IsUnlinked (instance_id : InstanceId) (link : InstanceLink) : Type 0 where
  pub not_prefill : ¬ In instance_id link.prefill_instances
  pub not_decode : ¬ In instance_id link.decode_instances
  pub some_prefill : link.prefill_instances ≢ []
  pub some_decode : link.decode_instances ≢ []

without :
    (instance_id : InstanceId) (xs : List InstanceId)
    → ¬ In instance_id (keep (λ i. not (i == instance_id)) xs)
without instance_id xs m =
    let gone = (In-keep (λ i. not (i == instance_id)) xs m).1 in absurd (ground arith)

not_empty : (xs : List InstanceId) → is_empty xs ≡ false → xs ≢ []
not_empty [] h = cc
not_empty (x ∷ xs) h = λ e. cc

unlink-IsUnlinked :
    (instance_id : InstanceId) (link l : InstanceLink)
    → unlink instance_id link ≡ some l
    → IsUnlinked instance_id l
unfolding unlink
unlink-IsUnlinked instance_id link l h =
    let prefill = keep (λ i. not (i == instance_id)) link.prefill_instances in
    let decode = keep (λ i. not (i == instance_id)) link.decode_instances in
    elim (Bool-cases (is_empty prefill || is_empty decode)) [
      | inl empty ↦ let nothing = rw empty at h in cc
      | inr full ↦
          let both : some (record link { prefill_instances = prefill; decode_instances = decode })
              ≡ some l =
            rw full at h in
          let same : record link { prefill_instances = prefill; decode_instances = decode } ≡ l =
            cc in
          subst (IsUnlinked instance_id) same record {
            not_prefill = without instance_id link.prefill_instances;
            not_decode = without instance_id link.decode_instances;
            some_prefill = not_empty prefill (ground arith);
            some_decode = not_empty decode (ground arith);
          }
    ]

nothing_there : {A : Type 0} (k : ℕ) {l : InstanceLink} → get k [] ≡ some l → A
unfolding get
nothing_there k h = cc

unlink_all-IsUnlinked :
    (instance_id : InstanceId) (links new_links : Dict InstanceLink)
    → Entries (λ k l. IsUnlinked instance_id l) new_links
    → Entries (λ k l. IsUnlinked instance_id l) (unlink_all instance_id links new_links)
unfolding unlink_all
unlink_all-IsUnlinked instance_id [] new_links h = h
unlink_all-IsUnlinked instance_id ((k, link) ∷ links) new_links h =
    elim (Option-cases (unlink instance_id link)) [
      | inl e ↦ rw e (unlink_all-IsUnlinked instance_id links new_links h)
      | inr (l, e) ↦ rw e (
          unlink_all-IsUnlinked instance_id links (set k l new_links) (
            Entries-set (λ k l. IsUnlinked instance_id l) k l new_links h
              (unlink-IsUnlinked instance_id link l e)))
    ]

module _ {D : PyDiGraph} where
  -- After an instance is deleted it is not among the instances, and no link that is left names it
  -- or has an empty side.
  pub apply_instance_deleted-IsUnlinked :
      (instance_id : InstanceId) (state : State D)
      → (get instance_id (apply_instance_deleted instance_id state).instances ≡ none)
        × ((link_id : InstanceLinkId) (link : InstanceLink)
            → get link_id (apply_instance_deleted instance_id state).instance_links ≡ some link
            → IsUnlinked instance_id link)
  unfolding apply_instance_deleted
  apply_instance_deleted-IsUnlinked instance_id state = (
    get-remove_self instance_id state.instances,
    unlink_all-IsUnlinked instance_id state.instance_links [] (λ k l e. nothing_there k e),
  )

  -- When a node reports to a state with a well-formed topology that RDMA is off, no exception is
  -- raised, the node counts as not enabled, and exactly the RDMA connections that touch it are
  -- gone.
  pub rdma_off-connections :
      (laws : Laws D) (node_id : NodeId) (when : ℕ) (state : State D)
      → IsValid D state.topology
      → (s' : State D) × (apply_node_gathered_info node_id when (rdma_ctl_status false) state
          ≡ ok s')
        × (is_rdma_ctl_enabled node_id s'.node_rdma_ctl ≡ false)
        × ((c : Connection)
            → Connected D s'.topology c
              ↔ (Connected D state.topology c × ¬ TouchesByRdma D laws node_id c))
  unfolding apply_node_gathered_info apply_info is_rdma_ctl_enabled
  rdma_off-connections laws node_id when state valid =
      let added = add_node-Adds D laws node_id state.topology valid in
      let (t, e, _, law) =
        remove_all_rdma-exact D laws node_id (add_node D node_id state.topology) added.valid in
      (
        record state {
          last_seen = set node_id when state.last_seen;
          node_rdma_ctl = set node_id (record { enabled = false }) state.node_rdma_ctl;
          topology = t;
        },
        rw e,
        rw (get-set_self node_id (record { enabled = false }) state.node_rdma_ctl),
        λ c. (
          λ h. let (old, rest) = (law c).0 h in ((added.same_connections c).0 old, rest),
          λ h. (law c).1 ((added.same_connections c).1 h.0, h.1),
        ),
      )
