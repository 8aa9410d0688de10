-- ===== src/Placement/Rows.antt =====
-- The address that is chosen between two nodes, and the rows of hosts of a ring.
use awesome_distributed_ai_i.Base.{
  ℕ, ◌+◌, ◌≤◌, ◌≡◌, ◌≢◌, refl, sym, ◌⊎◌, inl, inr, Bool, none, some, List, [], ◌∷◌, ltb, In, here,
  there, In-cons, length, get_elem?, arith, Bool-cases, ok,
}
use awesome_distributed_ai_i.Base.Dict.{Dict, get}
use awesome_distributed_ai_i.Types.{NodeId, NodeNetworkInfo, Host}
use awesome_distributed_ai_i.Topology.Graph.{PyDiGraph}
use awesome_distributed_ai_i.Topology.{Topology}
use awesome_distributed_ai_i.Placement.Wiring.{
  any_ip, placeholder_ip, least_by, best_ip, ip_priority, left_rank, right_rank, find_connection_ip,
  find_ip_prioritised, hosts_row,
}

-- The first of the least: it is the best so far or of the list, and none is better.
least_by-least :
    (key : ℕ → ℕ) (best : ℕ) (ips : List ℕ)
    → ((least_by key best ips ≡ best) ⊎ In (least_by key best ips) ips)
      × (key (least_by key best ips) ≤ key best)
      × ((ip : ℕ) → In ip ips → key (least_by key best ips) ≤ key ip)
unfolding least_by
least_by-least key best [] = (inl refl, omega arith, λ ip m. elim m [ ])
least_by-least key best (x ∷ ips) = elim (Bool-cases (ltb (key x) (key best))) [
  | inl better ↦
      let (from, le, all) = least_by-least key x ips in
      rw (better, least_by)
        (
          elim from [ inl e ↦ inr (here (sym e)) | inr m ↦ inr (there m) ],
          ground arith,
          λ ip m. elim (In-cons m) [ inl e ↦ rw (← e) le | inr later ↦ all ip later ],
        )
  | inr worse ↦
      let (from, le, all) = least_by-least key best ips in
      rw (worse, least_by)
        (
          elim from [ inl e ↦ inl e | inr m ↦ inr (there m) ],
          le,
          λ ip m. elim (In-cons m) [ inl e ↦ rw (← e) (ground arith) | inr later ↦ all ip later ],
        )
]

best_ip-best :
    (key : ℕ → ℕ) (ips : List ℕ)
    → ((best_ip key ips ≡ none) × (ips ≡ []))
      ⊎ ((ip : ℕ) × (best_ip key ips ≡ some ip)
          × In ip ips
          × ((other : ℕ) → In other ips → key ip ≤ key other))
unfolding best_ip
best_ip-best key [] = inl (refl, refl)
best_ip-best key (x ∷ ips) =
    let (from, le, all) = least_by-least key x ips in
    inr (
      least_by key x ips,
      refl,
      elim from [ inl e ↦ here (sym e) | inr m ↦ there m ],
      λ other m. elim (In-cons m) [ inl e ↦ rw (← e) le | inr later ↦ all other later ],
    )

module _ {D : PyDiGraph} (t : Topology D) (node_network : Dict NodeNetworkInfo) where
  -- The address found between two nodes is one of the socket connections between them, and no other of them has a
  -- better priority by its type of interface on the other node; none is found only if there is no such
  -- connection.
  pub find_ip_prioritised-best :
      (node_id other_node_id : NodeId) (ring : Bool)
      → ((find_ip_prioritised D node_id other_node_id t node_network ring ≡ none)
          × (find_connection_ip D node_id other_node_id t ≡ []))
        ⊎ ((ip : ℕ) × (find_ip_prioritised D node_id other_node_id t node_network ring ≡ some ip)
            × In ip (find_connection_ip D node_id other_node_id t)
            × ((other : ℕ)
                → In other (find_connection_ip D node_id other_node_id t)
                → ip_priority ring (get other_node_id node_network) ip
                  ≤ ip_priority ring (get other_node_id node_network) other))
  unfolding find_ip_prioritised
  find_ip_prioritised-best node_id other_node_id ring =
      best_ip-best (ip_priority ring (get other_node_id node_network))
        (find_connection_ip D node_id other_node_id t)

  -- The entry for the node with the rank `idx` in the row of the node with the rank `rank`.
  pub record IsHost (world_size port rank : ℕ) (node_id : NodeId) (idx : ℕ) (other : NodeId)
      (host : Host) : Type 0 where
    pub own : idx ≡ rank → (host.ip ≡ any_ip) × (host.port ≡ port)
    pub neighbour :
        idx ≢ rank
        → (idx ≡ left_rank rank world_size) ⊎ (idx ≡ right_rank rank world_size)
        → In host.ip (find_connection_ip D node_id other t) × (host.port ≡ port)
    pub far :
        idx ≢ rank
        → idx ≢ left_rank rank world_size
        → idx ≢ right_rank rank world_size
        → (host.ip ≡ placeholder_ip) × (host.port ≡ 0)

  -- The entries of a row, from the index `idx` on.
  record IsRow (world_size port rank : ℕ) (node_id : NodeId) (idx : ℕ) (others : List NodeId)
      (row : List Host) : Type 0 where
    pub size : length row ≡ length others
    pub entry :
        (i other : ℕ)
        → get_elem? others i ≡ some other
        → (host : Host) × (get_elem? row i ≡ some host)
          × IsHost world_size port rank node_id (idx + i) other host

  -- Each node of the list has its row.
  record HasRow (cycle : List NodeId) (port rank node_id : ℕ) (built : Dict (List Host))
      : Type 0 where
    pub row : List Host
    pub stored : get node_id built ≡ some row
    pub made : hosts_row D (length cycle) port rank node_id 0 cycle t node_network ≡ ok row
