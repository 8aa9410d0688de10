-- ===== src/Apply/Tests.antt =====
-- Events on small states, and the theorems at these inputs.
use awesome_distributed_ai_i.Base.{
  ℕ, ◌+◌, ◌≡◌, ◌↔◌, refl, false, none, some, List, [], ◌∷◌, length, get_elem?, ok, raise,
  assertion_error,
}
use awesome_distributed_ai_i.Base.Int.{pos, sub_ℕ}
use awesome_distributed_ai_i.Base.Dict.{get, set, remove}
use awesome_distributed_ai_i.Types.{
  Connection, InstanceLinkId, InstanceLink, rdma_ctl_status, runner_idle, runner_ready,
  runner_shutdown,
}
use awesome_distributed_ai_i.Topology.Nodes.{Connected}
use awesome_distributed_ai_i.Topology.Sample.{sample, sample-Laws}
use awesome_distributed_ai_i.Topology.Rdma.{TouchesByRdma}
use awesome_distributed_ai_i.Apply.Data.{
  State, IndexedEvent, initial, test_event, runner_status_updated,
}
use awesome_distributed_ai_i.Apply.Handlers.{apply_instance_deleted, apply_runner_status_updated}
use awesome_distributed_ai_i.Apply.Gathered.{apply_node_gathered_info, is_rdma_ctl_enabled}
use awesome_distributed_ai_i.Apply.{event_apply, apply, replay}
use awesome_distributed_ai_i.Apply.Replay.{replay-in_order}
use awesome_distributed_ai_i.Apply.Valid.{IsSound, initial-IsSound, replay-IsSound}
use awesome_distributed_ai_i.Apply.Links.{
  IsUnlinked, apply_instance_deleted-IsUnlinked, rdma_off-connections,
}

program : Unit {0}
unfolding initial event_apply replay apply apply_runner_status_updated get set remove
program = tt

-- A runner gets ready, serves prefills on a port and shuts down.
abbrev life : List IndexedEvent
life =
    record { idx = 0; event = runner_status_updated 10 runner_idle }
    ∷ record { idx = 1; event = runner_status_updated 10 (runner_ready (some 5000)) }
    ∷ record { idx = 2; event = runner_status_updated 10 runner_shutdown }
    ∷ []

abbrev last_state : State sample
last_state = record (initial sample) { last_event_applied_idx = pos 2 }

lives : replay (initial sample) life ≡ ok last_state
unfolding program
lives = refl

-- An index is missing.
gap : apply (initial sample) (record { idx = 1; event = test_event }) ≡ raise assertion_error
unfolding program
gap = refl

starts : (initial sample).last_event_applied_idx ≡ sub_ℕ 0 1
unfolding program
starts = refl

replay-in_order_example :
    (last_state.last_event_applied_idx ≡ sub_ℕ (0 + length life) 1)
    × ((i : ℕ) (event : IndexedEvent) → get_elem? life i ≡ some event → event.idx ≡ 0 + i)
replay-in_order_example = replay-in_order 0 (initial sample) life last_state starts lives

replay-IsSound_example : IsSound sample-Laws last_state
replay-IsSound_example =
    replay-IsSound sample-Laws life (initial sample) last_state (initial-IsSound sample-Laws) lives

-- The first link loses its only decode instance, the second one of two.
abbrev linking : State sample
linking = record (initial sample) {
  instance_links =
      (7, record { link_id = 7; prefill_instances = 1 ∷ []; decode_instances = 2 ∷ [] })
      ∷ (8, record { link_id = 8; prefill_instances = 1 ∷ []; decode_instances = 2 ∷ 3 ∷ [] })
      ∷ [];
}

apply_instance_deleted-IsUnlinked_example :
    (get 2 (apply_instance_deleted 2 linking).instances ≡ none)
    × ((link_id : InstanceLinkId) (link : InstanceLink)
        → get link_id (apply_instance_deleted 2 linking).instance_links ≡ some link
        → IsUnlinked 2 link)
apply_instance_deleted-IsUnlinked_example = apply_instance_deleted-IsUnlinked 2 linking

rdma_off-connections_example :
    (s' : State sample) × (apply_node_gathered_info 4 77 (rdma_ctl_status false) linking ≡ ok s')
    × (is_rdma_ctl_enabled 4 s'.node_rdma_ctl ≡ false)
    × ((c : Connection)
        → Connected sample s'.topology c
          ↔ (Connected sample linking.topology c × ¬ TouchesByRdma sample sample-Laws 4 c))
rdma_off-connections_example =
    rdma_off-connections sample-Laws 4 77 linking (initial-IsSound sample-Laws)
