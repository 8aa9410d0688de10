-- ===== src/Master/Prefill.antt =====
-- Which instance a task goes to, and where a decoding instance finds its prefill server.
use awesome_distributed_ai_i.Base.{
  ℕ, ◌+◌, true, not, ◌&&◌, Option, none, some, List, [], ◌∷◌, ◌++◌, ltb, leb, ◌==◌, if◌then◌else◌,
  elem, keep, Result, ok, raise, value_error,
}
use awesome_distributed_ai_i.Base.Dict.{Dict, get, set, values}
use awesome_distributed_ai_i.Types.{
  NodeId, ModelId, RunnerId, InstanceId, Instance, InstanceLink, Task, Host,
}
use awesome_distributed_ai_i.Topology.Graph.{PyDiGraph}
use awesome_distributed_ai_i.Apply.Data.{State}
use awesome_distributed_ai_i.Placement.Wiring.{find_ip_prioritised}
use awesome_distributed_ai_i.Placement.Transition.{in_flight}

-- The number of the tasks in flight of the instance.
unfoldable pub task_count : InstanceId → List Task → ℕ
task_count instance_id [] = 0
task_count instance_id (task ∷ tasks) =
    let rest = task_count instance_id tasks in
    if (task.instance_id == instance_id) && in_flight task.task_status then rest + 1 else rest

-- `s.add(x)` for each of the elements; a set is the list of its elements.
abbrev pub add_all : List InstanceId → List InstanceId → List InstanceId
add_all [] set_of = set_of
add_all (x ∷ xs) set_of = add_all xs (if elem x set_of then set_of else set_of ++ x ∷ [])

-- `s.difference_update(xs)`, and `s.discard(x)`
abbrev pub remove_all : List InstanceId → List InstanceId → List InstanceId
remove_all xs set_of = keep (λ x. not (elem x xs)) set_of

-- The instances that prefill for another one, and then those of them that no link decodes on.
unfoldable pub prefill_instances : List InstanceLink → List InstanceId → List InstanceId
prefill_instances [] prefill_only = prefill_only
prefill_instances (link ∷ links) prefill_only =
    prefill_instances links (add_all link.prefill_instances prefill_only)

unfoldable pub without_decode : List InstanceLink → List InstanceId → List InstanceId
without_decode [] prefill_only = prefill_only
without_decode (link ∷ links) prefill_only =
    without_decode links (remove_all link.decode_instances prefill_only)

unfoldable pub prefill_only : List InstanceLink → List InstanceId
unfolding prefill_instances without_decode
prefill_only links = without_decode links (prefill_instances links [])

-- `instance_task_counts`, for the instances of the model that are not excluded.
unfoldable pub instance_task_counts :
    ModelId → (excluded : List InstanceId) → List Task → List Instance → Dict ℕ → Dict ℕ
unfolding task_count
instance_task_counts model excluded tasks [] counts = counts
instance_task_counts model excluded tasks (instance ∷ instances) counts =
    instance_task_counts model excluded tasks instances (
      if (instance.shard_assignments.model_id == model) && not (elem instance.instance_id excluded)
      then set instance.instance_id (task_count instance.instance_id tasks) counts
      else counts)

-- `sorted(counts.keys(), key=...)[0]`: the first key with the least count, given the best so far.
unfoldable pub least_count : ℕ × ℕ → Dict ℕ → InstanceId
least_count best [] = best.0
least_count best (entry ∷ counts) = least_count (if ltb entry.1 best.1 then entry else best) counts

unfoldable pub least_busy : Dict ℕ → Result InstanceId
unfolding least_count
least_busy [] = raise value_error
least_busy (entry ∷ counts) = ok (least_count entry counts)

-- `sorted(sources, key=...)`, which keeps equals in their order.
abbrev insert_by : (ℕ → ℕ) → InstanceId → List InstanceId → List InstanceId
insert_by key x [] = x ∷ []
insert_by key x (y ∷ ys) =
    let rest = insert_by key x ys in if leb (key x) (key y) then x ∷ y ∷ ys else y ∷ rest

abbrev pub sorted_by : (ℕ → ℕ) → List InstanceId → List InstanceId
sorted_by key [] = []
sorted_by key (x ∷ xs) = insert_by key x (sorted_by key xs)

-- The prefill instances of the links that decode on the instance.
unfoldable pub sources_of : InstanceId → List InstanceLink → List InstanceId → List InstanceId
sources_of decode_instance_id [] sources = sources
sources_of decode_instance_id (link ∷ links) sources = sources_of decode_instance_id links (
    if elem decode_instance_id link.decode_instances
    then add_all link.prefill_instances sources
    else sources)

abbrev first_node : Dict RunnerId → Option NodeId
first_node [] = none
first_node ((node_id, runner_id) ∷ node_to_runner) = some node_id

-- The host at an address and a port, if there are both; else the loop goes on.
abbrev host_or : Option ℕ → Option ℕ → Option Host → Option Host
host_or (some port) (some ip) rest = some (record { ip = ip; port = port })
host_or _ _ rest = rest

module _ {D : PyDiGraph} (state : State D) where
  -- The loop over the runners of a source, with what follows it.
  unfoldable pub endpoint_on : (decode_node : NodeId) → Dict RunnerId → Option Host → Option Host
  endpoint_on decode_node [] otherwise = otherwise
  endpoint_on decode_node ((node_id, runner_id) ∷ node_to_runner) otherwise =
      host_or (get runner_id state.prefill_server_ports)
        (find_ip_prioritised D decode_node node_id state.topology state.node_network true)
        (endpoint_on decode_node node_to_runner otherwise)

  abbrev runners_of : Option Instance → Dict RunnerId
  runners_of none = []
  runners_of (some instance) = instance.shard_assignments.node_to_runner

  unfoldable pub first_endpoint : (decode_node : NodeId) → List InstanceId → Option Host
  unfolding endpoint_on
  first_endpoint decode_node [] = none
  first_endpoint decode_node (src_id ∷ sources) =
      endpoint_on decode_node (runners_of (get src_id state.instances))
        (first_endpoint decode_node sources)

  abbrev endpoint_from :
      (set_order : List InstanceId → List InstanceId) → InstanceId → Option NodeId → Option Host
  endpoint_from set_order decode_instance_id none = none
  endpoint_from set_order decode_instance_id (some decode_node) =
      let sources =
        remove_all (decode_instance_id ∷ [])
          (sources_of decode_instance_id (values state.instance_links) []) in
      first_endpoint decode_node
        (sorted_by (λ src_id. task_count src_id (values state.tasks)) (set_order sources))

  -- `_prefill_endpoint_for`; `set_order` is the order in which a set gives its elements.
  unfoldable pub prefill_endpoint_for :
      (set_order : List InstanceId → List InstanceId) → InstanceId → Option Host
  unfolding first_endpoint sources_of task_count
  prefill_endpoint_for set_order decode_instance_id =
      endpoint_from set_order decode_instance_id
        (first_node (runners_of (get decode_instance_id state.instances)))
