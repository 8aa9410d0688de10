-- ===== src/Plan/Startup/Progress.antt =====
-- A group that is starting up is never stuck.
use awesome_distributed_ai_i.Base.{◌≡◌, Bool, not, ◌&&◌, ◌==◌}
use awesome_distributed_ai_i.Base.Dict.{Dict, get}
use awesome_distributed_ai_i.Types.{RunnerId, RunnerStatus, runner_idle, Instance}
use awesome_distributed_ai_i.Plan.Supervisor.{RunnerSupervisor, instance_of, status_is, is_idle}

module _ (all_runners : Dict RunnerStatus) where
  -- `g` is idle and not `last`.
  abbrev early : RunnerId → RunnerId → Bool
  early last g = not (g == last) && status_is is_idle (get g all_runners)

  -- A supervisor for the member of the instance, with the status that the node's runners have in the state.
  pub record Runs (i : Instance) (g : RunnerId) (runner : RunnerSupervisor) : Type 0 where
    pub of_instance : instance_of runner ≡ i
    pub of_member : runner.bound_instance.bound_runner_id ≡ g
    pub idle : runner.status ≡ runner_idle
