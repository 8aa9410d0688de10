-- ===== src/Plan/Chain/Priority.antt =====
-- The order of the helpers in `plan`.
use awesome_distributed_ai_i.Base.{◌≡◌, inl, inr, none, some, In, ok}
use awesome_distributed_ai_i.Base.Dict.{values}
use awesome_distributed_ai_i.Types.{TaskId}
use awesome_distributed_ai_i.Plan.Supervisor.{RunnerSupervisor}
use awesome_distributed_ai_i.Plan.Lifecycle.Reasons.{KillReason, shutdown_of, kill_runner-exact}
use awesome_distributed_ai_i.Plan.Dispatch.{cancel_tasks}
use awesome_distributed_ai_i.Plan.Chain.{View, plan}

-- While no task is to be cancelled, a runner with a reason to be shut down comes first: whatever
-- else there is to do, the plan is to shut down such a runner.
pub plan-shuts_down :
    (fresh : TaskId) (v : View) (runner : RunnerSupervisor)
    → cancel_tasks fresh v.runners v.tasks ≡ ok none
    → In runner (values v.runners)
    → KillReason v.all_runners v.instances runner
    → (r : RunnerSupervisor) × In r (values v.runners)
      × KillReason v.all_runners v.instances r
      × (plan fresh v ≡ ok (some (shutdown_of fresh r)))
unfolding plan
plan-shuts_down fresh v runner calm m reason =
    elim (kill_runner-exact v.all_runners v.instances fresh v.runners) [
      | inl (quiet, nobody) ↦ absurd (nobody runner m reason)
      | inr (r, i, due, told) ↦ (r, i, due, rw (calm, told))
    ]
