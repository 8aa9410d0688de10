-- ===== src/Plan/Lifecycle/Reasons.antt =====
-- Why a worker shuts a runner down, and why it creates one.
use Prim.Native.String.{String}
use awesome_distributed_ai_i.Base.{
  ◌≡◌, ◌≢◌, ◌⊎◌, inl, inr, refl, Bool, true, false, not, ◌&&◌, Option, none, some, List, arith,
  ◌==◌, Bool-cases, any, any-In, any-false, In, ok, first_of_loop-Found, first_of_loop-none,
  first_of_loop-ok, Outcome-of, goes_on, returns, raises, Found-In,
}
use awesome_distributed_ai_i.Base.Dict.{Dict, get, values}
use awesome_distributed_ai_i.Types.{
  RunnerId, RunnerStatus, runner_failed, Instance, TaskId, TaskKind, Task,
}
use awesome_distributed_ai_i.Plan.Supervisor.{
  RunnerSupervisor, instance_of, status_is, is_failed, new_task,
}
use awesome_distributed_ai_i.Plan.Lifecycle.{kill_reason, kill_for, kill_runner}

-- The runner's status is that it failed.
pub record HasFailed (o : Option RunnerStatus) : Type 0 where
  pub message : Option String
  pub status : o ≡ some (runner_failed message)

pub status_failed : (o : Option RunnerStatus) → status_is is_failed o ≡ true → HasFailed o
status_failed none h = cc
status_failed (some (runner_failed m)) h = record { message = m; status = refl }
status_failed (some _) h = cc

-- The task that shuts the runner down.
abbrev pub shutdown_of : TaskId → RunnerSupervisor → Task
shutdown_of fresh runner =
    new_task fresh (instance_of runner).instance_id
      (TaskKind.shutdown runner.bound_instance.bound_runner_id)

module _ (all_runners : Dict RunnerStatus) (instances : Dict Instance) where
  -- The instance is gone, the runner failed, or another runner of the instance did.
  pub data KillReason (runner : RunnerSupervisor) : Type 0 where
    gone : get (instance_of runner).instance_id instances ≡ none → KillReason runner
    failed : HasFailed (some runner.status) → KillReason runner
    peer_failed :
        (g : RunnerId)
        → In g (values (instance_of runner).shard_assignments.node_to_runner)
        → g ≢ runner.bound_instance.bound_runner_id
        → HasFailed (get g all_runners)
        → KillReason runner

  abbrev peer : RunnerSupervisor → RunnerId → Bool
  peer runner g =
      not (runner.bound_instance.bound_runner_id == g) && status_is is_failed (get g all_runners)

  abbrev peers : RunnerSupervisor → List RunnerId
  peers runner = values (instance_of runner).shard_assignments.node_to_runner

  reason_cases :
      (runner : RunnerSupervisor)
      → kill_reason all_runners instances runner ≡ true
      → (get (instance_of runner).instance_id instances ≡ none)
        ⊎ (is_failed runner.status ≡ true)
        ⊎ (any (peer runner) (peers runner) ≡ true)
  unfolding kill_reason
  reason_cases runner h = ground arith

  kill_reason-KillReason :
      (runner : RunnerSupervisor)
      → kill_reason all_runners instances runner ≡ true
      → KillReason runner
  kill_reason-KillReason runner h = elim (reason_cases runner h) [
    | inl e ↦ gone e
    | inr (inl e) ↦ failed (status_failed (some runner.status) e)
    | inr (inr e) ↦
        let (g, m, good) = any-In (peer runner) (peers runner) e in
        peer_failed g m (λ same. ground arith) (status_failed (get g all_runners) (ground arith))
  ]

  KillReason-kill_reason :
      (runner : RunnerSupervisor)
      → KillReason runner
      → kill_reason all_runners instances runner ≡ true
  unfolding kill_reason
  KillReason-kill_reason runner (gone e) = rw e
  KillReason-kill_reason runner (failed f) = ground (arith, f.status)
  KillReason-kill_reason runner (peer_failed g m other f) =
      elim (Bool-cases (any (peer runner) (peers runner))) [
        | inl found ↦ ground arith
        | inr nobody ↦
            let missed = any-false (peer runner) (peers runner) nobody m in
            absurd (ground (arith, f.status))
      ]

  module _ (fresh : TaskId) (runners : Dict RunnerSupervisor) where
    kill_for-cases :
        (runner : RunnerSupervisor)
        → (kill_reason all_runners instances runner ≡ true)
            × (kill_for fresh runners all_runners instances runner
                ≡ ok (some (shutdown_of fresh runner)))
          ⊎ (kill_reason all_runners instances runner ≡ false)
            × (kill_for fresh runners all_runners instances runner ≡ ok none)
    unfolding kill_for
    kill_for-cases runner = elim (Bool-cases (kill_reason all_runners instances runner)) [
      | inl e ↦ inl (e, rw e)
      | inr e ↦ inr (e, rw e)
    ]

    kill_for-ok :
        (runner : RunnerSupervisor)
        → (o : Option Task) × (kill_for fresh runners all_runners instances runner ≡ ok o)
    kill_for-ok runner = elim (kill_for-cases runner) [
      | inl (_, e) ↦ (some (shutdown_of fresh runner), e)
      | inr (_, e) ↦ (none, e)
    ]

    -- A worker shuts down a runner of its own exactly when one has a reason, and never raises:
    -- there is no task if none has, and otherwise the task is the shutdown of one that has.
    pub kill_runner-exact :
        (kill_runner fresh runners all_runners instances ≡ ok none)
          × ((runner : RunnerSupervisor) → In runner (values runners) → ¬ KillReason runner)
        ⊎ ((runner : RunnerSupervisor) × In runner (values runners)
            × KillReason runner
            × (kill_runner fresh runners all_runners instances
                ≡ ok (some (shutdown_of fresh runner))))
    unfolding kill_runner
    kill_runner-exact = elim (Outcome-of (kill_runner fresh runners all_runners instances)) [
      | goes_on e ↦ inl (
        e,
        λ runner m reason.
            let passed =
              first_of_loop-none (kill_for fresh runners all_runners instances) (values runners) e
                m in
            let due = KillReason-kill_reason runner reason in
            elim (kill_for-cases runner) [ inl (_, told) ↦ cc | inr (calm, _) ↦ cc ],
      )
      | returns t e ↦
          let f =
            first_of_loop-Found (kill_for fresh runners all_runners instances) (values runners) t
              e in
          elim (kill_for-cases f.x) [
            | inl (due, told) ↦
                let stopped = f.found in
                inr (f.x, Found-In f, kill_reason-KillReason f.x due, cc (e, stopped, told))
            | inr (calm, quiet) ↦ let stopped = f.found in cc (stopped, quiet)
          ]
      | raises x e ↦
          let (o, good) =
            first_of_loop-ok (kill_for fresh runners all_runners instances) (values runners)
              (λ r m. kill_for-ok r) in
          cc (e, good)
    ]
