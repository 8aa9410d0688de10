-- ===== src/Plan/Dispatch/Reasons.antt =====
-- Which tasks reach a runner.
use Prim.Native.String.{String}
use awesome_distributed_ai_i.Base.{
  ℕ, ◌≡◌, subst, inl, inr, refl, Bool, true, false, none, some, List, [], ◌∷◌, arith, elem, In,
  In-cons, here, there, Exception, first_of_loop, Returns, Outcome-of, goes_on, returns, raises,
  Result, ok, raise, all_of, first_of_loop-Found, first_of_loop-ok, Found-In,
}
use awesome_distributed_ai_i.Base.Dict.{Dict, get, keys, values}
use awesome_distributed_ai_i.Types.{RunnerId, RunnerStatus, Task}
use awesome_distributed_ai_i.Plan.Supervisor.{RunnerSupervisor, instance_of, is_serving, status_is}
use awesome_distributed_ai_i.Plan.Dispatch.{
  is_generation, is_in_flight, input_arrived, serves, dispatch_to, dispatch, pending_tasks,
}

-- What one test of `all` does.
data Verdict (r : Result Bool) : Type 0 where
  holds : r ≡ ok true → Verdict r
  fails : r ≡ ok false → Verdict r
  stops : (e : Exception) → r ≡ raise e → Verdict r

verdict : (r : Result Bool) → Verdict r
verdict (ok true) = holds refl
verdict (ok false) = fails refl
verdict (raise e) = stops e refl

module _ {A : Type 0} (p : A → Result Bool) where
  all_of-In : (xs : List A) {x : A} → all_of p xs ≡ ok true → In x xs → p x ≡ ok true
  all_of-In [] h i = elim i [ ]
  all_of-In (y ∷ xs) h i = elim (verdict (p y)) [
    | holds e ↦ elim (In-cons i) [
      | inl same ↦ rw (← same) e
      | inr later ↦ all_of-In xs (rw (e, all_of) at h) later
    ]
    | fails e ↦ let no_value = rw (e, all_of) at h in cc
    | stops x e ↦ let no_value = rw (e, all_of) at h in cc
  ]

  all_of-ok :
      (xs : List A)
      → ((x : A) → In x xs → (b : Bool) × (p x ≡ ok b))
      → (b : Bool) × (all_of p xs ≡ ok b)
  all_of-ok [] h = (true, refl)
  all_of-ok (x ∷ xs) h = elim (verdict (p x)) [
    | holds e ↦ let (b, rest) = all_of-ok xs (λ y i. h y (there i)) in (b, rw (e, all_of) rest)
    | fails e ↦ (false, rw (e, all_of))
    | stops y e ↦ let (b, good) = h x (here refl) in cc (e, good)
  ]

module _ (all_runners : Dict RunnerStatus) (runners : Dict RunnerSupervisor)
    (input_chunk_buffer : Dict (Dict String)) (image_cache : List ℕ) where
  -- What holds of a task that a runner is given.
  pub record Dispatches (t : Task) (runner : RunnerSupervisor) : Type 0 where
    pub generation : is_generation t.kind ≡ true
    pub in_flight : is_in_flight t.task_status ≡ true
    pub arrived : input_arrived input_chunk_buffer image_cache t.kind ≡ true
    pub ours : t.instance_id ≡ (instance_of runner).instance_id
    pub not_done : elem t.task_id runner.completed ≡ false
    pub not_doing : elem t.task_id runner.in_progress ≡ false
    pub serving : is_serving runner.status ≡ true
    pub group_serves :
        (g : RunnerId)
        → In g (keys (instance_of runner).shard_assignments.runner_to_shard)
        → status_is is_serving (get g all_runners) ≡ true

  to_tests :
      (t t' : Task) (runner : RunnerSupervisor)
      → dispatch_to all_runners t runner ≡ ok (some t')
      → (t ≡ t')
        × (t.instance_id ≡ (instance_of runner).instance_id)
        × (elem t.task_id runner.completed ≡ false)
        × (elem t.task_id runner.in_progress ≡ false)
        × (is_serving runner.status ≡ true)
        × (all_of (serves all_runners) (keys (instance_of runner).shard_assignments.runner_to_shard)
            ≡ ok true)
  unfolding dispatch_to
  to_tests t t' runner h = ground arith

  for_tests :
      (t t' : Task)
      → dispatch all_runners runners input_chunk_buffer image_cache t ≡ ok (some t')
      → (is_generation t.kind ≡ true)
        × (is_in_flight t.task_status ≡ true)
        × (input_arrived input_chunk_buffer image_cache t.kind ≡ true)
        × (first_of_loop (dispatch_to all_runners t) (values runners) ≡ ok (some t'))
  unfolding dispatch
  for_tests t t' h = ground arith

  serves-status :
      (g : RunnerId)
      → serves all_runners g ≡ ok true
      → status_is is_serving (get g all_runners) ≡ true
  serves-status g h = ground arith

  dispatch-Dispatches :
      (t t' : Task)
      → dispatch all_runners runners input_chunk_buffer image_cache t ≡ ok (some t')
      → (t ≡ t') × ((runner : RunnerSupervisor) × In runner (values runners) × Dispatches t runner)
  dispatch-Dispatches t t' h =
      let (generation, in_flight, arrived, loop) = for_tests t t' h in
      let f = first_of_loop-Found (dispatch_to all_runners t) (values runners) t' loop in
      let (same, ours, not_done, not_doing, serving, group) = to_tests t t' f.x f.found in
      (
        same,
        (
          f.x,
          Found-In f,
          record {
            generation = generation;
            in_flight = in_flight;
            arrived = arrived;
            ours = ours;
            not_done = not_done;
            not_doing = not_doing;
            serving = serving;
            group_serves = λ g m. serves-status g (
                all_of-In (serves all_runners)
                  (keys (instance_of f.x).shard_assignments.runner_to_shard) group m);
          },
        ),
      )

  -- A task that a worker hands out is a generation task of the state that is pending or running
  -- and whose input has arrived; one of the worker's runners is of its instance, has it neither
  -- done nor in progress, and serves, as all members of the instance do.
  pub pending_tasks-Dispatches :
      (tasks : Dict Task) (t : Task)
      → pending_tasks all_runners runners tasks input_chunk_buffer image_cache ≡ ok (some t)
      → In t (values tasks)
        × ((runner : RunnerSupervisor) × In runner (values runners) × Dispatches t runner)
  unfolding pending_tasks
  pending_tasks-Dispatches tasks t h =
      let f =
        first_of_loop-Found (dispatch all_runners runners input_chunk_buffer image_cache)
          (values tasks) t h in
      let (same, (runner, m, d)) = dispatch-Dispatches f.x t f.found in
      (
        subst (λ u. In u (values tasks)) same (Found-In f),
        (runner, m, subst (λ u. Dispatches u runner) same d),
      )

  -- Every member of the instances that the worker's runners belong to has a status.
  abbrev pub AllKnown : Type 0
  AllKnown =
      (runner : RunnerSupervisor) (g : RunnerId)
      → In runner (values runners)
      → In g (keys (instance_of runner).shard_assignments.runner_to_shard)
      → (s : RunnerStatus) × (get g all_runners ≡ some s)

  dispatch_to-ok :
      (t : Task) (runner : RunnerSupervisor) (b : Bool)
      → all_of (serves all_runners) (keys (instance_of runner).shard_assignments.runner_to_shard)
        ≡ ok b
      → Returns (dispatch_to all_runners t runner)
  unfolding dispatch_to
  dispatch_to-ok t runner b h = elim (Outcome-of (dispatch_to all_runners t runner)) [
    | goes_on e ↦ (none, e)
    | returns t' e ↦ (some t', e)
    | raises x e ↦ absurd (ground arith)
  ]

  dispatch-ok :
      AllKnown
      → (t : Task) → Returns (dispatch all_runners runners input_chunk_buffer image_cache t)
  unfolding dispatch
  dispatch-ok known t =
      let (o, loop) = first_of_loop-ok (dispatch_to all_runners t) (values runners) λ runner m.
        let (b, e) =
          all_of-ok (serves all_runners)
            (keys (instance_of runner).shard_assignments.runner_to_shard)
            (λ g i. let (s, e) = known runner g m i in (is_serving s, rw e)) in
        dispatch_to-ok t runner b e in
      elim (Outcome-of (dispatch all_runners runners input_chunk_buffer image_cache t)) [
        | goes_on e ↦ (none, e)
        | returns t' e ↦ (some t', e)
        | raises x e ↦ absurd (ground arith)
      ]

  -- If every member of the instances that the worker's runners belong to has a status, no lookup
  -- `all_runners[id]` fails and a task or none is returned.
  pub pending_tasks-Returns :
      (tasks : Dict Task)
      → AllKnown
      → Returns (pending_tasks all_runners runners tasks input_chunk_buffer image_cache)
  unfolding pending_tasks
  pending_tasks-Returns tasks known =
      first_of_loop-ok (dispatch all_runners runners input_chunk_buffer image_cache) (values tasks)
        (λ t m. dispatch-ok known t)
