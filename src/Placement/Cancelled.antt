-- ===== src/Placement/Cancelled.antt =====
-- The tasks that the deletion of an instance cancels.
use awesome_distributed_ai_i.Base.{
  ◌≡◌, ◌≢◌, refl, ap, ◌∙◌, inl, inr, true, ◌&&◌, some, List, [], ◌∷◌, ◌==◌, In, here, there,
  In-cons, arith, Bool-cases, Option-cases, ==_iff, ok,
}
use awesome_distributed_ai_i.Base.Dict.{Dict, get, get-set_self, get-set_ne}
use awesome_distributed_ai_i.Types.{InstanceId, TaskId, TaskStatus, Task}
use awesome_distributed_ai_i.Topology.Graph.{PyDiGraph}
use awesome_distributed_ai_i.Apply.{event_apply, event_apply_all}
use awesome_distributed_ai_i.Apply.Data.{State}
use awesome_distributed_ai_i.Apply.Handlers.{apply_task_status_updated, updated_task}
use awesome_distributed_ai_i.Placement.Transition.{cancellations, in_flight}

-- A task in flight of the instance.
abbrev pub Affected : InstanceId → Task → Type 0
Affected x t = (t.instance_id ≡ x) × (in_flight t.task_status ≡ true)

pub record IsCancelledAt (id : TaskId) (tasks : Dict Task) : Type 0 where
  pub task : Task
  pub there_is : get id tasks ≡ some task
  pub is_cancelled : task.task_status ≡ TaskStatus.cancelled

module _ {D : PyDiGraph} where
  abbrev cancel : TaskId → State D → State D
  cancel id s = apply_task_status_updated id TaskStatus.cancelled s

  cancel-instances : (id : TaskId) (s : State D) → (cancel id s).instances ≡ s.instances
  unfolding apply_task_status_updated
  cancel-instances id s = elim (Option-cases (get id s.tasks)) [
    | inl none_there ↦ rw none_there refl
    | inr (t, e) ↦ rw e refl
  ]

  cancel_self :
      (id : TaskId) (t : Task) (s : State D)
      → get id s.tasks ≡ some t
      → IsCancelledAt id (cancel id s).tasks
  unfolding apply_task_status_updated updated_task
  cancel_self id t s e = record {
    task = updated_task TaskStatus.cancelled t;
    there_is = rw e (get-set_self id (updated_task TaskStatus.cancelled t) s.tasks);
    is_cancelled = refl;
  }

  cancel_ne :
      (id other : TaskId) (s : State D)
      → id ≢ other
      → get other (cancel id s).tasks ≡ get other s.tasks
  unfolding apply_task_status_updated
  cancel_ne id other s ne = elim (Option-cases (get id s.tasks)) [
    | inl none_there ↦ rw none_there refl
    | inr (t, e) ↦ rw e (get-set_ne id other (updated_task TaskStatus.cancelled t) s.tasks ne)
  ]

  cancel-still :
      (n id : TaskId) (s : State D) → IsCancelledAt id s.tasks → IsCancelledAt id (cancel n s).tasks
  cancel-still n id s c = elim (Bool-cases (n == id)) [
    | inl e ↦
        let same = (==_iff n id).0 e in rw (← same) (cancel_self n c.task s (rw same c.there_is))
    | inr other ↦ record {
      task = c.task;
      there_is = cancel_ne n id s (λ e. ground arith) ∙ c.there_is;
      is_cancelled = c.is_cancelled;
    }
  ]

  cancel-remains :
      (n id : TaskId) (s : State D) (t : Task)
      → get id s.tasks ≡ some t
      → (t' : Task) × (get id (cancel n s).tasks ≡ some t')
  cancel-remains n id s t h = elim (Bool-cases (n == id)) [
    | inl e ↦
        let same = (==_iff n id).0 e in
        let c = cancel_self n t s (rw same h) in (c.task, rw (← same) c.there_is)
    | inr other ↦ (t, cancel_ne n id s (λ e. ground arith) ∙ h)
  ]

  -- What cancelling the tasks of an instance in the list has done.
  pub record Cancelled (x : InstanceId) (tasks : List Task) (s s' : State D) : Type 0 where
    pub same_instances : s'.instances ≡ s.instances
    pub still : (id : TaskId) → IsCancelledAt id s.tasks → IsCancelledAt id s'.tasks
    pub remains :
        (id : TaskId) (t : Task)
        → get id s.tasks ≡ some t
        → (t' : Task) × (get id s'.tasks ≡ some t')
    pub cancels :
        (t t0 : Task)
        → In t tasks
        → get t.task_id s.tasks ≡ some t0
        → Affected x t
        → IsCancelledAt t.task_id s'.tasks
    pub others :
        (id : TaskId)
        → ((t : Task) → In t tasks → Affected x t → t.task_id ≢ id)
        → get id s'.tasks ≡ get id s.tasks

  pub cancellations-Cancelled :
      (x : InstanceId) (tasks : List Task) (s : State D)
      → (s' : State D) × (event_apply_all (cancellations x tasks) s ≡ ok s')
        × Cancelled x tasks s s'
  unfolding cancellations event_apply_all event_apply
  cancellations-Cancelled x [] s = (
    s,
    refl,
    record {
      same_instances = refl;
      still = λ id c. c;
      remains = λ id t e. (t, e);
      cancels = λ t t0 m. elim m [ ];
      others = λ id h. refl;
    },
  )
  cancellations-Cancelled x (t ∷ ts) s =
      elim (Bool-cases (t.instance_id == x && in_flight t.task_status)) [
        | inl hit ↦
            let (s', e, c) = cancellations-Cancelled x ts (cancel t.task_id s) in
            let aff : Affected x t = (ground arith, ground arith) in
            (
              s',
              rw hit e,
              record {
                same_instances = c.same_instances ∙ cancel-instances t.task_id s;
                still = λ id k. c.still id (cancel-still t.task_id id s k);
                remains = λ id u at.
                    let (u', at') = cancel-remains t.task_id id s u at in c.remains id u' at';
                cancels = λ u u0 m at a. elim (In-cons m) [
                  | inl same ↦
                      let id_same = ap (λ (z : Task). z.task_id) same in
                      rw (← id_same)
                        (c.still t.task_id (cancel_self t.task_id u0 s (rw id_same at)))
                  | inr later ↦
                      let (u1, at1) = cancel-remains t.task_id u.task_id s u0 at in
                      c.cancels u u1 later at1 a
                ];
                others = λ id h.
                    c.others id (λ u m a. h u (there m) a)
                    ∙ cancel_ne t.task_id id s (h t (here refl) aff);
              },
            )
        | inr missed ↦
            let (s', e, c) = cancellations-Cancelled x ts s in
            (
              s',
              rw missed e,
              record {
                same_instances = c.same_instances;
                still = c.still;
                remains = c.remains;
                cancels = λ u u0 m at a. elim (In-cons m) [
                  | inl same ↦
                      let first = ap (λ (z : Task). z.instance_id) same in
                      let second = ap (λ (z : Task). z.task_status) same in
                      let (own, flies) = a in
                      let of_x : t.instance_id ≡ x = cc in
                      let up : in_flight t.task_status ≡ true = rw second flies in
                      absurd (ground arith)
                  | inr later ↦ c.cancels u u0 later at a
                ];
                others = λ id h. c.others id (λ u m a. h u (there m) a);
              },
            )
      ]
