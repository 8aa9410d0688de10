-- ===== src/Placement/Reached.antt =====
-- The events of a transition, once applied, lead to the instances that were aimed at.
use awesome_distributed_ai_i.Base.{
  ℕ, ◌≡◌, ◌≢◌, refl, sym, ap, ◌∙◌, inl, inr, true, false, some, [], ◌∷◌, In, here, there,
  Bool-cases, Option-cases, ok,
}
use awesome_distributed_ai_i.Base.Dict.{Dict, get, has, values}
use awesome_distributed_ai_i.Types.{Instance, TaskId, Task}
use awesome_distributed_ai_i.Topology.Graph.{PyDiGraph}
use awesome_distributed_ai_i.Apply.{event_apply_all}
use awesome_distributed_ai_i.Apply.Data.{State}
use awesome_distributed_ai_i.Placement.Cancelled.{IsCancelledAt}
use awesome_distributed_ai_i.Placement.Transition.{
  creations, deletions, get_transition_events, in_flight,
}
use awesome_distributed_ai_i.Placement.Applied.{
  IsDict, event_apply_all-append, Created, creations-Created, Deleted, deletions-Deleted,
}

-- instance that is in both is the same in both.
pub record IsAim (current target : Dict Instance) : Type 0 where
  pub own_key :
      (k : ℕ) (i : Instance) → In (k, i) target → (i.instance_id ≡ k) × (get k target ≡ some i)
  pub agree : (k : ℕ) → has k current ≡ true → has k target ≡ true → get k current ≡ get k target

-- What a state becomes when its instances become the target.
pub record Reaches {D : PyDiGraph} (target : Dict Instance) (s s' : State D) : Type 0 where
  pub instances_are : (k : ℕ) → get k s'.instances ≡ get k target
  pub cancels :
      (id : TaskId) (t : Task)
      → In (id, t) s.tasks
      → t.task_id ≡ id
      → has t.instance_id s.instances ≡ true
      → has t.instance_id target ≡ false
      → in_flight t.task_status ≡ true
      → IsCancelledAt id s'.tasks
  pub other_tasks :
      (id : TaskId)
      → ((t : Task)
          → In t (values s.tasks)
          → has t.instance_id target ≡ false
          → in_flight t.task_status ≡ true
          → t.task_id ≢ id)
      → get id s'.tasks ≡ get id s.tasks

values-In : (d : Dict Task) (k : ℕ) (t : Task) → In (k, t) d → In t (values d)
values-In [] k t m = elim m [ ]
values-In ((j, u) ∷ d) k t (here e) = here (ap (λ (p : ℕ × Task). p.1) e)
values-In ((j, u) ∷ d) k t (there m) = there (values-In d k t m)

-- The events of the transition from the instances of a state to others, applied one after another, raise
-- nothing, and afterwards every instance is as aimed at: what is new is there, what was to go is
-- gone, the rest has not changed. The pending and the running tasks of an instance that went are cancelled, and a task
-- is as before unless it is such a task of an instance that is not aimed at. The instances aimed at stand under their own identifiers, once each,
-- and those that the state has already are the same; a key of the state's tasks stands once.
pub transition-Reaches :
    {D : PyDiGraph} (s : State D) (target : Dict Instance)
    → IsAim s.instances target
    → IsDict s.tasks
    → (s' : State D) × (event_apply_all (get_transition_events s.instances target s.tasks) s
        ≡ ok s')
      × Reaches target s s'
unfolding get_transition_events
transition-Reaches s target aim tasks_once =
    let (s1, e1, c) = creations-Created s.instances target target s aim.own_key in
    let (s', e2, d) = deletions-Deleted s.instances target (values s.tasks) s1 in
    (
      s',
      event_apply_all-append (creations s.instances target)
            (deletions s.instances target (values s.tasks)) s s1 e1
          ∙ e2,
      record {
        instances_are = λ k. instances_at s target s1 s' aim c d k;
        cancels = λ id t m own present absent flies.
            let task_at = tasks_once id t m in
            let stored : get t.task_id s1.tasks ≡ some t = rw (own) (cc (c.same_tasks, task_at)) in
            rw (← own) (
              d.cancels t.instance_id t t (values-In s.tasks id t m) stored (refl, flies) absent
                present);
        other_tasks = λ id h.
            d.others id (λ x t m absent a. let (own, flies) = a in h t m (rw own absent) flies)
            ∙ ap (λ (ts : Dict Task). get id ts) c.same_tasks;
      },
    )
  where
    instances_at :
        {D : PyDiGraph} (s : State D) (target : Dict Instance) (s1 s' : State D)
        → IsAim s.instances target
        → Created s.instances target target s s1
        → Deleted s.instances target (values s.tasks) s1 s'
        → (k : ℕ) → get k s'.instances ≡ get k target
    instances_at s target s1 s' aim c d k = elim (Option-cases (get k target)) [
      | inl not_aimed ↦
          let absent : has k target ≡ false = rw not_aimed refl in
          elim (Option-cases (get k s.instances)) [
            | inl new ↦
                let not_old : has k s.instances ≡ false = rw new refl in
                d.absent k absent (c.still k not_old (new ∙ sym not_aimed) ∙ not_aimed)
                ∙ sym not_aimed
            | inr (i, old) ↦
                let present : has k s.instances ≡ true = rw old refl in
                d.gone k absent present ∙ sym not_aimed
          ]
      | inr (i, aimed) ↦
          let present : has k target ≡ true = rw aimed refl in
          d.kept k present ∙ elim (Bool-cases (has k s.instances)) [
            | inl old ↦ c.old k old ∙ aim.agree k old present
            | inr new ↦ c.listed_there k new present
          ]
    ]
