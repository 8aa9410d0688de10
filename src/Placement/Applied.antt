-- ===== src/Placement/Applied.antt =====
-- What applying the creations and the deletions of a transition does to the state.
use awesome_distributed_ai_i.Base.{
  ℕ, ◌≡◌, ◌≢◌, refl, sym, ap, ◌∙◌, inl, inr, true, false, none, some, List, [], ◌∷◌, ◌++◌, ◌==◌,
  if◌then◌else◌, In, here, there, arith, Bool-cases, Result-cases, ==_iff, ok,
}
use awesome_distributed_ai_i.Base.Dict.{Dict, get, has, set, get-set_self, get-set_ne, get-remove}
use awesome_distributed_ai_i.Types.{InstanceId, Instance, TaskId, Task}
use awesome_distributed_ai_i.Topology.Graph.{PyDiGraph}
use awesome_distributed_ai_i.Apply.{event_apply, event_apply_all}
use awesome_distributed_ai_i.Apply.Data.{State, Event, instance_deleted}
use awesome_distributed_ai_i.Apply.Handlers.{apply_instance_created, apply_instance_deleted}
use awesome_distributed_ai_i.Placement.Cancelled.{Affected, IsCancelledAt, cancellations-Cancelled}
use awesome_distributed_ai_i.Placement.Transition.{creations, cancellations, deletions}

-- No key stands twice with different values.
abbrev pub IsDict {ℓ} : {V : Type ℓ} → Dict V → Type ℓ
IsDict {V = V} d = (k : ℕ) (v : V) → In (k, v) d → get k d ≡ some v

-- Writing what the target has.
set-target_self :
    (n j : ℕ) (i : Instance) (d target : Dict Instance)
    → n ≡ j
    → get j target ≡ some i
    → get j (set n i d) ≡ get j target
set-target_self n j i d target key at = rw (key, at) (get-set_self j i d)

set-target_ne :
    (n j k : ℕ) (i : Instance) (d : Dict Instance) → n ≡ j → j ≢ k → get k (set n i d) ≡ get k d
set-target_ne n j k i d key other = rw key (get-set_ne j k i d other)

set-target :
    (n j k : ℕ) (i : Instance) (d target : Dict Instance)
    → n ≡ j
    → get j target ≡ some i
    → get k d ≡ get k target
    → get k (set n i d) ≡ get k target
set-target n j k i d target key at same = elim (Bool-cases (j == k)) [
  | inl e ↦ rw (← (==_iff j k).0 e) (set-target_self n j i d target key at)
  | inr other ↦ set-target_ne n j k i d key (λ e. ground arith) ∙ same
]

not_first :
    (j k : ℕ) (i : Instance) (listed target : Dict Instance)
    → has j target ≡ true
    → has k target ≡ false
    → has k ((j, i) ∷ listed) ≡ true
    → has k listed ≡ true
unfolding get
not_first j k i listed target stays goes m = elim (Bool-cases (j == k)) [
  | inl same ↦
      let e = (==_iff j k).0 same in
      let clash : has j target ≡ false = rw e goes in let no_value : true ≡ false = cc in cc
  | inr other ↦ ground arith
]

apart : (j k : ℕ) (d : Dict Instance) → has j d ≡ false → has k d ≡ true → j ≢ k
apart j k d absent present e =
    let clash : has k d ≡ false = rw (← e) absent in let no_value : true ≡ false = cc in cc

module _ {D : PyDiGraph} where
  pub event_apply_all-append :
      (xs ys : List Event) (s s1 : State D)
      → event_apply_all xs s ≡ ok s1
      → event_apply_all (xs ++ ys) s ≡ event_apply_all ys s1
  unfolding event_apply_all
  event_apply_all-append [] ys s s1 h = let same : s ≡ s1 = cc in rw same refl
  event_apply_all-append (x ∷ xs) ys s s1 h = elim (Result-cases (event_apply x s)) [
    | inl (s', e) ↦ rw e (event_apply_all-append xs ys s' s1 (rw e at h))
    | inr (x', e) ↦ let raised = rw e at h in cc
  ]

  -- What the events that create the targets of the list have done.
  pub record Created (current target listed : Dict Instance) (s s' : State D) : Type 0 where
    pub same_tasks : s'.tasks ≡ s.tasks
    pub old : (k : ℕ) → has k current ≡ true → get k s'.instances ≡ get k s.instances
    pub still :
        (k : ℕ)
        → has k current ≡ false
        → get k s.instances ≡ get k target
        → get k s'.instances ≡ get k target
    pub listed_there :
        (k : ℕ) → has k current ≡ false → has k listed ≡ true → get k s'.instances ≡ get k target

  pub creations-Created :
      (current target listed : Dict Instance) (s : State D)
      → ((k : ℕ) (i : Instance) → In (k, i) listed → (i.instance_id ≡ k) × (get k target ≡ some i))
      → (s' : State D) × (event_apply_all (creations current listed) s ≡ ok s')
        × Created current target listed s s'
  unfolding creations event_apply_all event_apply apply_instance_created get
  creations-Created current target [] s of_target = (
    s,
    refl,
    record { same_tasks = refl; old = λ k h. refl; still = λ k h e. e; listed_there = λ k h e. cc },
  )
  creations-Created current target ((j, i) ∷ listed) s of_target =
      let (key, at) = of_target j i (here refl) in
      elim (Bool-cases (has j current)) [
        | inl old ↦
            let (s', e, c) =
              creations-Created current target listed s (λ k v m. of_target k v (there m)) in
            (
              s',
              rw old e,
              record {
                same_tasks = c.same_tasks;
                old = c.old;
                still = c.still;
                listed_there = λ k h m. elim (Bool-cases (j == k)) [
                  | inl e ↦ absurd (apart k j current h old (sym ((==_iff j k).0 e)))
                  | inr other ↦ c.listed_there k h (ground arith)
                ];
              },
            )
        | inr fresh ↦
            let (s', e, c) =
              creations-Created current target listed (apply_instance_created i s)
                (λ k v m. of_target k v (there m)) in
            (
              s',
              rw fresh e,
              record {
                same_tasks = c.same_tasks;
                old = λ k h.
                    c.old k h
                    ∙ set-target_ne i.instance_id j k i s.instances key (apart j k current fresh h);
                still = λ k h e.
                    c.still k h (set-target i.instance_id j k i s.instances target key at e);
                listed_there = λ k h m. elim (Bool-cases (j == k)) [
                  | inl e ↦ c.still k h (
                      rw (← (==_iff j k).0 e)
                        (set-target_self i.instance_id j i s.instances target key at))
                  | inr other ↦ c.listed_there k h (ground arith)
                ];
              },
            )
      ]

  -- What the events that delete the listed instances have done.
  pub record Deleted (listed target : Dict Instance) (tasks : List Task) (s s' : State D)
      : Type 0 where
    pub kept : (k : ℕ) → has k target ≡ true → get k s'.instances ≡ get k s.instances
    pub absent :
        (k : ℕ) → has k target ≡ false → get k s.instances ≡ none → get k s'.instances ≡ none
    pub gone : (k : ℕ) → has k target ≡ false → has k listed ≡ true → get k s'.instances ≡ none
    pub still : (id : TaskId) → IsCancelledAt id s.tasks → IsCancelledAt id s'.tasks
    pub cancels :
        (x : InstanceId) (t t0 : Task)
        → In t tasks
        → get t.task_id s.tasks ≡ some t0
        → Affected x t
        → has x target ≡ false
        → has x listed ≡ true
        → IsCancelledAt t.task_id s'.tasks
    pub others :
        (id : TaskId)
        → ((x : InstanceId) (t : Task)
            → In t tasks
            → has x target ≡ false
            → Affected x t
            → t.task_id ≢ id)
        → get id s'.tasks ≡ get id s.tasks

  pub deletions-Deleted :
      (listed target : Dict Instance) (tasks : List Task) (s : State D)
      → (s' : State D) × (event_apply_all (deletions listed target tasks) s ≡ ok s')
        × Deleted listed target tasks s s'
  unfolding deletions event_apply_all event_apply apply_instance_deleted get
  deletions-Deleted [] target tasks s = (
    s,
    refl,
    record {
      kept = λ k h. refl;
      absent = λ k h e. e;
      gone = λ k h m. cc;
      still = λ id c. c;
      cancels = λ x t t0 m at a absent m'. cc;
      others = λ id h. refl;
    },
  )
  deletions-Deleted ((j, i) ∷ listed) target tasks s = elim (Bool-cases (has j target)) [
    | inl stays ↦
        let (s', e, d) = deletions-Deleted listed target tasks s in
        (
          s',
          rw stays e,
          record {
            kept = d.kept;
            absent = d.absent;
            gone = λ k h m. d.gone k h (not_first j k i listed target stays h m);
            still = d.still;
            cancels = λ x t t0 m at a h m'.
                d.cancels x t t0 m at a h (not_first j x i listed target stays h m');
            others = d.others;
          },
        )
    | inr goes ↦
        let (s1, e1, c) = cancellations-Cancelled j tasks s in
        let s2 = apply_instance_deleted j s1 in
        let (s', e, d) = deletions-Deleted listed target tasks s2 in
        let removed : (k : ℕ) → get k s2.instances ≡ (if j == k then none else get k s.instances) =
          λ k.
            get-remove j k s1.instances
            ∙ ap (λ (d : Dict Instance). if j == k then none else get k d) c.same_instances in
        (
          s',
          rw
              (
                goes,
                event_apply_all-append (cancellations j tasks)
                    (instance_deleted j ∷ deletions listed target tasks) s s1 e1,
              )
              e,
          record {
            kept = λ k h. d.kept k h ∙ ground (arith, removed k, apart j k target goes h);
            absent = λ k h e. d.absent k h (ground (arith, removed k));
            gone = λ k h m. elim (Bool-cases (j == k)) [
              | inl same ↦ d.absent k h (ground (arith, removed k))
              | inr other ↦ d.gone k h (ground arith)
            ];
            still = λ id k. d.still id (c.still id k);
            cancels = λ x t t0 m at a h m'. elim (Bool-cases (j == x)) [
              | inl same ↦
                  let (own, flies) = a in
                  let of_j : t.instance_id ≡ j = ground arith in
                  d.still t.task_id (c.cancels t t0 m at (of_j, flies))
              | inr other ↦
                  let (t1, at1) = c.remains t.task_id t0 at in
                  d.cancels x t t1 m at1 a h (ground arith)
            ];
            others = λ id h. d.others id h ∙ c.others id (λ t m a. h j t m goes a);
          },
        )
  ]

-- The instances of a state and those to aim at: keys are the instances' own identifiers, no key stands twice, and an
