-- ===== src/Master/LeastBusy.antt =====
-- The choice of the least busy instance.
use awesome_distributed_ai_i.Base.{
  ℕ, ◌≤◌, ◌≡◌, refl, sym, ap, ◌∙◌, subst, inl, inr, true, false, not, ◌&&◌, some, List, [], ◌∷◌,
  ltb, ◌==◌, ==_iff, In, here, there, In-cons, elem, arith, Bool-cases, ok,
}
use awesome_distributed_ai_i.Base.Dict.{Dict, get, set, get-set_self, get-set_ne, get-In, In-set}
use awesome_distributed_ai_i.Types.{ModelId, InstanceId, Instance, Task}
use awesome_distributed_ai_i.Master.Prefill.{
  task_count, instance_task_counts, least_count, least_busy,
}

-- An instance of the model that is not excluded.
pub record MayServe (model : ModelId) (excluded : List InstanceId) (instances : List Instance)
    (id : InstanceId) : Type 0 where
  pub instance : Instance
  pub there_is : In instance instances
  pub own_id : instance.instance_id ≡ id
  pub own_model : instance.shard_assignments.model_id ≡ model
  pub allowed : elem id excluded ≡ false

-- Every count is that of an instance that may serve.
counts-MayServe :
    (model : ModelId) (excluded : List InstanceId) (tasks : List Task)
    (every instances : List Instance) (counts : Dict ℕ)
    → ((i : Instance) → In i instances → In i every)
    → ((k v : ℕ) → In (k, v) counts → MayServe model excluded every k × (v ≡ task_count k tasks))
    → (k v : ℕ) → In (k, v) (instance_task_counts model excluded tasks instances counts)
    → MayServe model excluded every k × (v ≡ task_count k tasks)
unfolding instance_task_counts
counts-MayServe model excluded tasks every [] counts inside h k v m = h k v m
counts-MayServe model excluded tasks every (i ∷ instances) counts inside h k v m =
    elim (Bool-cases
      ((i.shard_assignments.model_id == model) && not (elem i.instance_id excluded))) [
        | inr skipped ↦
            counts-MayServe model excluded tasks every instances counts (λ j n. inside j (there n))
              h k v (rw skipped at m)
        | inl counted ↦
            counts-MayServe model excluded tasks every instances
              (set i.instance_id (task_count i.instance_id tasks) counts)
              (λ j n. inside j (there n))
              (λ k' v' n.
                elim (In-set i.instance_id (task_count i.instance_id tasks) counts k' v' n) [
                  | inl (key, value) ↦ (
                    record {
                      instance = i;
                      there_is = inside i (here refl);
                      own_id = key;
                      own_model = ground arith;
                      allowed = subst (λ x. elem x excluded ≡ false) key (ground arith);
                    },
                    sym value ∙ ap (λ x. task_count x tasks) key,
                  )
                  | inr old ↦ h k' v' old
                ])
              k v (rw counted at m)
      ]

-- A count stays, since it is always written with the same value.
counts-stays :
    (model : ModelId) (excluded : List InstanceId) (tasks : List Task) (instances : List Instance)
    (counts : Dict ℕ) (k : ℕ)
    → get k counts ≡ some (task_count k tasks)
    → get k (instance_task_counts model excluded tasks instances counts) ≡ some (task_count k tasks)
unfolding instance_task_counts
counts-stays model excluded tasks [] counts k h = h
counts-stays model excluded tasks (i ∷ instances) counts k h =
    elim (Bool-cases
      ((i.shard_assignments.model_id == model) && not (elem i.instance_id excluded))) [
        | inr skipped ↦
            rw (skipped, instance_task_counts)
              (counts-stays model excluded tasks instances counts k h)
        | inl counted ↦
            rw (counted, instance_task_counts)
              (counts-stays model excluded tasks instances
                (set i.instance_id (task_count i.instance_id tasks) counts) k
                (written i.instance_id k counts h))
      ]
  where
    written :
        (n k : ℕ) (d : Dict ℕ)
        → get k d ≡ some (task_count k tasks)
        → get k (set n (task_count n tasks) d) ≡ some (task_count k tasks)
    written n k d old = elim (Bool-cases (n == k)) [
      | inl same ↦ rw (← (==_iff n k).0 same) (get-set_self n (task_count n tasks) d)
      | inr other ↦ get-set_ne n k (task_count n tasks) d (λ e. ground arith) ∙ old
    ]

-- Every instance that may serve is counted.
counts-all :
    (model : ModelId) (excluded : List InstanceId) (tasks : List Task) (instances : List Instance)
    (counts : Dict ℕ) (k : ℕ)
    → MayServe model excluded instances k
    → get k (instance_task_counts model excluded tasks instances counts) ≡ some (task_count k tasks)
unfolding instance_task_counts
counts-all model excluded tasks [] counts k h = elim h.there_is [ ]
counts-all model excluded tasks (i ∷ instances) counts k h =
    let test = (i.shard_assignments.model_id == model) && not (elem i.instance_id excluded) in
    let counts' = set i.instance_id (task_count i.instance_id tasks) counts in
    elim (In-cons h.there_is) [
      | inl same ↦
          let key : i.instance_id ≡ k = ap (λ (z : Instance). z.instance_id) same ∙ h.own_id in
          let of_model : i.shard_assignments.model_id ≡ model =
            ap (λ (z : Instance). z.shard_assignments.model_id) same ∙ h.own_model in
          let open_to : elem i.instance_id excluded ≡ false =
            subst (λ x. elem x excluded ≡ false) (sym key) h.allowed in
          let counted : test ≡ true = ground arith in
          let stored : get k counts' ≡ some (task_count k tasks) =
            subst (λ n. get k (set n (task_count n tasks) counts) ≡ some (task_count k tasks))
              (sym key) (get-set_self k (task_count k tasks) counts) in
          rw (counted, instance_task_counts)
            (counts-stays model excluded tasks instances counts' k stored)
      | inr later ↦
          let h' : MayServe model excluded instances k = record {
            instance = h.instance;
            there_is = later;
            own_id = h.own_id;
            own_model = h.own_model;
            allowed = h.allowed;
          } in
          elim (Bool-cases test) [
            | inl counted ↦
                rw (counted, instance_task_counts)
                  (counts-all model excluded tasks instances counts' k h')
            | inr skipped ↦
                rw (skipped, instance_task_counts)
                  (counts-all model excluded tasks instances counts k h')
          ]
    ]

-- The least count is the best so far or of the list, and none is less.
least_count-least :
    (best : ℕ × ℕ) (counts : Dict ℕ)
    → (v : ℕ) × In (least_count best counts, v) (best ∷ counts)
      × (v ≤ best.1)
      × ((k w : ℕ) → In (k, w) counts → v ≤ w)
unfolding least_count
least_count-least best [] = (best.1, here refl, omega arith, λ k w m. elim m [ ])
least_count-least best (entry ∷ counts) = elim (Bool-cases (ltb entry.1 best.1)) [
  | inl less ↦
      let (v, m, le, all) = least_count-least entry counts in
      rw (less, least_count)
        (
          v,
          there m,
          ground arith,
          λ k w i. elim (In-cons i) [
            | inl e ↦ let value = ap (λ (p : ℕ × ℕ). p.1) e in omega (arith, le, value)
            | inr later ↦ all k w later
          ],
        )
  | inr more ↦
      let (v, m, le, all) = least_count-least best counts in
      rw (more, least_count)
        (
          v,
          elim (In-cons m) [ inl e ↦ here e | inr later ↦ there (there later) ],
          le,
          λ k w i. elim (In-cons i) [
            | inl e ↦ let value = ap (λ (p : ℕ × ℕ). p.1) e in ground arith
            | inr later ↦ all k w later
          ],
        )
]

-- An instance that may serve, with the fewest tasks in flight of all that may.
pub record IsLeastBusy (model : ModelId) (excluded : List InstanceId) (tasks : List Task)
    (instances : List Instance) (id : InstanceId) : Type 0 where
  pub serves : MayServe model excluded instances id
  pub least :
      (other : InstanceId)
      → MayServe model excluded instances other
      → task_count id tasks ≤ task_count other tasks

pub least_busy-IsLeastBusy :
    (model : ModelId) (excluded : List InstanceId) (tasks : List Task) (instances : List Instance)
    (id : InstanceId)
    → least_busy (instance_task_counts model excluded tasks instances []) ≡ ok id
    → IsLeastBusy model excluded tasks instances id
unfolding least_busy
least_busy-IsLeastBusy model excluded tasks instances id h =
    go (instance_task_counts model excluded tasks instances []) h
      (counts-MayServe model excluded tasks instances instances [] (λ i m. m) (λ k v m. elim m [ ]))
      (counts-all model excluded tasks instances [])
  where
    go :
        (counts : Dict ℕ)
        → least_busy counts ≡ ok id
        → ((k v : ℕ)
            → In (k, v) counts
            → MayServe model excluded instances k × (v ≡ task_count k tasks))
        → ((k : ℕ) → MayServe model excluded instances k → get k counts ≡ some (task_count k tasks))
        → IsLeastBusy model excluded tasks instances id
    go [] found sound complete = cc
    go (entry ∷ rest) found sound complete =
        let (v, m, le, all) = least_count-least entry rest in
        let same : least_count entry rest ≡ id = cc in
        let (serves, count) = sound id v (rw same at m) in
        record {
          serves = serves;
          least = λ other h.
              let stored = get-In other (entry ∷ rest) (complete other h) in
              elim (In-cons stored) [
                | inl e ↦ let value = ap (λ (p : ℕ × ℕ). p.1) e in omega (arith, le, value, count)
                | inr later ↦
                    let bound = all other (task_count other tasks) later in
                    omega (arith, bound, count)
              ];
        }
