-- ===== src/Apply/Replay.antt =====
-- The order in which events are applied.
use awesome_distributed_ai_i.Base.{
  ℕ, zero, suc, ap, subst, ◌+◌, ◌≡◌, inl, inr, true, some, List, [], ◌∷◌, arith, length, get_elem?,
  ok, Bool-cases, Result-cases,
}
use awesome_distributed_ai_i.Base.Int.{ℤ, pos, sub_ℕ, eqb_ℤ}
use awesome_distributed_ai_i.Topology.Graph.{PyDiGraph}
use awesome_distributed_ai_i.Apply.Data.{State, IndexedEvent}
use awesome_distributed_ai_i.Apply.{event_apply, apply, replay}

next_index : (n idx : ℕ) (last : ℤ) → last ≡ sub_ℕ n 1 → eqb_ℤ last (sub_ℕ idx 1) ≡ true → idx ≡ n
next_index n idx last e h =
    let same : eqb_ℤ (sub_ℕ n 1) (sub_ℕ idx 1) ≡ true = rw e at h in ground arith

after_index : (n : ℕ) → pos n ≡ sub_ℕ (n + 1) 1
after_index n = ground arith

go_up :
    (n : ℕ) (event : IndexedEvent) (events : List IndexedEvent)
    → event.idx ≡ n
    → ((i : ℕ) (e : IndexedEvent) → get_elem? events i ≡ some e → e.idx ≡ n + 1 + i)
    → (i : ℕ) (e : IndexedEvent) → get_elem? (event ∷ events) i ≡ some e
    → e.idx ≡ n + i
go_up n event events first rest zero e h =
    let same : event ≡ e = cc in let at = ap (λ (x : IndexedEvent). x.idx) same in omega arith
go_up n event events first rest (suc i) e h = let later = rest i e h in omega arith

module _ {D : PyDiGraph} where
  -- What an application that raises nothing did.
  pub apply_cases :
      (state : State D) (event : IndexedEvent) (s' : State D)
      → apply state event ≡ ok s'
      → (eqb_ℤ state.last_event_applied_idx (sub_ℕ event.idx 1) ≡ true)
        × ((new_state : State D) × (event_apply event.event state ≡ ok new_state)
            × (record new_state { last_event_applied_idx = pos event.idx } ≡ s'))
  unfolding apply
  apply_cases state event s' h =
      elim (Bool-cases (eqb_ℤ state.last_event_applied_idx (sub_ℕ event.idx 1))) [
        | inl expected ↦ elim (Result-cases (event_apply event.event state)) [
          | inl (new_state, e) ↦ let done = rw (expected, e) at h in (expected, (new_state, e, cc))
          | inr (x, e) ↦ let raised = rw (expected, e) at h in cc
        ]
        | inr unexpected ↦ let raised = rw unexpected at h in cc
      ]

  -- If n events were applied before and applying some more raises nothing, the indices of these go
  -- up from n without a gap, and as many more events are applied at the end.
  pub replay-in_order :
      (n : ℕ) (state : State D) (events : List IndexedEvent) (s' : State D)
      → state.last_event_applied_idx ≡ sub_ℕ n 1
      → replay state events ≡ ok s'
      → (s'.last_event_applied_idx ≡ sub_ℕ (n + length events) 1)
        × ((i : ℕ) (event : IndexedEvent) → get_elem? events i ≡ some event → event.idx ≡ n + i)
  unfolding replay
  replay-in_order n state [] s' start h =
      let same : state ≡ s' = cc in
      let last = ap (λ (x : State D). x.last_event_applied_idx) same in
      let count : n ≡ n + 0 = omega arith in
      (subst (λ k. s'.last_event_applied_idx ≡ sub_ℕ k 1) count (cc (start, last)), λ i event e. cc)
  replay-in_order n state (event ∷ events) s' start h = elim (Result-cases (apply state event)) [
    | inl (s1, e) ↦
        let (expected, (new_state, f, same)) = apply_cases state event s1 e in
        let at = next_index n event.idx state.last_event_applied_idx start expected in
        let last = ap (λ (x : State D). x.last_event_applied_idx) same in
        let started : s1.last_event_applied_idx ≡ sub_ℕ (n + 1) 1 = cc (last, at, after_index n) in
        let count : n + 1 + length events ≡ n + length (event ∷ events) = omega arith in
        let (stops, indices) = replay-in_order (n + 1) s1 events s' started (rw e at h) in
        (
          subst (λ k. s'.last_event_applied_idx ≡ sub_ℕ k 1) count stops,
          go_up n event events at indices,
        )
    | inr (x, e) ↦ let raised = rw e at h in cc
  ]
