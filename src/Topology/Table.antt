-- ===== src/Topology/Table.antt =====
-- Tables of entries below a length, for the concrete graph.
use awesome_distributed_ai_i.Base.{
  ℕ, ◌+◌, ◌<◌, ◌≡◌, zero, suc, ◌↔◌, inl, inr, refl, sym, subst, Bool, true, false, Option, none,
  some, List, [], ◌∷◌, In, here, there, In-cons, keep, In-keep, keep-In, ltb, if◌then◌else◌, ◌==◌,
  Bool-cases, Option-cases, arith,
}
use awesome_distributed_ai_i.Topology.Graph.{Distinct}

-- The numbers below n, the largest first.
abbrev pub below : ℕ → List ℕ
below zero = []
below (suc n) = n ∷ below n

below_iff : (n i : ℕ) → In i (below n) ↔ (i < n)
below_iff zero i = (λ m. elim m [ ], λ h. absurd (omega arith))
below_iff (suc n) i = (
  λ m. elim (In-cons m) [
    | inl e ↦ ground arith
    | inr later ↦ let h = (below_iff n i).0 later in omega arith
  ],
  λ h. elim (Bool-cases (n == i)) [
    | inl same ↦ here (ground arith)
    | inr other ↦ there ((below_iff n i).1 (ground arith))
  ],
)

pub below-Distinct : (n : ℕ) → Distinct (below n)
below-Distinct zero = tt
below-Distinct (suc n) =
    (λ m. let h = (below_iff n n).0 m in absurd (omega arith), below-Distinct n)

pub keep-Distinct : (p : ℕ → Bool) (xs : List ℕ) → Distinct xs → Distinct (keep p xs)
keep-Distinct p [] d = tt
keep-Distinct p (x ∷ xs) (fresh, d) = elim (Bool-cases (p x)) [
  | inl kept ↦ rw kept (λ m. fresh (In-keep p xs m).0, keep-Distinct p xs d)
  | inr dropped ↦ rw dropped (keep-Distinct p xs d)
]

-- A table with entries below its length.
pub record Table (V : Type 0) : Type 0 where
  pub length : ℕ
  pub entry : ℕ → Option V

module _ {V : Type 0} where
  abbrev pub at : ℕ → Table V → Option V
  at i t = if ltb i t.length then t.entry i else none

  abbrev pub push : V → Table V → Table V
  push v t = record { length = t.length + 1; entry = λ i. if t.length == i then some v else at i t }

  abbrev pub holds : (V → Bool) → Option V → Bool
  holds p none = false
  holds p (some v) = p v

  abbrev pub filter : (V → Bool) → Option V → Option V
  filter p none = none
  filter p (some v) = if p v then some v else none

  abbrev pub indices_where : (V → Bool) → Table V → List ℕ
  indices_where p t = keep (λ i. holds p (at i t)) (below t.length)

  pub at-push :
      (v : V) (t : Table V) (i : ℕ) → at i (push v t) ≡ (if t.length == i then some v else at i t)
  at-push v t i = ground arith

  pub at_length : (t : Table V) → at t.length t ≡ none
  at_length t = ground arith

  holds-some :
      (p : V → Bool) (o : Option V) → holds p o ≡ true → (v : V) × (o ≡ some v) × (p v ≡ true)
  holds-some p none h = cc
  holds-some p (some v) h = (v, refl, h)

  pub indices_iff :
      (p : V → Bool) (t : Table V) (i : ℕ)
      → In i (indices_where p t) ↔ ((v : V) × (at i t ≡ some v) × (p v ≡ true))
  indices_iff p t i = (
    λ m. holds-some p (at i t) (In-keep (λ j. holds p (at j t)) (below t.length) m).1,
    λ h.
        let (v, e, good) = h in
        let inside : i < t.length = ground arith in
        keep-In (λ j. holds p (at j t)) (below t.length) ((below_iff t.length i).1 inside)
          (subst (λ o. holds p o ≡ true) (sym e) good),
  )

  abbrev pub add : Option V → List V → List V
  add none vs = vs
  add (some v) vs = v ∷ vs

  -- The entries at the indices.
  abbrev pub collect : Table V → List ℕ → List V
  collect t [] = []
  collect t (i ∷ is) = add (at i t) (collect t is)

  collect_iff :
      (t : Table V) (is : List ℕ) (v : V)
      → In v (collect t is) ↔ ((i : ℕ) × In i is × (at i t ≡ some v))
  collect_iff t [] v = (λ m. elim m [ ], λ h. elim h.1 [ ])
  collect_iff t (i ∷ is) v = elim (Option-cases (at i t)) [
    | inl e ↦ rw e (
      λ m. let (j, k, f) = (collect_iff t is v).0 m in (j, there k, f),
      λ h.
          let (j, k, f) = h in
          elim (In-cons k) [
            | inl same ↦ cc (e, same, f)
            | inr later ↦ (collect_iff t is v).1 (j, later, f)
          ],
    )
    | inr (w, e) ↦ rw e (
      λ m. elim (In-cons m) [
        | inl same ↦ (i, here refl, cc (e, same))
        | inr later ↦ let (j, k, f) = (collect_iff t is v).0 later in (j, there k, f)
      ],
      λ h.
          let (j, k, f) = h in
          elim (In-cons k) [
            | inl same ↦ let one : some w ≡ some v = cc (e, same, f) in here cc
            | inr later ↦ there ((collect_iff t is v).1 (j, later, f))
          ],
    )
  ]

  abbrev pub entries_where : (V → Bool) → Table V → List V
  entries_where p t = collect t (indices_where p t)

  pub entries_iff :
      (p : V → Bool) (t : Table V) (v : V)
      → In v (entries_where p t) ↔ ((i : ℕ) × (at i t ≡ some v) × (p v ≡ true))
  entries_iff p t v = (
    λ m.
        let (i, k, e) = (collect_iff t (indices_where p t) v).0 m in
        let (w, f, good) = (indices_iff p t i).0 k in
        let one : some w ≡ some v = cc (e, f) in
        let same : w ≡ v = cc in (i, e, subst (λ x. p x ≡ true) same good),
    λ h.
        let (i, e, good) = h in
        (collect_iff t (indices_where p t) v).1 (i, (indices_iff p t i).1 (v, e, good), e),
  )
