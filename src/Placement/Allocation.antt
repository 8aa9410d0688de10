-- ===== src/Placement/Allocation.antt =====
-- The division of the layers: it gives out all of them, and at least one to each node.
use awesome_distributed_ai_i.Base.{
  ℕ, zero, suc, ◌+◌, ◌-◌, ◌≤◌, ◌<◌, ◌≡◌, refl, ◌⊎◌, inl, inr, true, false, some, List, [], ◌∷◌, map,
  In, here, there, In-cons, ltb, ◌==◌, length, get_elem?, arith, Bool-cases, ok,
}
use awesome_distributed_ai_i.Base.Arrays
use awesome_distributed_ai_i.Base.Arrays.{
  sum, arg_max, length-set, get_elem?-set, sum-set, get_elem?-lt, lt-get_elem?, sum-lt-length,
  arg_max-IsGreatestAt,
}
use awesome_distributed_ai_i.Placement.Floats.{Floats}
use awesome_distributed_ai_i.Placement.Layers.{
  range_from, remainder_at, hand_out, take_from_largest, ensure_one, insert_index, sort_indices,
  scaled, allocate_layers_proportionally,
}

-- Every entry before the index is at least one.
abbrev pub Positive : ℕ → List ℕ → Type 0
Positive i xs = (j v : ℕ) → j < i → get_elem? xs j ≡ some v → 1 ≤ v

-- The list has the length and the sum of the other.
pub record Redistributes (xs ys : List ℕ) (more : ℕ) : Type 0 where
  pub same_length : length ys ≡ length xs
  pub same_sum : sum ys ≡ sum xs + more

hand_out-Redistributes :
    (k : ℕ) (order xs : List ℕ)
    → k ≤ length order
    → ((j : ℕ) → In j order → j < length xs)
    → (ys : List ℕ) × (hand_out k order xs ≡ ok ys) × Redistributes xs ys k
unfolding hand_out
hand_out-Redistributes zero order xs h inside =
    (xs, refl, record { same_length = refl; same_sum = omega arith })
hand_out-Redistributes (suc k) [] xs h inside = absurd (omega arith)
hand_out-Redistributes (suc k) (j ∷ order) xs h inside =
    let (v, at) = get_elem?-lt xs j (inside j (here refl)) in
    let xs' = Arrays.set xs j (v + 1) in
    let (ys, e, rest) =
      hand_out-Redistributes k order xs' (omega arith)
        (λ i m. rw (length-set xs j (v + 1)) (inside i (there m))) in
    (
      ys,
      rw at e,
      record {
        same_length = omega (arith, rest.same_length, length-set xs j (v + 1));
        same_sum = omega (arith, rest.same_sum, sum-set xs j (v + 1) v at);
      },
    )

-- One round: entry i gets a layer if it has none, and the largest, which has two, gives it.
take_from_largest-Redistributes :
    (i : ℕ) (xs : List ℕ)
    → i < length xs
    → length xs ≤ sum xs
    → Positive i xs
    → (ys : List ℕ) × (take_from_largest i xs ≡ ok ys) × Redistributes xs ys 0 × Positive (suc i) ys
unfolding take_from_largest
take_from_largest-Redistributes i xs inside enough before =
    let (v, at) = get_elem?-lt xs i inside in
    elim (Bool-cases (v == 0)) [
      | inr some_layer ↦ (
        xs,
        rw (at, some_layer),
        record { same_length = refl; same_sum = omega arith },
        λ j w h e. elim (Bool-cases (j == i)) [
          | inl same ↦
              let at_i : j ≡ i = ground arith in
              let both : some w ≡ some v = cc in let value : w ≡ v = cc in ground arith
          | inr other ↦ before j w (ground arith) e
        ],
      )
      | inl empty ↦
          let m = (arg_max xs).0 in
          let top = (arg_max xs).1 in
          let g = arg_max-IsGreatestAt xs (omega arith) in
          let at_zero : get_elem? xs i ≡ some 0 = let same : v ≡ 0 = ground arith in cc in
          let two : ltb 1 top ≡ true = elim (Bool-cases (ltb 1 top)) [
            | inl big ↦ big
            | inr small ↦
                let short =
                  sum-lt-length xs i (λ j w h. let bound = g.greatest j w h in ground arith)
                    at_zero in
                absurd (omega arith)
          ] in
          let apart : m == i ≡ false = elim (Bool-cases (m == i)) [
            | inl same ↦
                let at_m : m ≡ i = ground arith in
                let both : some top ≡ some 0 = cc (g.entry, at_m, at_zero) in
                let value : top ≡ 0 = cc in ground arith
            | inr other ↦ other
          ] in
          let xs1 = Arrays.set xs m (top - 1) in
          let entry1 : get_elem? xs1 i ≡ some 0 =
            rw (get_elem?-set xs m (top - 1) top g.entry i, apart) at_zero in
          (
            Arrays.set xs1 i 1,
            rw (at, empty, two),
            record {
              same_length = omega (arith, length-set xs1 i 1, length-set xs m (top - 1));
              same_sum =
                  let bound : 1 < top = ground arith in
                  omega (arith, sum-set xs1 i 1 0 entry1, sum-set xs m (top - 1) top g.entry);
            },
            λ j w h e. ground (
              arith,
              get_elem?-set xs1 i 1 0 entry1 j,
              get_elem?-set xs m (top - 1) top g.entry j,
              before j w,
            ),
          )
    ]

ensure_one-Redistributes :
    (n i : ℕ) (xs : List ℕ)
    → length xs ≡ i + n
    → length xs ≤ sum xs
    → Positive i xs
    → (ys : List ℕ) × (ensure_one n i xs ≡ ok ys) × Redistributes xs ys 0 × Positive (i + n) ys
unfolding ensure_one
ensure_one-Redistributes zero i xs size enough before = (
  xs,
  refl,
  record { same_length = refl; same_sum = omega arith },
  λ j w h e. before j w (omega arith) e,
)
ensure_one-Redistributes (suc n) i xs size enough before =
    let (xs', e, once, before') =
      take_from_largest-Redistributes i xs (omega arith) enough before in
    let next : i + 1 ≡ suc i = omega arith in
    let (ys, f, rest, all) =
      ensure_one-Redistributes n (i + 1) xs' (omega (arith, once.same_length))
        (omega (arith, once.same_length, once.same_sum)) (rw next before') in
    (
      ys,
      rw (e, f),
      record {
        same_length = omega (arith, once.same_length, rest.same_length);
        same_sum = omega (arith, once.same_sum, rest.same_sum);
      },
      λ j w h k. all j w (omega arith) k,
    )

module _ (F : Floats) where
  insert-In :
      (key : ℕ → F.Float) (i : ℕ) (js : List ℕ) {x : ℕ}
      → In x (insert_index F key i js)
      → (i ≡ x) ⊎ In x js
  unfolding insert_index
  insert-In key i [] m = In-cons m
  insert-In key i (j ∷ js) m = elim (Bool-cases (F.lt (key i) (key j))) [
    | inl less ↦ elim (In-cons (rw less at m)) [
      | inl same ↦ inr (here same)
      | inr later ↦ elim (insert-In key i js later) [
        | inl same ↦ inl same
        | inr old ↦ inr (there old)
      ]
    ]
    | inr no_less ↦ In-cons (rw no_less at m)
  ]

  sort-In : (key : ℕ → F.Float) (is : List ℕ) {x : ℕ} → In x (sort_indices F key is) → In x is
  unfolding sort_indices
  sort-In key [] m = m
  sort-In key (i ∷ is) m = elim (insert-In key i (sort_indices F key is) m) [
    | inl same ↦ here same
    | inr later ↦ there (sort-In key is later)
  ]

  length-insert :
      (key : ℕ → F.Float) (i : ℕ) (js : List ℕ) → length (insert_index F key i js) ≡ length js + 1
  unfolding insert_index
  length-insert key i [] = refl
  length-insert key i (j ∷ js) = ground (arith, length-insert key i js)

  length-sort : (key : ℕ → F.Float) (is : List ℕ) → length (sort_indices F key is) ≡ length is
  unfolding sort_indices
  length-sort key [] = refl
  length-sort key (i ∷ is) =
      omega (arith, length-insert key i (sort_indices F key is), length-sort key is)

  range_from-lt : (i n : ℕ) {x : ℕ} → In x (range_from i n) → x < i + n
  range_from-lt i zero m = elim m [ ]
  range_from-lt i (suc n) (here e) = omega arith
  range_from-lt i (suc n) (there m) = omega (arith, range_from-lt (i + 1) n m)

  length-range_from : (i n : ℕ) → length (range_from i n) ≡ n
  length-range_from i zero = refl
  length-range_from i (suc n) = omega (arith, length-range_from (i + 1) n)

  -- The whole parts of the shares, as the floats give them.
  abbrev pub whole_parts : (total_layers : ℕ) → List F.Float → List ℕ
  whole_parts total_layers fractions = map F.int (scaled F total_layers fractions)

  length-whole_parts :
      (total : ℕ) (fractions : List F.Float)
      → length (whole_parts total fractions) ≡ length fractions
  length-whole_parts total [] = refl
  length-whole_parts total (f ∷ fs) = omega (arith, length-whole_parts total fs)

  -- If there are as many layers as nodes at least, and rounding makes the whole parts of the shares
  -- neither more than the layers nor short of them by more than one a node, then the division
  -- raises nothing, gives every node at least one layer, and gives out each layer once.
  pub allocate_divides :
      (total : ℕ) (fractions : List F.Float)
      → 1 ≤ length fractions
      → length fractions ≤ total
      → sum (whole_parts total fractions) ≤ total
      → total ≤ sum (whole_parts total fractions) + length fractions
      → (result : List ℕ) × (allocate_layers_proportionally F total fractions ≡ ok result)
        × (length result ≡ length fractions)
        × (sum result ≡ total)
        × ((j v : ℕ) → get_elem? result j ≡ some v → 1 ≤ v)
  unfolding allocate_layers_proportionally
  allocate_divides total fractions some_node room over under =
      let n = length fractions in
      let wholes = whole_parts total fractions in
      let key = remainder_at F (scaled F total fractions) in
      let order = sort_indices F key (range_from 0 n) in
      let size = length-whole_parts total fractions in
      let (xs, e, handed) =
        hand_out-Redistributes (total - sum wholes) order wholes
          (omega (arith, length-sort key (range_from 0 n), length-range_from 0 n))
          (λ j m. let below = range_from-lt 0 n (sort-In key (range_from 0 n) m) in omega arith) in
      let (ys, f, kept, all) =
        ensure_one-Redistributes n 0 xs (omega (arith, handed.same_length))
          (omega (arith, handed.same_length, handed.same_sum)) (λ j v h k. absurd (omega arith)) in
      let not_empty : n == 0 ≡ false = ground arith in
      let enough : ltb total n ≡ false = ground arith in
      (
        ys,
        rw (not_empty, enough, e) f,
        omega (arith, handed.same_length, kept.same_length),
        omega (arith, handed.same_sum, kept.same_sum),
        λ j v h.
            all j v
              (let bound = lt-get_elem? ys j v h in
                omega (arith, handed.same_length, kept.same_length))
              h,
      )
