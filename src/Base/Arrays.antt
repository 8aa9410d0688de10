-- ===== src/Base/Arrays.antt =====
-- Lists of numbers that a program writes by index, and their sums.
use Prim.Native.Nat.{ℕ, zero, suc, ◌+◌, ◌-◌, max, ◌≤◌, ◌<◌}
use mathlib.Core.Path.{◌≡◌, refl}
use mathlib.Core.Logic.{inl, inr}
use mathlib.Core.Option.{none, some}
use mathlib.Core.List.{List, [], ◌∷◌}
use native.Mathlib.Omega.{arith}
use awesome_distributed_ai_i.Base.Tests.{Bool-cases, ◌==◌, ltb, if◌then◌else◌}
use awesome_distributed_ai_i.Base.Lists.{length, get_elem?}

-- `sum(xs)`
abbrev pub sum : List ℕ → ℕ
sum [] = 0
sum (x ∷ xs) = x + sum xs

-- `xs[i] = v`, for an index in range.
abbrev pub set : List ℕ → ℕ → ℕ → List ℕ
set [] i v = []
set (x ∷ xs) zero v = v ∷ xs
set (x ∷ xs) (suc i) v = x ∷ set xs i v

pub length-set : (xs : List ℕ) (i v : ℕ) → length (set xs i v) ≡ length xs
length-set [] i v = refl
length-set (x ∷ xs) zero v = refl
length-set (x ∷ xs) (suc i) v = omega (arith, length-set xs i v)

pub get_elem?-set :
    (xs : List ℕ) (i v w : ℕ)
    → get_elem? xs i ≡ some w
    → (j : ℕ) → get_elem? (set xs i v) j ≡ (if i == j then some v else get_elem? xs j)
get_elem?-set [] i v w h j = cc
get_elem?-set (x ∷ xs) zero v w h zero = refl
get_elem?-set (x ∷ xs) zero v w h (suc j) = ground arith
get_elem?-set (x ∷ xs) (suc i) v w h zero = ground arith
get_elem?-set (x ∷ xs) (suc i) v w h (suc j) = ground (arith, get_elem?-set xs i v w h j)

pub sum-set :
    (xs : List ℕ) (i v w : ℕ) → get_elem? xs i ≡ some w → sum (set xs i v) + w ≡ sum xs + v
sum-set [] i v w h = cc
sum-set (x ∷ xs) zero v w h = let same : x ≡ w = cc in omega arith
sum-set (x ∷ xs) (suc i) v w h = omega (arith, sum-set xs i v w h)

pub get_elem?-lt : (xs : List ℕ) (i : ℕ) → i < length xs → (v : ℕ) × (get_elem? xs i ≡ some v)
get_elem?-lt [] i h = absurd (omega arith)
get_elem?-lt (x ∷ xs) zero h = (x, refl)
get_elem?-lt (x ∷ xs) (suc i) h = get_elem?-lt xs i (omega arith)

pub lt-get_elem? : (xs : List ℕ) (i v : ℕ) → get_elem? xs i ≡ some v → i < length xs
lt-get_elem? [] i v h = cc
lt-get_elem? (x ∷ xs) zero v h = omega arith
lt-get_elem? (x ∷ xs) (suc i) v h = omega (arith, lt-get_elem? xs i v h)

-- Numbers that are one at most sum up to the length at most, and to less if one of them is zero.
pub sum-le-length :
    (xs : List ℕ) → ((j w : ℕ) → get_elem? xs j ≡ some w → w ≤ 1) → sum xs ≤ length xs
sum-le-length [] small = omega arith
sum-le-length (x ∷ xs) small =
    omega (arith, small 0 x refl, sum-le-length xs (λ j w h. small (suc j) w h))

pub sum-lt-length :
    (xs : List ℕ) (i : ℕ)
    → ((j w : ℕ) → get_elem? xs j ≡ some w → w ≤ 1)
    → get_elem? xs i ≡ some 0
    → sum xs < length xs
sum-lt-length [] i small h = cc
sum-lt-length (x ∷ xs) zero small h =
    let same : x ≡ 0 = cc in omega (arith, sum-le-length xs (λ j w h. small (suc j) w h))
sum-lt-length (x ∷ xs) (suc i) small h =
    omega (arith, small 0 x refl, sum-lt-length xs i (λ j w h. small (suc j) w h) h)

-- `max(range(len(xs)), key=lambda j: xs[j])` with its value: the first of the largest, given the
-- best so far and the index of the next entry.
abbrev pub arg_max_from : (best_idx best idx : ℕ) → List ℕ → ℕ × ℕ
arg_max_from best_idx best idx [] = (best_idx, best)
arg_max_from best_idx best idx (x ∷ xs) =
    arg_max_from (if ltb best x then idx else best_idx) (if ltb best x then x else best) (idx + 1)
      xs

abbrev pub arg_max : List ℕ → ℕ × ℕ
arg_max [] = (0, 0)
arg_max (x ∷ xs) = arg_max_from 0 x 1 xs

-- The index and the value are of an entry of the list, which none exceeds.
pub record IsGreatestAt (ys : List ℕ) (m v : ℕ) : Type 0 where
  pub entry : get_elem? ys m ≡ some v
  pub greatest : (j w : ℕ) → get_elem? ys j ≡ some w → w ≤ v

arg_max_from-IsGreatestAt :
    (ys : List ℕ) (best_idx best idx : ℕ) (xs : List ℕ)
    → ((j : ℕ) → get_elem? ys (idx + j) ≡ get_elem? xs j)
    → get_elem? ys best_idx ≡ some best
    → ((j w : ℕ) → j < idx → get_elem? ys j ≡ some w → w ≤ best)
    → IsGreatestAt ys (arg_max_from best_idx best idx xs).0 (arg_max_from best_idx best idx xs).1
arg_max_from-IsGreatestAt ys best_idx best idx [] rest at seen = record {
  entry = at;
  greatest = λ j w h. elim (Bool-cases (ltb j idx)) [
    | inl before ↦ seen j w (ground arith) h
    | inr after ↦
        let place : idx + (j - idx) ≡ j = ground arith in
        let nothing = rest (j - idx) in
        let gone : get_elem? ys j ≡ none = rw (← place) nothing in cc
  ];
}
arg_max_from-IsGreatestAt ys best_idx best idx (x ∷ xs) rest at seen =
    let place : idx + 0 ≡ idx = omega arith in
    let here : get_elem? ys idx ≡ some x = rw place at (rest 0) in
    let later : (j : ℕ) → get_elem? ys (idx + 1 + j) ≡ get_elem? xs j =
      λ j. let next : idx + 1 + j ≡ idx + suc j = omega arith in rw next (rest (suc j)) in
    let best_so_far : (j w : ℕ) → j < idx + 1 → get_elem? ys j ≡ some w → w ≤ max best x =
      λ j w h e. elim (Bool-cases (j == idx)) [
        | inl same ↦
            let at_idx : j ≡ idx = ground arith in
            let both : some w ≡ some x = cc in let value : w ≡ x = cc in omega arith
        | inr other ↦ let old = seen j w (ground arith) e in omega arith
      ] in
    elim (Bool-cases (ltb best x)) [
      | inl more ↦
          rw (more, arg_max_from)
            (arg_max_from-IsGreatestAt ys idx x (idx + 1) xs later here
              (λ j w h e. let bound = best_so_far j w h e in ground arith))
      | inr no_more ↦
          rw (no_more, arg_max_from)
            (arg_max_from-IsGreatestAt ys best_idx best (idx + 1) xs later at
              (λ j w h e. let bound = best_so_far j w h e in ground arith))
    ]

pub arg_max-IsGreatestAt :
    (xs : List ℕ) → 1 ≤ length xs → IsGreatestAt xs (arg_max xs).0 (arg_max xs).1
arg_max-IsGreatestAt [] h = absurd (omega arith)
arg_max-IsGreatestAt (x ∷ xs) h =
    arg_max_from-IsGreatestAt (x ∷ xs) 0 x 1 xs
      (λ j. let one_more : 1 + j ≡ suc j = omega arith in rw one_more refl) refl
      (λ j w below e.
        let first : j ≡ 0 = omega arith in
        let both : some x ≡ some w = rw first at e in let value : x ≡ w = cc in omega arith)
