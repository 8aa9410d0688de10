-- ===== src/Base/Lists.antt =====
-- Lists: lengths over the native numbers, Python's `all`, `any` and comprehensions with a test.
use Prim.Native.Nat.{ℕ, zero, suc, ◌+◌}
use mathlib.Core.Path.{◌≡◌, refl}
use mathlib.Core.Logic.{◌↔◌, ◌⊎◌, inl, inr}
use mathlib.Core.Bool.{Bool, true, false, ◌&&◌, ◌||◌}
use mathlib.Core.Option.{Option, none, some}
use mathlib.Core.List.{List, [], ◌∷◌, ◌++◌}
use native.Mathlib.Omega.{arith}
use awesome_distributed_ai_i.Base.Tests.{◌==◌, if◌then◌else◌, &&-eq-true, Bool-cases}

module _ {ℓ} {A : Type ℓ} where
  abbrev pub length : List A → ℕ
  length [] = 0
  length (x ∷ xs) = suc (length xs)

  abbrev pub get_elem? : List A → ℕ → Option A
  get_elem? [] i = none
  get_elem? (x ∷ xs) zero = some x
  get_elem? (x ∷ xs) (suc i) = get_elem? xs i

  -- `xs[:n]` and `xs[n:]`
  abbrev pub take : ℕ → List A → List A
  take zero xs = []
  take (suc n) [] = []
  take (suc n) (x ∷ xs) = x ∷ take n xs

  abbrev pub drop : ℕ → List A → List A
  drop zero xs = xs
  drop (suc n) [] = []
  drop (suc n) (x ∷ xs) = drop n xs

  -- `all(p(x) for x in xs)` and `any(p(x) for x in xs)`, where `p` cannot raise.
  abbrev pub all : (A → Bool) → List A → Bool
  all p [] = true
  all p (x ∷ xs) = p x && all p xs

  abbrev pub any : (A → Bool) → List A → Bool
  any p [] = false
  any p (x ∷ xs) = p x || any p xs

  -- `[x for x in xs if p(x)]`.
  abbrev pub keep : (A → Bool) → List A → List A
  keep p [] = []
  keep p (x ∷ xs) = let rest = keep p xs in if p x then x ∷ rest else rest

  abbrev pub All {κ} : (A → Type κ) → List A → Type κ
  All P [] = Unit
  All P (x ∷ xs) = P x × All P xs

  -- `x` stands in the list, at the place that the derivation names.
  pub data In (x : A) : List A → Type ℓ where
    here : {y : A} {xs : List A} → y ≡ x → In x (y ∷ xs)
    there : {y : A} {xs : List A} → In x xs → In x (y ∷ xs)

  pub In-cons : {x y : A} {xs : List A} → In x (y ∷ xs) → (y ≡ x) ⊎ In x xs
  In-cons (here e) = inl e
  In-cons (there i) = inr i

  pub In-append : (xs ys : List A) {x : A} → In x (xs ++ ys) ↔ (In x xs ⊎ In x ys)
  In-append [] ys = (λ i. inr i, λ h. elim h [ inl i ↦ elim i [ ] | inr i ↦ i ])
  In-append (y ∷ xs) ys = (
    λ i. elim (In-cons i) [
      | inl e ↦ inl (here e)
      | inr later ↦ elim ((In-append xs ys).0 later) [
        | inl left ↦ inl (there left)
        | inr right ↦ inr right
      ]
    ],
    λ h. elim h [
      | inl (here e) ↦ here e
      | inl (there left) ↦ there ((In-append xs ys).1 (inl left))
      | inr right ↦ there ((In-append xs ys).1 (inr right))
    ],
  )

  pub length-append : (xs ys : List A) → length (xs ++ ys) ≡ length xs + length ys
  length-append [] ys = omega arith
  length-append (x ∷ xs) ys = omega (arith, length-append xs ys)

  pub all-In : (p : A → Bool) (xs : List A) {x : A} → all p xs ≡ true → In x xs → p x ≡ true
  all-In p [] h i = elim i [ ]
  all-In p (y ∷ xs) h (here e) = cc (&&-eq-true (p y) (all p xs) h).0
  all-In p (y ∷ xs) h (there i) = all-In p xs (&&-eq-true (p y) (all p xs) h).1 i

  pub In-all : (p : A → Bool) (xs : List A) → ((x : A) → In x xs → p x ≡ true) → all p xs ≡ true
  In-all p [] h = refl
  In-all p (y ∷ xs) h =
      let first : p y ≡ true = h y (here refl) in
      let rest : all p xs ≡ true = In-all p xs (λ x i. h x (there i)) in ground arith

  pub any-In : (p : A → Bool) (xs : List A) → any p xs ≡ true → (x : A) × In x xs × (p x ≡ true)
  any-In p [] h = cc
  any-In p (x ∷ xs) h = elim (Bool-cases (p x)) [
    | inl e ↦ (x, here refl, e)
    | inr e ↦ let (y, i, q) = any-In p xs (ground arith) in (y, there i, q)
  ]

  pub any-false : (p : A → Bool) (xs : List A) {x : A} → any p xs ≡ false → In x xs → p x ≡ false
  any-false p [] h i = elim i [ ]
  any-false p (y ∷ xs) h (here e) = let first : p y ≡ false = ground arith in cc
  any-false p (y ∷ xs) h (there i) = any-false p xs (ground arith) i

  pub keep-All : (p : A → Bool) (xs : List A) → All (λ x. p x ≡ true) (keep p xs)
  keep-All p [] = tt
  keep-All p (x ∷ xs) = ground (arith, keep-All p xs)

  pub In-keep : (p : A → Bool) (xs : List A) {x : A} → In x (keep p xs) → In x xs × (p x ≡ true)
  In-keep p [] i = elim i [ ]
  In-keep p (y ∷ xs) i = elim (Bool-cases (p y)) [
    | inl kept ↦ elim (In-cons (rw kept at i)) [
      | inl e ↦ (here e, cc)
      | inr later ↦ let (there_in, holds) = In-keep p xs later in (there there_in, holds)
    ]
    | inr dropped ↦
        let (there_in, holds) = In-keep p xs (rw dropped at i) in (there there_in, holds)
  ]

  pub keep-In : (p : A → Bool) (xs : List A) {x : A} → In x xs → p x ≡ true → In x (keep p xs)
  keep-In p [] i h = elim i [ ]
  keep-In p (y ∷ xs) (here e) h = let kept : p y ≡ true = cc in rw kept (here e)
  keep-In p (y ∷ xs) (there i) h = elim (Bool-cases (p y)) [
    | inl kept ↦ rw kept (there (keep-In p xs i h))
    | inr dropped ↦ rw dropped (keep-In p xs i h)
  ]

-- `x in xs`, for identifiers.
abbrev pub elem : ℕ → List ℕ → Bool
elem x [] = false
elem x (y ∷ ys) = y == x || elem x ys
