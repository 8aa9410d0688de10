-- ===== src/Base/Loops.antt =====
-- The loop that returns from its first iteration with a result: where it stopped, and what it
-- passed over.
use mathlib.Core.Path.{◌≡◌, refl}
use mathlib.Core.Logic.{inl, inr}
use mathlib.Core.Option.{Option, none, some}
use mathlib.Core.List.{List, [], ◌∷◌, ◌++◌}
use awesome_distributed_ai_i.Base.Lists.{All, In, here, there, In-cons}
use awesome_distributed_ai_i.Base.Results.{Result, ok, raise, Exception, first_of_loop}

-- What an iteration does: it goes on, it returns, or it raises.
pub data Outcome {ℓ} {B : Type ℓ} (r : Result (Option B)) : Type ℓ where
  goes_on : r ≡ ok none → Outcome r
  returns : (b : B) → r ≡ ok (some b) → Outcome r
  raises : (e : Exception) → r ≡ raise e → Outcome r

pub Outcome-of {ℓ} : {B : Type ℓ} (r : Result (Option B)) → Outcome r
Outcome-of (ok none) = goes_on refl
Outcome-of (ok (some b)) = returns b refl
Outcome-of (raise e) = raises e refl

-- The loop over `xs` returned `b` from the iteration of `x`, and went on in all before.
pub record Found {ℓ κ} {A : Type ℓ} {B : Type κ} (f : A → Result (Option B)) (xs : List A) (b : B)
    : Type (ℓ ⊔ κ) where
  pub before : List A
  pub x : A
  pub after : List A
  pub split : xs ≡ before ++ x ∷ after
  pub passed : All (λ y. f y ≡ ok none) before
  pub found : f x ≡ ok (some b)

module _ {ℓ κ} {A : Type ℓ} {B : Type κ} (f : A → Result (Option B)) where
  pub first_of_loop-Found : (xs : List A) (b : B) → first_of_loop f xs ≡ ok (some b) → Found f xs b
  first_of_loop-Found [] b h = cc
  first_of_loop-Found (x ∷ xs) b h = elim (Outcome-of (f x)) [
    | goes_on e ↦
        let r = first_of_loop-Found xs b (rw (e, first_of_loop) at h) in
        record {
          before = x ∷ r.before;
          x = r.x;
          after = r.after;
          split = cc (r.split);
          passed = (e, r.passed);
          found = r.found;
        }
    | returns b' e ↦
        let same = rw (e, first_of_loop) at h in
        record { before = []; x = x; after = xs; split = refl; passed = tt; found = cc }
    | raises e' e ↦ let no_value = rw (e, first_of_loop) at h in cc
  ]

  pub first_of_loop-none :
      (xs : List A) {x : A} → first_of_loop f xs ≡ ok none → In x xs → f x ≡ ok none
  first_of_loop-none [] h i = elim i [ ]
  first_of_loop-none (y ∷ xs) h i = elim (Outcome-of (f y)) [
    | goes_on e ↦ elim (In-cons i) [
      | inl same ↦ rw (← same) e
      | inr later ↦ first_of_loop-none xs (rw (e, first_of_loop) at h) later
    ]
    | returns b' e ↦ let same = rw (e, first_of_loop) at h in cc
    | raises e' e ↦ let no_value = rw (e, first_of_loop) at h in cc
  ]

  -- A loop whose iterations do not raise does not raise.
  pub first_of_loop-ok :
      (xs : List A)
      → ((x : A) → In x xs → (o : Option B) × (f x ≡ ok o))
      → (o : Option B) × (first_of_loop f xs ≡ ok o)
  first_of_loop-ok [] h = (none, refl)
  first_of_loop-ok (x ∷ xs) h = elim (Outcome-of (f x)) [
    | goes_on e ↦
        let (o, rest) = first_of_loop-ok xs (λ y i. h y (there i)) in
        (o, rw (e, first_of_loop) rest)
    | returns b e ↦ (some b, rw (e, first_of_loop))
    | raises e' e ↦ let (o, good) = h x (here refl) in cc (e, good)
  ]

In-split {ℓ} : {A : Type ℓ} (before : List A) (x : A) (after : List A) → In x (before ++ x ∷ after)
In-split [] x after = here refl
In-split (y ∷ before) x after = there (In-split before x after)

pub Found-In {ℓ κ} :
    {A : Type ℓ} {B : Type κ} {f : A → Result (Option B)} {xs : List A} {b : B} (r : Found f xs b)
    → In r.x xs
Found-In r = rw r.split (In-split r.before r.x r.after)
