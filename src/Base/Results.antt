-- ===== src/Base/Results.antt =====
-- Code that may raise: a value or the exception, with the loops over a list that return early.
use mathlib.Core.Path.{◌≡◌, refl}
use mathlib.Core.Logic.{◌⊎◌, inl, inr}
use mathlib.Core.Bool.{Bool, true, false}
use mathlib.Core.Option.{Option, none, some}
use mathlib.Core.List.{List, [], ◌∷◌}

-- The exceptions that the modelled code lets out.
pub data Exception : Type 0 where
  key_error index_error assertion_error value_error overflow_error no_edge_error truncated_error :
      Exception

-- What a call gives back, or the exception that it lets out.
pub data Result {ℓ} (V : Type ℓ) : Type ℓ where
  raise : Exception → Result V
  ok : V → Result V

module _ {ℓ κ} {V : Type ℓ} {W : Type κ} where
  infixl 5 ◌>>=◌
  -- The next statement runs unless an exception was raised.
  abbrev pub ◌>>=◌ : Result V → (V → Result W) → Result W
  raise exception >>= next = raise exception
  ok value >>= next = next value

infixl 5 ◌>>◌
abbrev pub ◌>>◌ {κ} : {W : Type κ} → Result (Unit {0}) → Result W → Result W
statement >> next = statement >>= (λ done. next)

-- `assert b`.
abbrev pub assert : Bool → Result (Unit {0})
assert true = ok tt
assert false = raise assertion_error

-- A lookup `d[k]` or an attribute that must be there.
abbrev pub require {ℓ} : {A : Type ℓ} → Exception → Option A → Result A
require e none = raise e
require e (some a) = ok a

pub Result-cases {ℓ} :
    {A : Type ℓ} (r : Result A) → ((a : A) × (r ≡ ok a)) ⊎ ((e : Exception) × (r ≡ raise e))
Result-cases (ok a) = inl (a, refl)
Result-cases (raise e) = inr (e, refl)

-- `all(p(x) for x in xs)` where `p` may raise: it stops at the first false or at the exception.
abbrev pub all_of {ℓ} : {A : Type ℓ} → (A → Result Bool) → List A → Result Bool
all_of p [] = ok true
all_of p (x ∷ xs) =
    let rest = all_of p xs in
    elim (p x) [ ok true ↦ rest | ok false ↦ ok false | raise e ↦ raise e ]

module _ {ℓ κ} {A : Type ℓ} {B : Type κ} where
  -- `for x in xs: ... return y`, where an iteration that does not return continues with the next.
  abbrev pub first_of_loop : (A → Result (Option B)) → List A → Result (Option B)
  first_of_loop f [] = ok none
  first_of_loop f (x ∷ xs) =
      let rest = first_of_loop f xs in
      elim (f x) [ ok none ↦ rest | ok (some b) ↦ ok (some b) | raise e ↦ raise e ]

-- The code returns: it does not raise.
abbrev pub Returns {ℓ} : {A : Type ℓ} → Result A → Type ℓ
Returns {A = A} r = (a : A) × (r ≡ ok a)
