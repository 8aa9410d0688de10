-- ===== src/Base/Dict.antt =====
-- Python dictionaries with identifiers as keys: association lists in insertion order. Writing a key
-- that is there keeps its place, as `d[k] = v` and `{**d, k: v}` do.
use Prim.Native.Nat.{ℕ, ◌≤◌, ◌<◌}
use mathlib.Core.Path.{◌≡◌, refl, ap, subst₂}
use mathlib.Core.Logic.{◌≢◌, ◌⊎◌, inl, inr}
use mathlib.Core.Bool.{Bool, true, false}
use mathlib.Core.Option.{Option, none, some}
use mathlib.Core.List.{List, [], ◌∷◌, map}
use native.Mathlib.Omega.{arith}
use awesome_distributed_ai_i.Base.Tests.{◌==◌, if◌then◌else◌, Bool-cases, ==_iff}
use awesome_distributed_ai_i.Base.Lists.{In, here, there, In-cons, length}

abbrev pub Dict {ℓ} : Type ℓ → Type ℓ
Dict V = List (ℕ × V)

abbrev is_some {ℓ} : {A : Type ℓ} → Option A → Bool
is_some none = false
is_some (some a) = true

module _ {ℓ} {V : Type ℓ} where
  -- `d.get(k)`
  unfoldable pub get : ℕ → Dict V → Option V
  get k [] = none
  get k ((j, v) ∷ d) = if j == k then some v else get k d

  -- `k in d`
  abbrev pub has : ℕ → Dict V → Bool
  has k d = is_some (get k d)

  -- `d[k] = v`
  unfoldable pub set : ℕ → V → Dict V → Dict V
  set k v [] = (k, v) ∷ []
  set k v ((j, w) ∷ d) = if j == k then (j, v) ∷ d else (j, w) ∷ set k v d

  -- `{j: v for j, v in d.items() if j != k}`, and `d.pop(k, None)`
  unfoldable pub remove : ℕ → Dict V → Dict V
  remove k [] = []
  remove k ((j, v) ∷ d) = let rest = remove k d in if j == k then rest else (j, v) ∷ rest

  abbrev pub keys : Dict V → List ℕ
  keys = map (λ e. e.0)

  abbrev pub values : Dict V → List V
  values = map (λ e. e.1)

  pub get-set :
      (k j : ℕ) (v : V) (d : Dict V) → get j (set k v d) ≡ (if k == j then some v else get j d)
  unfolding get set
  get-set k j v [] = refl
  get-set k j v ((i, w) ∷ d) = ground (arith, get-set k j v d)

  pub get-set_self : (k : ℕ) (v : V) (d : Dict V) → get k (set k v d) ≡ some v
  get-set_self k v d = ground (arith, get-set k k v d)

  pub get-set_ne : (k j : ℕ) (v : V) (d : Dict V) → k ≢ j → get j (set k v d) ≡ get j d
  get-set_ne k j v d h = ground (arith, get-set k j v d)

  pub get-remove : (k j : ℕ) (d : Dict V) → get j (remove k d) ≡ (if k == j then none else get j d)
  unfolding get remove
  get-remove k j [] = ground arith
  get-remove k j ((i, w) ∷ d) = ground (arith, get-remove k j d)

  pub get-remove_self : (k : ℕ) (d : Dict V) → get k (remove k d) ≡ none
  get-remove_self k d = ground (arith, get-remove k k d)

  pub get-remove_ne : (k j : ℕ) (d : Dict V) → k ≢ j → get j (remove k d) ≡ get j d
  get-remove_ne k j d h = ground (arith, get-remove k j d)

  pub get-In : (k : ℕ) (d : Dict V) {v : V} → get k d ≡ some v → In (k, v) d
  unfolding get
  get-In k [] h = cc
  get-In k ((j, w) ∷ d) h = elim (Bool-cases (j == k)) [
    | inl same ↦ here (ground arith)
    | inr other ↦ there (get-In k d (ground arith))
  ]

  -- A property of every entry.
  abbrev pub Entries {κ} : (ℕ → V → Type κ) → Dict V → Type (ℓ ⊔ κ)
  Entries P d = (k : ℕ) (v : V) → get k d ≡ some v → P k v

  pub Entries-set {κ} :
      (P : ℕ → V → Type κ) (k : ℕ) (v : V) (d : Dict V)
      → Entries P d
      → P k v
      → Entries P (set k v d)
  Entries-set P k v d h p j w e = elim (Bool-cases (k == j)) [
    | inl same ↦ subst₂ P ((==_iff k j).0 same) (ground (arith, get-set k j v d)) p
    | inr other ↦ h j w (ground (arith, get-set k j v d))
  ]

  pub Entries-remove {κ} :
      (P : ℕ → V → Type κ) (k : ℕ) (d : Dict V) → Entries P d → Entries P (remove k d)
  Entries-remove P k d h j w e = h j w (ground (arith, get-remove k j d))

module _ {ℓ} {V : Type ℓ} where
  pub length-remove-le : (k : ℕ) (d : Dict V) → length (remove k d) ≤ length d
  unfolding remove
  length-remove-le k [] = omega arith
  length-remove-le k ((j, w) ∷ d) = ground (arith, length-remove-le k d)

  pub length-remove-lt :
      (k : ℕ) (d : Dict V) (v : V) → get k d ≡ some v → length (remove k d) < length d
  unfolding get remove
  length-remove-lt k [] v h = cc
  length-remove-lt k ((j, w) ∷ d) v h = ground (arith, length-remove-lt k d v, length-remove-le k d)

  pub get-of_length : (k : ℕ) (d : Dict V) → length d ≤ 0 → get k d ≡ none
  unfolding get
  get-of_length k [] h = refl
  get-of_length k (e ∷ d) h = absurd (omega arith)

pub In-remove :
    {A : Type 0} (x : ℕ) (d : Dict A) (k : ℕ) (v : A)
    → In (k, v) (remove x d)
    → In (k, v) d × (x ≢ k)
unfolding remove
In-remove x [] k v m = elim m [ ]
In-remove {A = A} x ((j, w) ∷ d) k v m = elim (Bool-cases (j == x)) [
  | inl dropped ↦ let (i, other) = In-remove x d k v (rw dropped at m) in (there i, other)
  | inr stays ↦ elim (In-cons (rw stays at m)) [
    | inl e ↦ let key = ap (λ (p : ℕ × A). p.0) e in (here e, λ same. ground arith)
    | inr later ↦ let (i, other) = In-remove x d k v later in (there i, other)
  ]
]

pub In-set :
    {A : Type 0} (x : ℕ) (w : A) (d : Dict A) (k : ℕ) (v : A)
    → In (k, v) (set x w d)
    → ((x ≡ k) × (w ≡ v)) ⊎ In (k, v) d
unfolding set
In-set {A = A} x w [] k v m = elim (In-cons m) [
  | inl e ↦ inl (ap (λ (p : ℕ × A). p.0) e, ap (λ (p : ℕ × A). p.1) e)
  | inr later ↦ elim later [ ]
]
In-set {A = A} x w ((j, u) ∷ d) k v m = elim (Bool-cases (j == x)) [
  | inl same ↦ elim (In-cons (rw same at m)) [
    | inl e ↦ let key = ap (λ (p : ℕ × A). p.0) e in inl (ground arith, ap (λ (p : ℕ × A). p.1) e)
    | inr later ↦ inr (there later)
  ]
  | inr other ↦ elim (In-cons (rw other at m)) [
    | inl e ↦ inr (here e)
    | inr later ↦ elim (In-set x w d k v later) [ inl it ↦ inl it | inr old ↦ inr (there old) ]
  ]
]
