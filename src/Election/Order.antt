-- ===== src/Election/Order.antt =====
-- The order of election messages, and what Python's `max` picks by it.
use awesome_distributed_ai_i.Base.{
  ◌≡◌, refl, true, false, List, [], ◌∷◌, arith, if◌then◌else◌, inl, inr, Bool-cases, In, here,
  there, In-cons, ok,
}
use awesome_distributed_ai_i.Election.{ElectionMessage, lt, max_from, max_of}

-- `a` is not before `b`.
abbrev pub AtLeast : ElectionMessage → ElectionMessage → Type 0
AtLeast a b = lt a b ≡ false

lt_irrefl : (a : ElectionMessage) → AtLeast a a
unfolding lt
lt_irrefl a = ground arith

lt_asym : (a b : ElectionMessage) → lt a b ≡ true → AtLeast b a
unfolding lt
lt_asym a b h = ground arith

AtLeast-trans : (a b c : ElectionMessage) → AtLeast a b → AtLeast b c → AtLeast a c
unfolding lt
AtLeast-trans a b c h k = ground arith

-- The four things that are compared.
pub record SameRank (a b : ElectionMessage) : Type 0 where
  pub clock : a.clock ≡ b.clock
  pub seniority : a.seniority ≡ b.seniority
  pub commands_seen : a.commands_seen ≡ b.commands_seen
  pub master : a.proposed_session.master_node_id ≡ b.proposed_session.master_node_id

-- The order is total on what it compares.
pub AtLeast-antisym : (a b : ElectionMessage) → AtLeast a b → AtLeast b a → SameRank a b
unfolding lt
AtLeast-antisym a b h k = ground arith

max_from-AtLeast-best :
    (best : ElectionMessage) (ms : List ElectionMessage) → AtLeast (max_from best ms) best
unfolding max_from
max_from-AtLeast-best best [] = lt_irrefl best
max_from-AtLeast-best best (m ∷ ms) = elim (Bool-cases (lt best m)) [
  | inl up ↦ rw up (AtLeast-trans _ m best (max_from-AtLeast-best m ms) (lt_asym best m up))
  | inr stay ↦ rw stay (max_from-AtLeast-best best ms)
]

max_from-AtLeast :
    (best : ElectionMessage) (ms : List ElectionMessage) {x : ElectionMessage}
    → In x ms
    → AtLeast (max_from best ms) x
unfolding max_from
max_from-AtLeast best [] i = elim i [ ]
max_from-AtLeast best (m ∷ ms) (there i) = max_from-AtLeast (if lt best m then m else best) ms i
max_from-AtLeast best (m ∷ ms) (here e) = elim (Bool-cases (lt best m)) [
  | inl up ↦ rw (up, ← e) (max_from-AtLeast-best m ms)
  | inr stay ↦ rw (stay, ← e) (AtLeast-trans _ best m (max_from-AtLeast-best best ms) stay)
]

max_from-In :
    (best : ElectionMessage) (ms : List ElectionMessage) → In (max_from best ms) (best ∷ ms)
unfolding max_from
max_from-In best [] = here refl
max_from-In best (m ∷ ms) = elim (Bool-cases (lt best m)) [
  | inl up ↦ rw up (there (max_from-In m ms))
  | inr stay ↦ rw stay (skip (max_from-In best ms))
]
  where
    skip : {x : ElectionMessage} → In x (best ∷ ms) → In x (best ∷ m ∷ ms)
    skip (here e) = here e
    skip (there i) = there (there i)

-- `max` of candidates gives one of them, and no other candidate is greater.
pub record IsGreatest (ms : List ElectionMessage) (m : ElectionMessage) : Type 0 where
  pub candidate : In m ms
  pub greatest : (x : ElectionMessage) → In x ms → AtLeast m x

pub max_of-IsGreatest :
    (ms : List ElectionMessage) (m : ElectionMessage) → max_of ms ≡ ok m → IsGreatest ms m
unfolding max_of
max_of-IsGreatest [] m h = cc
max_of-IsGreatest (best ∷ ms) m h =
    let e : max_from best ms ≡ m = cc in
    rw (← e) (record {
      candidate = max_from-In best ms;
      greatest = λ x i. elim (In-cons i) [
        | inl first ↦ rw (← first) (max_from-AtLeast-best best ms)
        | inr later ↦ max_from-AtLeast best ms later
      ];
    })
