-- ===== src/Buffer/Order.antt =====
-- Events that arrive in any order, and more than once, leave the buffer once and in order.
use Prim.Native.Nat.add
use native.Mathlib.Nat.{add-zero}
use awesome_distributed_ai_i.Base.{
  ℕ, zero, suc, ◌+◌, ◌≤◌, ◌<◌, ◌≡◌, refl, ap, ◌∙◌, ◌⊎◌, inl, inr, Bool, true, none, some, List, [],
  ◌∷◌, ◌++◌, map, arith, ltb, ltb→lt, In, here, there, In-cons, Bool-cases, ◌==◌, ==_iff,
  Option-cases, ok,
}
use awesome_distributed_ai_i.Base.Dict.{get, set, get-set, get-set_self, Entries-set}
use awesome_distributed_ai_i.Buffer.{OrderedBuffer, new, ingest, drain_indexed, receive}
use awesome_distributed_ai_i.Buffer.Release.{numbered, Agrees, drain_indexed-IsDrained}

module _ {T : Type 0} (f : ℕ → T) where
  -- The buffer after the indices `seen` of the stream `f` arrived.
  pub record IsBuffered (seen : List ℕ) (b : OrderedBuffer T) : Type 0 where
    pub agrees : Agrees f b
    pub past : (i : ℕ) → i < b.next_idx_to_release → In i seen
    pub known : (i : ℕ) (v : T) → get i b.store ≡ some v → In i seen
    pub present : (i : ℕ) → In i seen → b.next_idx_to_release ≤ i → get i b.store ≡ some (f i)

  pub IsBuffered-new : IsBuffered [] new
  unfolding get
  IsBuffered-new = record {
    agrees = λ i v h. cc;
    past = λ i h. absurd (omega arith);
    known = λ i v h. cc;
    present = λ i m h. elim m [ ];
  }

  pub drain-IsBuffered :
      (seen : List ℕ) (b : OrderedBuffer T)
      → IsBuffered seen b
      → IsBuffered seen (drain_indexed b).1
  drain-IsBuffered seen b h =
      let d = drain_indexed-IsDrained f b h.agrees in
      record {
        agrees = λ i v e. h.agrees i v (d.inside i v e);
        past = λ i lt. elim (Bool-cases (ltb i b.next_idx_to_release)) [
          | inl before ↦ h.past i (ltb→lt _ _ before)
          | inr after ↦ h.known i (f i) (d.stored i (ground arith) lt)
        ];
        known = λ i v e. h.known i v (d.inside i v e);
        present = λ i m le. d.kept i le ∙ h.present i m (omega (arith, d.advanced));
      }

  -- The buffer that keeps the event `f i`.
  abbrev holding : ℕ → OrderedBuffer T → OrderedBuffer T
  holding i b = record b { store = set i (f i) b.store }

  set-IsBuffered :
      (i : ℕ) (seen : List ℕ) (b : OrderedBuffer T)
      → IsBuffered seen b
      → IsBuffered (i ∷ seen) (holding i b)
  set-IsBuffered i seen b h = record {
    agrees = Entries-set (λ j v. v ≡ f j) i (f i) b.store h.agrees refl;
    past = λ j lt. there (h.past j lt);
    known =
        Entries-set (λ j v. In j (i ∷ seen)) i (f i) b.store (λ j v e. there (h.known j v e))
          (here refl);
    present = λ j m le. elim (Bool-cases (i == j)) [
      | inl same ↦ rw (← (==_iff i j).0 same) (get-set_self i (f i) b.store)
      | inr other ↦ elim (In-cons m) [
        | inl e ↦ absurd (ground arith)
        | inr m' ↦ ground (arith, get-set i j (f i) b.store, h.present j m')
      ]
    ];
  }

  skip-IsBuffered :
      (i : ℕ) (seen : List ℕ) (b : OrderedBuffer T)
      → IsBuffered seen b
      → (b.next_idx_to_release ≤ i → get i b.store ≡ some (f i))
      → IsBuffered (i ∷ seen) b
  skip-IsBuffered i seen b h old = record {
    agrees = h.agrees;
    past = λ j lt. there (h.past j lt);
    known = λ j v e. there (h.known j v e);
    present = λ j m le. elim (In-cons m) [
      | inl e ↦ rw (← e) (old (omega arith))
      | inr m' ↦ h.present j m' le
    ];
  }

  -- Ingesting the event that the stream has at `i` raises nothing, and moves no index.
  pub ingest-IsBuffered :
      (eq : T → T → Bool) (i : ℕ) (seen : List ℕ) (b : OrderedBuffer T)
      → eq (f i) (f i) ≡ true
      → IsBuffered seen b
      → (b' : OrderedBuffer T) × (ingest eq i (f i) b ≡ ok b')
        × (b'.next_idx_to_release ≡ b.next_idx_to_release)
        × IsBuffered (i ∷ seen) b'
  unfolding ingest
  ingest-IsBuffered eq i seen b same h = elim (Bool-cases (ltb i b.next_idx_to_release)) [
    | inl old ↦ (b, rw old, refl, skip-IsBuffered i seen b h (λ le. absurd (ground arith)))
    | inr ahead ↦ elim (Option-cases (get i b.store)) [
      | inl absent ↦ (holding i b, rw (ahead, absent), refl, set-IsBuffered i seen b h)
      | inr (v, there_already) ↦
          let v_is : v ≡ f i = h.agrees i v there_already in
          let stored : get i b.store ≡ some (f i) = cc in
          (b, rw (ahead, stored, same), refl, skip-IsBuffered i seen b h (λ le. stored))
    ]
  ]

  numbered-append : (i m n : ℕ) → numbered f i m ++ numbered f (i + m) n ≡ numbered f i (m + n)
  numbered-append i zero n = rw (add-zero, add.zero)
  numbered-append i (suc m) n =
      let shift : i + suc m ≡ i + 1 + m = omega arith in
      let grow : suc m + n ≡ suc (m + n) = omega arith in
      rw (shift, grow) (ap (λ l. (i, f i) ∷ l) (numbered-append (i + 1) m n))

  -- All the indices of the second list, put in front of the first.
  abbrev onto : List ℕ → List ℕ → List ℕ
  onto seen [] = seen
  onto seen (i ∷ is) = onto (i ∷ seen) is

  onto-In : (j : ℕ) (is seen : List ℕ) → In j (onto seen is) → In j is ⊎ In j seen
  onto-In j [] seen m = inr m
  onto-In j (i ∷ is) seen m = elim (onto-In j is (i ∷ seen) m) [
    | inl later ↦ inl (there later)
    | inr now ↦ elim (In-cons now) [ inl e ↦ inl (here e) | inr before ↦ inr before ]
  ]

  In-onto : (j : ℕ) (is seen : List ℕ) → In j is ⊎ In j seen → In j (onto seen is)
  In-onto j [] seen (inl m) = elim m [ ]
  In-onto j [] seen (inr m) = m
  In-onto j (i ∷ is) seen (inl (here e)) = In-onto j is (i ∷ seen) (inr (here e))
  In-onto j (i ∷ is) seen (inl (there m)) = In-onto j is (i ∷ seen) (inl m)
  In-onto j (i ∷ is) seen (inr m) = In-onto j is (i ∷ seen) (inr (there m))

  receive-IsBuffered :
      (eq : T → T → Bool) (is seen : List ℕ) (b : OrderedBuffer T)
      → ((i : ℕ) → eq (f i) (f i) ≡ true)
      → get b.next_idx_to_release b.store ≡ none
      → IsBuffered seen b
      → (n : ℕ) × (b' : OrderedBuffer T) × (receive eq (map (λ i. (i, f i)) is) b
          ≡ ok (numbered f b.next_idx_to_release n, b'))
        × (b'.next_idx_to_release ≡ b.next_idx_to_release + n)
        × (get b'.next_idx_to_release b'.store ≡ none)
        × IsBuffered (onto seen is) b'
  unfolding receive
  receive-IsBuffered eq [] seen b same stop h = (0, b, refl, omega arith, stop, h)
  receive-IsBuffered eq (i ∷ is) seen b same stop h =
      let (filled, ingested, next_same, h1) = ingest-IsBuffered eq i seen b (same i) h in
      let d = drain_indexed-IsDrained f filled h1.agrees in
      let (n, b', received, moved, stopped, h2) =
        receive-IsBuffered eq is (i ∷ seen) (drain_indexed filled).1 same d.stopped
          (drain-IsBuffered (i ∷ seen) filled h1) in
      (
        d.count + n,
        b',
        rw (ingested, received, d.released, d.advanced, numbered-append, next_same),
        omega (arith, d.advanced),
        stopped,
        h2,
      )

-- Whatever the order and the number of times in which the events of a stream arrive at a new
-- buffer, nothing is raised, and what comes out is exactly the stream's first events, each once,
-- in order and with its index, up to the first index that has not arrived.
pub receive_in_order :
    {T : Type 0} (f : ℕ → T) (eq : T → T → Bool) (arrivals : List ℕ)
    → ((i : ℕ) → eq (f i) (f i) ≡ true)
    → (n : ℕ) × (b : OrderedBuffer T) × (receive eq (map (λ i. (i, f i)) arrivals) new
        ≡ ok (numbered f 0 n, b))
      × ((i : ℕ) → i < n → In i arrivals)
      × ¬ In n arrivals
receive_in_order f eq arrivals same =
    let (n, b, received, moved, stopped, h) =
      receive-IsBuffered f eq arrivals [] new same (unfold get in refl) (IsBuffered-new f) in
    (
      n,
      b,
      received,
      λ i lt. elim (onto-In f i arrivals [] (h.past i (omega arith))) [
        | inl m ↦ m
        | inr m ↦ elim m [ ]
      ],
      λ m.
          let at_next : b.next_idx_to_release ≡ n = omega (arith, moved) in
          let stored = h.present n (In-onto f n arrivals [] (inl m)) (omega arith) in
          cc (stored, stopped, at_next),
    )
