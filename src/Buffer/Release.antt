-- ===== src/Buffer/Release.antt =====
-- The loop of `drain`: what it releases, what it leaves, and that it runs until its test fails.
use awesome_distributed_ai_i.Base.{
  ℕ, zero, suc, ◌+◌, ◌≤◌, ◌<◌, ◌≡◌, refl, none, some, List, [], ◌∷◌, arith, inl, inr, length,
  Option-cases,
}
use awesome_distributed_ai_i.Base.Dict.{get, remove, length-remove-lt, get-remove, get-of_length}
use awesome_distributed_ai_i.Buffer.{OrderedBuffer, drain_loop, drain_indexed}

module _ {T : Type 0} where
  -- The events `f i`, `f (i + 1)`, ... with their indices, `n` of them.
  abbrev pub numbered : (ℕ → T) → ℕ → ℕ → List (ℕ × T)
  numbered f i zero = []
  numbered f i (suc n) = (i, f i) ∷ numbered f (i + 1) n

  -- Every stored event is the one that the stream `f` has at its index.
  abbrev pub Agrees : (ℕ → T) → OrderedBuffer T → Type 0
  Agrees f b = (i : ℕ) (v : T) → get i b.store ≡ some v → v ≡ f i

  -- `r` is what a drain of `b` gives: the longest run of stored events from the next index on.
  pub record IsDrained (f : ℕ → T) (b : OrderedBuffer T) (r : List (ℕ × T) × OrderedBuffer T)
      : Type 0 where
    pub count : ℕ
    pub advanced : r.1.next_idx_to_release ≡ b.next_idx_to_release + count
    pub released : r.0 ≡ numbered f b.next_idx_to_release count
    pub stored :
        (i : ℕ)
        → b.next_idx_to_release ≤ i
        → i < r.1.next_idx_to_release
        → get i b.store ≡ some (f i)
    pub kept : (i : ℕ) → r.1.next_idx_to_release ≤ i → get i r.1.store ≡ get i b.store
    pub inside : (i : ℕ) (v : T) → get i r.1.store ≡ some v → get i b.store ≡ some v
    pub stopped : get r.1.next_idx_to_release r.1.store ≡ none

  Agrees-remove :
      (f : ℕ → T) (b : OrderedBuffer T) (k n : ℕ)
      → Agrees f b
      → Agrees f (record { store = remove k b.store; next_idx_to_release = n })
  Agrees-remove f b k n h i v e = h i v (ground (arith, get-remove k i b.store))

  -- No event at the next index: the loop ends at once.
  IsDrained-stuck :
      (f : ℕ → T) (b : OrderedBuffer T)
      → get b.next_idx_to_release b.store ≡ none
      → IsDrained f b ([], b)
  IsDrained-stuck f b e = record {
    count = 0;
    advanced = omega arith;
    released = refl;
    stored = λ i lo hi. absurd (omega arith);
    kept = λ i h. refl;
    inside = λ i v h. h;
    stopped = e;
  }

  -- One round, in front of a drain of the buffer that it leaves.
  IsDrained-round :
      (f : ℕ → T) (b : OrderedBuffer T) (v : T) (r : List (ℕ × T) × OrderedBuffer T)
      → get b.next_idx_to_release b.store ≡ some v
      → v ≡ f b.next_idx_to_release
      → IsDrained f
          (record {
            store = remove b.next_idx_to_release b.store;
            next_idx_to_release = b.next_idx_to_release + 1;
          })
          r
      → IsDrained f b ((b.next_idx_to_release, v) ∷ r.0, r.1)
  IsDrained-round f b v r e same d =
      let n = b.next_idx_to_release in
      record {
        count = suc d.count;
        advanced = omega (arith, d.advanced);
        released = cc (d.released);
        stored = λ i lo hi. ground (arith, d.stored i, get-remove n i b.store);
        kept = λ i h. ground (arith, d.kept i h, get-remove n i b.store, d.advanced);
        inside = λ i w h. ground (arith, d.inside i w h, get-remove n i b.store);
        stopped = d.stopped;
      }

  drain_loop-IsDrained :
      (f : ℕ → T) (fuel : ℕ) (b : OrderedBuffer T)
      → Agrees f b
      → length b.store ≤ fuel
      → IsDrained f b (drain_loop fuel b)
  unfolding drain_loop get
  drain_loop-IsDrained f zero b h m = IsDrained-stuck f b (get-of_length _ b.store m)
  drain_loop-IsDrained f (suc fuel) b h m =
      elim (Option-cases (get b.next_idx_to_release b.store)) [
        | inl e ↦ rw (e, drain_loop) (IsDrained-stuck f b e)
        | inr (v, e) ↦
            rw (e, drain_loop)
              (IsDrained-round f b v _ e (h _ v e) (
                drain_loop-IsDrained f fuel _
                  (Agrees-remove f b b.next_idx_to_release (b.next_idx_to_release + 1) h)
                  (omega (arith, length-remove-lt b.next_idx_to_release b.store v e))))
      ]

  pub drain_indexed-IsDrained :
      (f : ℕ → T) (b : OrderedBuffer T) → Agrees f b → IsDrained f b (drain_indexed b)
  unfolding drain_indexed
  drain_indexed-IsDrained f b h = drain_loop-IsDrained f (length b.store) b h (omega arith)
