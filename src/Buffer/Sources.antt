-- ===== src/Buffer/Sources.antt =====
-- A buffer for each source: the sources do not disturb one another.
use awesome_distributed_ai_i.Base.{
  ℕ, ◌≡◌, refl, Bool, Option, none, some, List, [], ◌∷◌, ◌++◌, arith, if◌then◌else◌, Result, ok,
  ◌>>=◌, Option-cases, ◌==◌, inl, inr, Bool-cases, In, here, there, ap,
}
use awesome_distributed_ai_i.Base.Dict.{Dict, get, set, has, keys, get-set, get-set_self}
use awesome_distributed_ai_i.Buffer.{OrderedBuffer, new, ingest, drain}

-- `stores` of the class: the buffer of each source, in the order in which the sources came.
abbrev pub MultiSourceBuffer : Type 0 → Type 0
MultiSourceBuffer T = Dict (OrderedBuffer T)

module _ {T : Type 0} where
  -- The buffer that a source has, a new one for a source that has sent nothing.
  abbrev pub or_new : Option (OrderedBuffer T) → OrderedBuffer T
  or_new none = new
  or_new (some b) = b

  abbrev pub buffer_of : ℕ → MultiSourceBuffer T → OrderedBuffer T
  buffer_of source stores = or_new (get source stores)

  unfoldable pub ingest_source :
      (eq : T → T → Bool) → ℕ → T → ℕ → MultiSourceBuffer T → Result (MultiSourceBuffer T)
  ingest_source eq idx t source stores =
      let known = if has source stores then stores else set source new stores in
      do b ← ingest eq idx t (buffer_of source known); ok (set source b known)

  -- The events of all buffers, one buffer after another.
  unfoldable pub drain_sources : MultiSourceBuffer T → List T × MultiSourceBuffer T
  unfolding drain
  drain_sources [] = ([], [])
  drain_sources ((source, b) ∷ stores) =
      let (ret, b') = drain b in
      let (rets, stores') = drain_sources stores in (ret ++ rets, (source, b') ∷ stores')

  -- An event that the buffer of its own source takes goes into that buffer, without an exception,
  -- and no other source's buffer changes.
  pub ingest_source-ok :
      (eq : T → T → Bool) (idx : ℕ) (t : T) (source : ℕ) (stores : MultiSourceBuffer T)
      (b : OrderedBuffer T)
      → ingest eq idx t (buffer_of source stores) ≡ ok b
      → (stores' : MultiSourceBuffer T) × (ingest_source eq idx t source stores ≡ ok stores')
        × ((s : ℕ) → buffer_of s stores' ≡ (if source == s then b else buffer_of s stores))
  unfolding ingest_source
  ingest_source-ok eq idx t source stores b h = elim (Option-cases (get source stores)) [
    | inl absent ↦ (
      set source b (set source new stores),
      let taken : ingest eq idx t new ≡ ok b = rw (absent, buffer_of) at h in
          rw (absent, buffer_of, get-set_self, taken),
      λ s. ground (arith, get-set source s b (set source new stores), get-set source s new stores),
    )
    | inr (old, present) ↦ (
      set source b stores,
      let taken : ingest eq idx t old ≡ ok b = rw (present, buffer_of) at h in
          rw (present, buffer_of, present, taken),
      λ s. ground (arith, get-set source s b stores),
    )
  ]

  pub drain-new : drain (new {T = T}) ≡ ([], new)
  unfolding drain
  drain-new = refl

  drained-others :
      (s : ℕ) (stores : MultiSourceBuffer T)
      → buffer_of s (drain_sources stores).1 ≡ (drain (buffer_of s stores)).1
  unfolding drain_sources get
  drained-others s [] = refl
  drained-others s ((source, b) ∷ stores) = elim (Bool-cases (source == s)) [
    | inl own ↦ rw (own, buffer_of)
    | inr other ↦ rw (other, buffer_of) (drained-others s stores)
  ]

  -- What the buffers of the sources give when each is drained by itself, one after another.
  abbrev pub drained_alone : List ℕ → MultiSourceBuffer T → List T
  drained_alone [] stores = []
  drained_alone (source ∷ sources) stores =
      (drain (buffer_of source stores)).0 ++ drained_alone sources stores

  drain_sources-listed :
      (part stores : MultiSourceBuffer T)
      → ((s : ℕ) (b : OrderedBuffer T) → In (s, b) part → get s stores ≡ some b)
      → (drain_sources part).0 ≡ drained_alone (keys part) stores
  unfolding drain_sources
  drain_sources-listed [] stores h = refl
  drain_sources-listed ((s, b) ∷ part) stores h =
      rw (h s b (here refl), buffer_of)
        (ap (λ rest. (drain b).0 ++ rest)
          (drain_sources-listed part stores (λ s' b' i. h s' b' (there i))))

  -- A drain of all sources gives what the buffer of each source gives when it is drained by itself, for one source
  -- after another in the order in which they came, and leaves each buffer as that drain does. No source has two buffers.
  pub buffer_of-drain_sources :
      (stores : MultiSourceBuffer T)
      → ((s : ℕ) (b : OrderedBuffer T) → In (s, b) stores → get s stores ≡ some b)
      → ((drain_sources stores).0 ≡ drained_alone (keys stores) stores)
        × ((s : ℕ) → buffer_of s (drain_sources stores).1 ≡ (drain (buffer_of s stores)).1)
  buffer_of-drain_sources stores once =
      (drain_sources-listed stores stores once, λ s. drained-others s stores)
