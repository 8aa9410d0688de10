-- ===== src/Buffer/Tests.antt =====
-- Runs of the buffers on small inputs, and the theorems at concrete inputs.
use awesome_distributed_ai_i.Base.{
  ℕ, ◌*◌, ◌<◌, ◌≡◌, refl, [], ◌∷◌, map, ◌==◌, ==_self, if◌then◌else◌, In, here, there, subst, some,
  ok, raise, assertion_error,
}
use awesome_distributed_ai_i.Base.Dict.{get, set, remove, keys}
use awesome_distributed_ai_i.Buffer.{OrderedBuffer, new, ingest, drain, receive}
use awesome_distributed_ai_i.Buffer.Release.{numbered}
use awesome_distributed_ai_i.Buffer.Order.{receive_in_order}
use awesome_distributed_ai_i.Buffer.Sources.{
  MultiSourceBuffer, buffer_of, ingest_source, ingest_source-ok, drain_sources, drained_alone,
  buffer_of-drain_sources,
}

abbrev event_at : ℕ → ℕ
event_at i = i * 10

program : Unit {0}
unfolding receive ingest drain get set remove
program = tt

-- Index 1 is late and 0 comes twice; 4 waits for 3.
late :
    receive ◌==◌ (map (λ i. (i, event_at i)) (0 ∷ 2 ∷ 0 ∷ 1 ∷ 4 ∷ [])) new
    ≡ ok ((0, 0) ∷ (1, 10) ∷ (2, 20) ∷ [], record { store = (4, 40) ∷ []; next_idx_to_release = 3 })
unfolding program
late = refl

conflict : receive ◌==◌ ((1, 7) ∷ (1, 8) ∷ []) new ≡ raise assertion_error
unfolding program
conflict = refl

receive_in_order_example :
    (n : ℕ) × (b : OrderedBuffer ℕ) × (receive ◌==◌
        (map (λ i. (i, event_at i)) (0 ∷ 2 ∷ 0 ∷ 1 ∷ 4 ∷ []))
        new
      ≡ ok (numbered event_at 0 n, b))
    × ((i : ℕ) → i < n → In i (0 ∷ 2 ∷ 0 ∷ 1 ∷ 4 ∷ []))
    × ¬ In n (0 ∷ 2 ∷ 0 ∷ 1 ∷ 4 ∷ [])
receive_in_order_example =
    receive_in_order event_at ◌==◌ (0 ∷ 2 ∷ 0 ∷ 1 ∷ 4 ∷ []) (λ i. ==_self (event_at i))

-- Source 5 has sent index 1, and now sends index 0; source 6 waits for its index 0.
abbrev waiting : OrderedBuffer ℕ
waiting = record { store = (1, 10) ∷ []; next_idx_to_release = 0 }

abbrev sources : MultiSourceBuffer ℕ
sources = (5, waiting) ∷ (6, waiting) ∷ []

abbrev filled : OrderedBuffer ℕ
filled = record { store = (1, 10) ∷ (0, 0) ∷ []; next_idx_to_release = 0 }

fills : ingest ◌==◌ 0 0 (buffer_of 5 sources) ≡ ok filled
unfolding program
fills = refl

ingest_source-ok_example :
    (stores' : MultiSourceBuffer ℕ) × (ingest_source ◌==◌ 0 0 5 sources ≡ ok stores')
    × ((s : ℕ) → buffer_of s stores' ≡ (if 5 == s then filled else buffer_of s sources))
ingest_source-ok_example = ingest_source-ok ◌==◌ 0 0 5 sources filled fills

-- Source 5 has what was missing.
abbrev ready : MultiSourceBuffer ℕ
ready = (5, filled) ∷ (6, waiting) ∷ []

of_5 : get 5 ready ≡ some filled
unfolding get
of_5 = refl

of_6 : get 6 ready ≡ some waiting
unfolding get
of_6 = refl

one_each : (s : ℕ) (b : OrderedBuffer ℕ) → In (s, b) ready → get s ready ≡ some b
one_each s b (here e) = subst (λ (p : ℕ × OrderedBuffer ℕ). get p.0 ready ≡ some p.1) e of_5
one_each s b (there (here e)) = subst (λ (p : ℕ × OrderedBuffer ℕ). get p.0 ready ≡ some p.1) e of_6
one_each s b (there (there i)) = elim i [ ]

buffer_of-drain_sources_example :
    ((drain_sources ready).0 ≡ drained_alone (keys ready) ready)
    × ((s : ℕ) → buffer_of s (drain_sources ready).1 ≡ (drain (buffer_of s ready)).1)
buffer_of-drain_sources_example = buffer_of-drain_sources ready one_each
