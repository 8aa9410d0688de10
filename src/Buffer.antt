-- ===== src/Buffer.antt =====
-- src/exo/utils/event_buffer.py: the buffer that puts events back in order, and the one that keeps
-- a buffer for each source. The `while` loop of `drain` takes fuel: one round for each stored event.
pub mod Release
pub mod Order
pub mod Sources
pub mod Tests
use awesome_distributed_ai_i.Base.{
  ℕ, zero, suc, ◌+◌, ◌≡◌, refl, Bool, true, false, Option, none, some, List, [], ◌∷◌, ◌++◌, map,
  ltb, ◌==◌, if◌then◌else◌, length, Result, ok, raise, assertion_error, ◌>>=◌,
}
use awesome_distributed_ai_i.Base.Dict.{Dict, get, set, remove, has, values}

pub record OrderedBuffer (T : Type 0) : Type 0 where
  pub store : Dict T
  pub next_idx_to_release : ℕ

module _ {T : Type 0} where
  abbrev pub new : OrderedBuffer T
  new = record { store = []; next_idx_to_release = 0 }

  -- `eq` is the `==` of the events.
  unfoldable pub ingest_found :
      (eq : T → T → Bool) → ℕ → T → Option T → OrderedBuffer T → Result (OrderedBuffer T)
  ingest_found eq idx t (some old) b = if eq old t then ok b else raise assertion_error
  ingest_found eq idx t none b = ok (record b { store = set idx t b.store })

  unfoldable pub ingest : (eq : T → T → Bool) → ℕ → T → OrderedBuffer T → Result (OrderedBuffer T)
  unfolding ingest_found
  ingest eq idx t b =
      if ltb idx b.next_idx_to_release then ok b else ingest_found eq idx t (get idx b.store) b

  -- The loop of `drain_indexed`: the events that it releases, and the buffer that it leaves.
  unfoldable pub drain_loop : ℕ → OrderedBuffer T → List (ℕ × T) × OrderedBuffer T
  drain_loop zero b = ([], b)
  drain_loop (suc fuel) b = elim (get b.next_idx_to_release b.store) [
    | none ↦ ([], b)
    | some event ↦
        let idx = b.next_idx_to_release in
        let (ret, b') =
          drain_loop fuel (record { store = remove idx b.store; next_idx_to_release = idx + 1 }) in
        ((idx, event) ∷ ret, b')
  ]

  unfoldable pub drain_indexed : OrderedBuffer T → List (ℕ × T) × OrderedBuffer T
  unfolding drain_loop
  drain_indexed b = drain_loop (length b.store) b

  unfoldable pub drain : OrderedBuffer T → List T × OrderedBuffer T
  unfolding drain_indexed
  drain b = let (ret, b') = drain_indexed b in (map (λ e. e.1) ret, b')

  -- Events that arrive one after another, each followed by a drain.
  unfoldable pub receive :
      (eq : T → T → Bool) → List (ℕ × T) → OrderedBuffer T → Result (List (ℕ × T) × OrderedBuffer T)
  unfolding ingest drain_indexed
  receive eq [] b = ok ([], b)
  receive eq ((idx, t) ∷ rest) b = do
    filled ← ingest eq idx t b
    let (ret, drained) = drain_indexed filled
    (later, final) ← receive eq rest drained
    ok (ret ++ later, final)
