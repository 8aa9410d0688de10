-- ===== src/EventLog/Header.antt =====
-- The header of a record: what is packed is unpacked.
use awesome_distributed_ai_i.Base.{
  ℕ, ◌/◌, ◌%◌, ◌<◌, ◌≤◌, ◌≡◌, refl, ◌⊎◌, inl, inr, true, List, [], ◌∷◌, ltb, ltb→lt, arith, length,
  All, Bool-cases, ok, raise, overflow_error,
}
use awesome_distributed_ai_i.EventLog.{Byte, header_size, pack_header, unpack_header}

-- The four bytes, the highest first.
abbrev packed : ℕ → List Byte
packed n = n / 16777216 % 256 ∷ n / 65536 % 256 ∷ n / 256 % 256 ∷ n % 256 ∷ []

unpacked : (n : ℕ) → n < 4294967296 → unpack_header (packed n) ≡ n
unfolding unpack_header
unpacked n h = omega arith

pub record IsHeader (n : ℕ) (header : List Byte) : Type 0 where
  pub size : length header ≡ header_size
  pub value : unpack_header header ≡ n

-- A length below 2 ^ 32 has four bytes, and they give it back.
pub pack_header-IsHeader :
    (n : ℕ) (header : List Byte) → pack_header n ≡ ok header → IsHeader n header
unfolding pack_header unpack_header
pack_header-IsHeader n header h = elim (Bool-cases (ltb n 4294967296)) [
  | inr big ↦ let no_value = rw big at h in cc
  | inl small ↦
      let made = rw small at h in
      let bound = ltb→lt n 4294967296 small in
      let same : packed n ≡ header = cc in
      rw (← same) (record { size = refl; value = unpacked n bound })
]

pub pack_header-ok : (n : ℕ) → n < 4294967296 → (header : List Byte) × (pack_header n ≡ ok header)
unfolding pack_header
pack_header-ok n h = let small : ltb n 4294967296 ≡ true = ground arith in (packed n, rw small refl)

-- The header of a payload's length: below 2 ^ 32 it has four bytes, each below 256, which give the
-- length back; from 2 ^ 32 on the packing raises.
pub pack_header-unpack_header :
    (n : ℕ)
    → ((header : List Byte) × (pack_header n ≡ ok header)
        × (length header ≡ header_size)
        × (unpack_header header ≡ n)
        × All (λ b. b < 256) header)
      ⊎ ((4294967296 ≤ n) × (pack_header n ≡ raise overflow_error))
unfolding pack_header
pack_header-unpack_header n = elim (Bool-cases (ltb n 4294967296)) [
  | inl small ↦ inl (
    packed n,
    rw small refl,
    refl,
    unpacked n (ground arith),
    (omega arith, (omega arith, (omega arith, (omega arith, tt)))),
  )
  | inr big ↦ inr (ground arith, rw big refl)
]
