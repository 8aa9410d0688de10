-- ===== src/EventLog/Cache.antt =====
-- Positions in the file of a log, and the cache of offsets.
use awesome_distributed_ai_i.Base.{
  ℕ, zero, suc, ◌+◌, ◌-◌, ◌≤◌, ◌<◌, ◌≡◌, refl, sym, ap, ◌∙◌, subst, inl, inr, some, List, [], ◌∷◌,
  ◌++◌, ltb, In, here, there, In-cons, In-append, length, take, drop, length-append, arith,
  Bool-cases, Option-cases, ok,
}
use awesome_distributed_ai_i.Base.Dict.{
  Dict, get, remove, get-In, length-remove-le, length-remove-lt, In-remove,
}
use awesome_distributed_ai_i.EventLog.{
  Byte, Codec, offset_cache_size, skip_record, read_record, skip_records, read_records,
  written_last, pop_first, cache_offset, scan_from, seek_to,
}
use awesome_distributed_ai_i.EventLog.Records.{
  HasAt, IsRecord, skip_record-IsRecord, read_record-IsRecord, append_assoc,
}

drop-cons {ℓ} :
    {A : Type ℓ} (xs : List A) (i : ℕ) → i < length xs → (x : A) × (drop i xs ≡ x ∷ drop (suc i) xs)
drop-cons [] i h = absurd (omega arith)
drop-cons (x ∷ xs) zero h = (x, refl)
drop-cons (x ∷ xs) (suc i) h = drop-cons xs i (omega arith)

module _ {E : Type 0} (C : Codec E) where
  -- The bytes are the records of the events.
  abbrev pub Records : List E → List Byte → Type 0
  Records [] bytes = bytes ≡ []
  Records (e ∷ es) bytes =
      (record_bytes : List Byte) × (rest : List Byte) × (bytes ≡ record_bytes ++ rest)
      × IsRecord C e record_bytes
      × Records es rest

  -- The position of the event with the index: from there on the file has the records from the event on.
  pub record IsAt (es : List E) (file : List Byte) (idx position : ℕ) : Type 0 where
    pub inside : idx ≤ length es
    pub rest : List Byte
    pub records : Records (drop idx es) rest
    pub before : List Byte
    pub split : file ≡ before ++ rest
    pub reached : length before ≡ position

  -- The next record is read or skipped.
  pub record IsStep (es : List E) (file : List Byte) (idx position : ℕ) : Type 0 where
    pub event : E
    pub from_here : drop idx es ≡ event ∷ drop (suc idx) es
    pub after : ℕ
    pub skipped : skip_record file position ≡ after
    pub was_read : read_record C file position ≡ ok (some event, after)
    pub at_next : IsAt es file (suc idx) after

  IsAt-IsStep :
      (es : List E) (file : List Byte) (idx position : ℕ)
      → IsAt es file idx position
      → idx < length es
      → IsStep es file idx position
  IsAt-IsStep es file idx position at lt =
      let (e, from_here) = drop-cons es idx lt in
      let (bytes, rest, split, is_record, others) =
        subst (λ l. Records l at.rest) from_here at.records in
      let whole : file ≡ at.before ++ (bytes ++ rest) =
        at.split ∙ ap (λ (l : List Byte). at.before ++ l) split in
      let now : HasAt file position bytes = record {
        before = at.before;
        after = rest;
        split = whole;
        reached = at.reached;
      } in
      record {
        event = e;
        from_here = from_here;
        after = position + length bytes;
        skipped = skip_record-IsRecord C file position e bytes is_record now;
        was_read = read_record-IsRecord C file position e bytes is_record now;
        at_next = record {
          inside = omega arith;
          rest = rest;
          records = others;
          before = at.before ++ bytes;
          split = whole ∙ sym (append_assoc at.before bytes rest);
          reached = omega (arith, length-append at.before bytes, at.reached);
        };
      }

  skip_records-IsAt :
      (n : ℕ) (es : List E) (file : List Byte) (idx position : ℕ)
      → IsAt es file idx position
      → idx + n ≤ length es
      → IsAt es file (idx + n) (skip_records n file position)
  unfolding skip_records
  skip_records-IsAt zero es file idx position at le =
      let same : idx ≡ idx + 0 = omega arith in subst (λ i. IsAt es file i position) same at
  skip_records-IsAt (suc n) es file idx position at le =
      let s = IsAt-IsStep es file idx position at (omega arith) in
      let later : idx + 1 + n ≡ idx + suc n = omega arith in
      subst (λ i. IsAt es file i (skip_records (suc n) file position)) later
        (rw s.skipped (
          skip_records-IsAt n es file (idx + 1) s.after
            (let one : suc idx ≡ idx + 1 = omega arith in
              subst (λ i. IsAt es file i s.after) one s.at_next)
            (omega arith)))

  pub read_records-IsAt :
      (n : ℕ) (es : List E) (file : List Byte) (idx position : ℕ)
      → IsAt es file idx position
      → idx + n ≤ length es
      → (after : ℕ) × (read_records C n file position ≡ ok (take n (drop idx es), after))
        × IsAt es file (idx + n) after
  unfolding read_records
  read_records-IsAt zero es file idx position at le =
      let same : idx ≡ idx + 0 = omega arith in
      (position, refl, subst (λ i. IsAt es file i position) same at)
  read_records-IsAt (suc n) es file idx position at le =
      let s = IsAt-IsStep es file idx position at (omega arith) in
      let (after, e, at') = read_records-IsAt n es file (suc idx) s.after s.at_next (omega arith) in
      let later : suc idx + n ≡ idx + suc n = omega arith in
      (after, rw (s.was_read, e, s.from_here) refl, subst (λ i. IsAt es file i after) later at')

  -- Every cached offset is the position of its event.
  abbrev pub Cached : List E → List Byte → Dict ℕ → Type 0
  Cached es file cache = (idx offset : ℕ) → In (idx, offset) cache → IsAt es file idx offset

  pub record IsCache (es : List E) (file : List Byte) (cache : Dict ℕ) : Type 0 where
    pub offsets : Cached es file cache
    pub size : length cache ≤ offset_cache_size

  written_last-Cached :
      (es : List E) (file : List Byte) (idx offset : ℕ) (cache : Dict ℕ)
      → IsAt es file idx offset
      → Cached es file cache
      → Cached es file (written_last idx offset cache)
  unfolding written_last
  written_last-Cached es file idx offset cache at h k v m =
      elim ((In-append (remove idx cache) ((idx, offset) ∷ [])).0 m) [
        | inl old ↦ h k v (In-remove idx cache k v old).0
        | inr new ↦ elim (In-cons new) [
          | inl e ↦ subst (λ (p : ℕ × ℕ). IsAt es file p.0 p.1) e at
          | inr none_left ↦ elim none_left [ ]
        ]
      ]

  length-written_last :
      (idx offset : ℕ) (cache : Dict ℕ)
      → length (written_last idx offset cache) ≡ length (remove idx cache) + 1
  unfolding written_last
  length-written_last idx offset cache = length-append (remove idx cache) ((idx, offset) ∷ [])

  pop_first-Cached :
      (es : List E) (file : List Byte) (cache : Dict ℕ)
      → Cached es file cache
      → Cached es file (pop_first cache)
  pop_first-Cached es file [] h = h
  pop_first-Cached es file (oldest ∷ cache) h = λ k v m. h k v (there m)

  length-pop_first : (cache : Dict ℕ) → length (pop_first cache) ≡ length cache - 1
  length-pop_first [] = omega arith
  length-pop_first (oldest ∷ cache) = omega arith

  pub cache_offset-IsCache :
      (es : List E) (file : List Byte) (idx offset : ℕ) (cache : Dict ℕ)
      → IsAt es file idx offset
      → IsCache es file cache
      → IsCache es file (cache_offset idx offset cache)
  unfolding cache_offset
  cache_offset-IsCache es file idx offset cache at h =
      let written = written_last idx offset cache in
      let good = written_last-Cached es file idx offset cache at h.offsets in
      elim (Bool-cases (ltb offset_cache_size (length written))) [
        | inl full ↦ rw full (record {
          offsets = pop_first-Cached es file written good;
          size = omega (
            arith,
            h.size,
            length-pop_first written,
            length-written_last idx offset cache,
            length-remove-le idx cache,
          );
        })
        | inr room ↦ rw room (record { offsets = good; size = ground arith })
      ]

  scan_from-IsAt :
      (es : List E) (file : List Byte) (target : ℕ) (best : ℕ × ℕ) (cache : Dict ℕ)
      → IsAt es file best.0 best.1
      → best.0 ≤ target
      → Cached es file cache
      → IsAt es file (scan_from target best cache).0 (scan_from target best cache).1
        × ((scan_from target best cache).0 ≤ target)
  unfolding scan_from
  scan_from-IsAt es file target best [] at le h = (at, le)
  scan_from-IsAt es file target best ((idx, offset) ∷ cache) at le h =
      elim (Bool-cases (ltb idx target)) [
        | inl lower ↦
            rw (lower, scan_from)
              (scan_from-IsAt es file target (idx, offset) cache (h idx offset (here refl))
                (ground arith) (λ k v m. h k v (there m)))
        | inr higher ↦
            rw (higher, scan_from)
              (scan_from-IsAt es file target best cache at le (λ k v m. h k v (there m)))
      ]

  -- Whatever is cached, seeking finds the position of the event, and the cache stays right.
  pub seek_to-IsAt :
      (es : List E) (file : List Byte) (target : ℕ) (cache : Dict ℕ)
      → IsAt es file 0 0
      → target ≤ length es
      → IsCache es file cache
      → IsAt es file target (seek_to target file cache).0
        × IsCache es file (seek_to target file cache).1
  unfolding seek_to
  seek_to-IsAt es file target cache start le h = elim (Option-cases (get target cache)) [
    | inr (offset, cached) ↦
        let at = h.offsets target offset (get-In target cache cached) in
        rw cached (
          at,
          record {
            offsets = written_last-Cached es file target offset cache at h.offsets;
            size = omega (
              arith,
              h.size,
              length-written_last target offset cache,
              length-remove-lt target cache offset cached,
            );
          },
        )
    | inl missing ↦
        let (from, below) =
          scan_from-IsAt es file target (0, 0) cache start (omega arith) h.offsets in
        let best = scan_from target (0, 0) cache in
        let walked = skip_records-IsAt (target - best.0) es file best.0 best.1 from (omega arith) in
        let there_is : best.0 + (target - best.0) ≡ target = omega arith in
        let at =
          subst (λ i. IsAt es file i (skip_records (target - best.0) file best.1)) there_is
            walked in
        rw missing (
          at,
          cache_offset-IsCache es file target (skip_records (target - best.0) file best.1) cache at
              h,
        )
  ]
