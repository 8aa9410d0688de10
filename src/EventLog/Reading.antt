-- ===== src/EventLog/Reading.antt =====
-- The log on disk is the list of the events that were appended.
use awesome_distributed_ai_i.Base.{
  ℕ, zero, suc, ◌+◌, ◌-◌, ◌≤◌, ◌<◌, ◌≡◌, refl, sym, ap, ◌∙◌, subst, inl, inr, min, List, [], ◌∷◌,
  ◌++◌, ltb, leb, length, take, drop, length-append, arith, Bool-cases, ok, if◌then◌else◌,
}
use awesome_distributed_ai_i.Base.Int.{pos}
use awesome_distributed_ai_i.EventLog.{
  Byte, Codec, DiskEventLog, new, append, seek_to, cache_offset, read_between, read_range,
}
use awesome_distributed_ai_i.EventLog.Header.{pack_header-IsHeader, pack_header-ok}
use awesome_distributed_ai_i.EventLog.Records.{IsRecord, append_assoc, append_nil}
use awesome_distributed_ai_i.EventLog.Cache.{
  Records, IsAt, IsCache, read_records-IsAt, seek_to-IsAt, cache_offset-IsCache,
}

module _ {E : Type 0} (C : Codec E) where
  -- The log keeps these events, and its cache is right.
  pub record IsLog (es : List E) (log : DiskEventLog) : Type 0 where
    pub records : Records C es log.file
    pub counted : log.count ≡ length es
    pub cache : IsCache C es log.file log.offset_cache

  pub new-IsLog : IsLog [] new
  new-IsLog = record {
    records = refl;
    counted = refl;
    cache = record { offsets = λ k v m. elim m [ ]; size = omega arith };
  }

  pub start-IsAt : (es : List E) (file : List Byte) → Records C es file → IsAt C es file 0 0
  start-IsAt es file records = record {
    inside = omega arith;
    rest = file;
    records = records;
    before = [];
    split = refl;
    reached = refl;
  }

  Records-append :
      (es : List E) (file : List Byte) (event : E) (bytes : List Byte)
      → Records C es file
      → IsRecord C event bytes
      → Records C (es ++ event ∷ []) (file ++ bytes)
  Records-append [] file event bytes h r = (bytes, [], rw h (sym (append_nil bytes)), r, refl)
  Records-append (e ∷ es) file event bytes (first, rest, split, is_first, others) r = (
    first,
    rest ++ bytes,
    ap (λ l. l ++ bytes) split ∙ append_assoc first rest bytes,
    is_first,
    Records-append es rest event bytes others r,
  )

  drop-append :
      (es : List E) (i : ℕ) (more : List E)
      → i ≤ length es
      → drop i (es ++ more) ≡ drop i es ++ more
  drop-append es zero more h = refl
  drop-append [] (suc i) more h = absurd (omega arith)
  drop-append (e ∷ es) (suc i) more h = drop-append es i more (omega arith)

  -- A record more at the end leaves every event where it is.
  IsAt-append :
      (es : List E) (file : List Byte) (event : E) (bytes : List Byte) (idx offset : ℕ)
      → IsRecord C event bytes
      → IsAt C es file idx offset
      → IsAt C (es ++ event ∷ []) (file ++ bytes) idx offset
  IsAt-append es file event bytes idx offset r at = record {
    inside = omega (arith, at.inside, length-append es (event ∷ []));
    rest = at.rest ++ bytes;
    records =
        subst (λ l. Records C l (at.rest ++ bytes))
          (sym (drop-append es idx (event ∷ []) at.inside))
          (Records-append (drop idx es) at.rest event bytes at.records r);
    before = at.before;
    split = ap (λ (l : List Byte). l ++ bytes) at.split ∙ append_assoc at.before at.rest bytes;
    reached = at.reached;
  }

  -- Appending an event that the payload's format gives back, and whose payload is shorter than
  -- 2 ^ 32 bytes, adds it at the end.
  pub append-IsLog :
      (es : List E) (log : DiskEventLog) (event : E)
      → C.deserialize_event (C.serialize_event event) ≡ ok event
      → length (C.serialize_event event) < 4294967296
      → IsLog es log
      → (log' : DiskEventLog) × (append C event log ≡ ok log') × IsLog (es ++ event ∷ []) log'
  unfolding append
  append-IsLog es log event decodes short h =
      let payload = C.serialize_event event in
      let (header, packed) = pack_header-ok (length payload) short in
      let r : IsRecord C event (header ++ payload) = record {
        header = header;
        payload = payload;
        joined = refl;
        is_header = pack_header-IsHeader (length payload) header packed;
        decodes = decodes;
      } in
      let file' = log.file ++ (header ++ payload) in
      let log' = record log { file = file'; count = log.count + 1 } in
      (
        log',
        rw (packed, append_assoc log.file header payload) refl,
        record {
          records = Records-append es log.file event (header ++ payload) h.records r;
          counted = omega (arith, h.counted, length-append es (event ∷ []));
          cache = record {
            offsets = λ k v m.
                IsAt-append es log.file event (header ++ payload) k v r (h.cache.offsets k v m);
            size = h.cache.size;
          };
        },
      )

  -- The events with an index from `start` to before `end`, of those that there are.
  abbrev pub slice : (start end : ℕ) → List E → List E
  slice start end es = take (min end (length es) - start) (drop start es)

  pub read_between-IsLog :
      (es : List E) (log : DiskEventLog) (start end : ℕ)
      → IsLog es log
      → end ≤ length es
      → (log' : DiskEventLog) × (read_between C start end log
          ≡ ok (take (end - start) (drop start es), log'))
        × IsLog es log'
  unfolding read_between
  read_between-IsLog es log start end h le = elim (Bool-cases (leb end start)) [
    | inl nothing ↦
        let none_asked : end - start ≡ 0 = ground arith in (log, rw (nothing, none_asked) refl, h)
    | inr some_asked ↦
        let (at, cache) =
          seek_to-IsAt C es log.file start log.offset_cache (start-IsAt es log.file h.records)
            (ground arith) h.cache in
        let (position, cache') = seek_to start log.file log.offset_cache in
        let (after, e, at') =
          read_records-IsAt C (end - start) es log.file start position at (ground arith) in
        let there_is : start + (end - start) ≡ end = ground arith in
        let at_end = subst (λ i. IsAt C es log.file i after) there_is at' in
        let final = if ltb end log.count then cache_offset end after cache' else cache' in
        let good : IsCache C es log.file final = elim (Bool-cases (ltb end log.count)) [
          | inl more ↦ rw more (cache_offset-IsCache C es log.file end after cache' at_end cache)
          | inr all ↦ rw all cache
        ] in
        (
          record log { offset_cache = final },
          rw (some_asked, e) refl,
          record { records = h.records; counted = h.counted; cache = good },
        )
  ]

  -- Whatever the offsets that are cached, reading a range of indices gives the events of the range, of those
  -- that there are, in their order. The log keeps its events, and its cache stays right.
  pub read_range-IsLog :
      (es : List E) (log : DiskEventLog) (start end : ℕ)
      → IsLog es log
      → (log' : DiskEventLog) × (read_range C (pos start) (pos end) log
          ≡ ok (slice start end es, log'))
        × IsLog es log'
  unfolding read_range
  read_range-IsLog es log start end h =
      let (log', e, h') =
        read_between-IsLog es log start (min end log.count) h (omega (arith, h.counted)) in
      (log', rw (← h.counted) e, h')
