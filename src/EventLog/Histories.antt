-- ===== src/EventLog/Histories.antt =====
-- A log that is written and read in turns, against the list of the events written so far.
use awesome_distributed_ai_i.Base.{
  ℕ, ◌<◌, ◌≡◌, refl, sym, ap, subst, inl, inr, List, [], ◌∷◌, ◌++◌, ◌==◌, In, here, there, length,
  take, arith, Bool-cases, Result, ok, ◌>>=◌,
}
use awesome_distributed_ai_i.Base.Int.{pos}
use awesome_distributed_ai_i.EventLog.{Codec, DiskEventLog, new, append, read_range, read_all}
use awesome_distributed_ai_i.EventLog.Records.{append_assoc, append_nil}
use awesome_distributed_ai_i.EventLog.Cache.{read_records-IsAt}
use awesome_distributed_ai_i.EventLog.Reading.{
  IsLog, new-IsLog, append-IsLog, read_range-IsLog, start-IsAt, slice,
}

pub data Operation (E : Type 0) : Type 0 where
  write : E → Operation E
  ask : (start end : ℕ) → Operation E

module _ {E : Type 0} (C : Codec E) where
  -- The operations one after another: what each reading gave, and the log at the end.
  unfoldable pub run : List (Operation E) → DiskEventLog → Result (List (List E) × DiskEventLog)
  run [] log = ok ([], log)
  run (write event ∷ operations) log = do log' ← append C event log; run operations log'
  run (ask start end ∷ operations) log = do
    (events, log') ← read_range C (pos start) (pos end) log
    (answers, final) ← run operations log'
    ok (events ∷ answers, final)

  -- The same on the list of the events.
  unfoldable pub run_list : List (Operation E) → List E → List (List E) × List E
  run_list [] es = ([], es)
  run_list (write event ∷ operations) es = run_list operations (es ++ event ∷ [])
  run_list (ask start end ∷ operations) es =
      let (answers, final) = run_list operations es in (slice C start end es ∷ answers, final)

  -- The payload gives the event back, and its length fits the header.
  pub record IsWritable (event : E) : Type 0 where
    pub decodes : C.deserialize_event (C.serialize_event event) ≡ ok event
    pub fits : length (C.serialize_event event) < 4294967296

  abbrev AllWritable : List (Operation E) → Type 0
  AllWritable [] = Unit
  AllWritable (write event ∷ operations) = IsWritable event × AllWritable operations
  AllWritable (ask start end ∷ operations) = AllWritable operations

  -- Whatever is appended to a log and read from it in turns, nothing is raised, each range that is
  -- read is the range of the list of the events appended before, and the log at the end
  -- keeps exactly the events that the list has at the end. The log may hold events at the start. The payload of every
  -- event appended gives the event back, and is shorter than 2 ^ 32 bytes.
  pub run-run_list :
      (operations : List (Operation E)) (es : List E) (log : DiskEventLog)
      → AllWritable operations
      → IsLog C es log
      → (final : DiskEventLog) × (run operations log ≡ ok ((run_list operations es).0, final))
        × IsLog C (run_list operations es).1 final
  unfolding run run_list
  run-run_list [] es log writable h = (log, refl, h)
  run-run_list (write event ∷ operations) es log (now, later) h =
      let (log', e, h') = append-IsLog C es log event now.decodes now.fits h in
      let (final, e', h'') = run-run_list operations (es ++ event ∷ []) log' later h' in
      (final, rw (e, e') refl, h'')
  run-run_list (ask start end ∷ operations) es log writable h =
      let (log', e, h') = read_range-IsLog C es log start end h in
      let (final, e', h'') = run-run_list operations es log' writable h' in
      (final, rw (e, e') refl, h'')

  drop_all : (es : List E) → take (length es) es ≡ es
  drop_all [] = refl
  drop_all (e ∷ es) = ap (λ l. e ∷ l) (drop_all es)

  -- Reading the whole of a log gives its events.
  pub read_all-IsLog : (es : List E) (log : DiskEventLog) → IsLog C es log → read_all C log ≡ ok es
  unfolding read_all
  read_all-IsLog es log h = elim (Bool-cases (log.count == 0)) [
    | inl empty ↦ rw empty (nothing_there es log h (ground arith))
    | inr full ↦
        let (after, e, at) =
          read_records-IsAt C (length es) es log.file 0 0 (start-IsAt C es log.file h.records)
            (omega arith) in
        rw (full, h.counted, e, drop_all es) refl
  ]
    where
      nothing_there :
          (es : List E) (log : DiskEventLog) → IsLog C es log → log.count ≡ 0 → ok [] ≡ ok es
      nothing_there [] log h empty = refl
      nothing_there (e ∷ es) log h empty = absurd (omega (arith, h.counted))

  -- All events written to a new log one after another.
  unfoldable pub written : List E → DiskEventLog → Result DiskEventLog
  written [] log = ok log
  written (event ∷ events) log = do log' ← append C event log; written events log'

  written-IsLog :
      (events es : List E) (log : DiskEventLog)
      → ((event : E) → In event events → IsWritable event)
      → IsLog C es log
      → (log' : DiskEventLog) × (written events log ≡ ok log') × IsLog C (es ++ events) log'
  unfolding written
  written-IsLog [] es log writable h =
      (log, refl, subst (λ l. IsLog C l log) (sym (append_nil es)) h)
  written-IsLog (event ∷ events) es log writable h =
      let now = writable event (here refl) in
      let (log1, e, h1) = append-IsLog C es log event now.decodes now.fits h in
      let (log', e', h') =
        written-IsLog events (es ++ event ∷ []) log1 (λ x m. writable x (there m)) h1 in
      (log', rw e e', subst (λ l. IsLog C l log') (append_assoc es (event ∷ []) events) h')

  -- Events written to a new log one after another are what reading the whole log gives: nothing
  -- is raised, none is lost or changed, and they keep their order. The payload of each gives the event
  -- back, and is shorter than 2 ^ 32 bytes.
  pub written-read_all :
      (events : List E)
      → ((event : E) → In event events → IsWritable event)
      → (log : DiskEventLog) × (written events new ≡ ok log) × (read_all C log ≡ ok events)
  written-read_all events writable =
      let (log, e, h) = written-IsLog events [] new writable (new-IsLog C) in
      (log, e, read_all-IsLog events log h)
