-- ===== src/EventLog/Tests.antt =====
-- Logs of small events, and the theorems at these inputs.
use awesome_distributed_ai_i.Base.{
  ℕ, ◌<◌, ◌≤◌, ◌≡◌, refl, ◌⊎◌, List, [], ◌∷◌, ◌==◌, if◌then◌else◌, length, All, arith, Result, ok,
  raise, value_error, overflow_error,
}
use awesome_distributed_ai_i.Base.Dict.{get, remove}
use awesome_distributed_ai_i.Base.Int.{pos, negsuc}
use awesome_distributed_ai_i.EventLog.{
  Byte, Codec, DiskEventLog, new, pack_header, unpack_header, read, skip_record, read_record,
  read_records, skip_records, written_last, cache_offset, scan_from, seek_to, read_between,
  read_range, read_all, append, header_size,
}
use awesome_distributed_ai_i.EventLog.Header.{pack_header-unpack_header}
use awesome_distributed_ai_i.EventLog.Reading.{IsLog, new-IsLog}
use awesome_distributed_ai_i.EventLog.Histories.{
  Operation, write, ask, run, run_list, run-run_list, IsWritable, written, written-read_all,
}

-- The payload of an event is the event and a mark.
abbrev parse : List Byte → Result ℕ
parse (event ∷ mark ∷ []) = if mark == 7 then ok event else raise value_error
parse _ = raise value_error

abbrev marked : Codec ℕ
marked = record { serialize_event = λ event. event ∷ 7 ∷ []; deserialize_event = parse }

program : Unit {0}
unfolding get remove pack_header unpack_header read skip_record read_record read_records
    skip_records written_last cache_offset scan_from seek_to read_between read_range read_all append
    run run_list written
program = tt

abbrev turns : List (Operation ℕ)
turns = write 50 ∷ write 60 ∷ write 70 ∷ ask 1 2 ∷ ask 2 9 ∷ write 80 ∷ ask 0 9 ∷ []

turns-run_list :
    run_list marked turns []
    ≡ ((60 ∷ []) ∷ (70 ∷ []) ∷ (50 ∷ 60 ∷ 70 ∷ 80 ∷ []) ∷ [], 50 ∷ 60 ∷ 70 ∷ 80 ∷ [])
unfolding program
turns-run_list = refl

abbrev three : DiskEventLog
three = record {
  file = 0 ∷ 0 ∷ 0 ∷ 2 ∷ 50 ∷ 7 ∷ 0 ∷ 0 ∷ 0 ∷ 2 ∷ 60 ∷ 7 ∷ [];
  offset_cache = [];
  count = 2;
}

two_written : written marked (50 ∷ 60 ∷ []) new ≡ ok three
unfolding program
two_written = refl

-- A read in the middle caches where it began.
second :
    read_range marked (pos 1) (pos 5) three
    ≡ ok (60 ∷ [], record three { offset_cache = (1, 6) ∷ [] })
unfolding program
second = refl

negative : read_range marked (negsuc 0) (pos 5) three ≡ ok ([], three)
unfolding program
negative = refl

writable : (event : ℕ) → IsWritable marked event
writable event = record { decodes = refl; fits = omega arith }

run-run_list_example :
    (final : DiskEventLog) × (run marked turns new ≡ ok ((run_list marked turns []).0, final))
    × IsLog marked (run_list marked turns []).1 final
run-run_list_example =
    run-run_list marked turns [] new (writable 50, (writable 60, (writable 70, (writable 80, tt))))
      (new-IsLog marked)

written-read_all_example :
    (log : DiskEventLog) × (written marked (50 ∷ 60 ∷ []) new ≡ ok log)
    × (read_all marked log ≡ ok (50 ∷ 60 ∷ []))
written-read_all_example = written-read_all marked (50 ∷ 60 ∷ []) (λ event m. writable event)

pack_header-unpack_header_example :
    ((header : List Byte) × (pack_header 70000 ≡ ok header)
      × (length header ≡ header_size)
      × (unpack_header header ≡ 70000)
      × All (λ b. b < 256) header)
    ⊎ ((4294967296 ≤ 70000) × (pack_header 70000 ≡ raise overflow_error))
pack_header-unpack_header_example = pack_header-unpack_header 70000
