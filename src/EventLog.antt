-- ===== src/EventLog.antt =====
-- src/exo/utils/disk_event_log.py: the log of events in a file, with the offsets that it caches. The
-- file is its bytes, and what was written can be read at once, as it can after `flush`. The format of
-- an event's payload is the work of other packages, so it is a parameter.
pub mod Header
pub mod Records
pub mod Cache
pub mod Reading
pub mod Histories
pub mod Tests
use awesome_distributed_ai_i.Base.{
  ℕ, zero, suc, ◌+◌, ◌-◌, ◌*◌, ◌/◌, ◌%◌, min, Bool, true, false, Option, none, some, List, [], ◌∷◌,
  ◌++◌, ltb, leb, ◌==◌, if◌then◌else◌, length, take, drop, Result, ok, raise, overflow_error, ◌>>=◌,
}
use awesome_distributed_ai_i.Base.Dict.{Dict, get, has, remove}
use awesome_distributed_ai_i.Base.Int.{ℤ, pos, negsuc}

abbrev pub Byte : Type 0
Byte = ℕ

-- `_HEADER_SIZE` and `_OFFSET_CACHE_SIZE`
abbrev pub header_size : ℕ
header_size = 4

abbrev pub offset_cache_size : ℕ
offset_cache_size = 128

-- `len(packed).to_bytes(_HEADER_SIZE, byteorder="big")`
unfoldable pub pack_header : ℕ → Result (List Byte)
pack_header n =
    if ltb n 4294967296
    then ok (n / 16777216 % 256 ∷ n / 65536 % 256 ∷ n / 256 % 256 ∷ n % 256 ∷ [])
    else raise overflow_error

-- `int.from_bytes(header, byteorder="big")`, with the value of the bytes before.
abbrev pub from_bytes : ℕ → List Byte → ℕ
from_bytes before [] = before
from_bytes before (b ∷ bytes) = from_bytes (before * 256 + b) bytes

unfoldable pub unpack_header : List Byte → ℕ
unpack_header header = from_bytes 0 header

-- `f.read(n)` of a file at a position: the bytes, which are fewer at the end of the file, and the new position.
unfoldable pub read : (n : ℕ) → (file : List Byte) → (position : ℕ) → List Byte × ℕ
read n file position = let bytes = take n (drop position file) in (bytes, position + length bytes)

-- The new position. What `_skip_record` returns is not used.
unfoldable pub skip_record : List Byte → ℕ → ℕ
skip_record file position =
    let (header, after) = read header_size file position in
    if ltb (length header) header_size then after else after + unpack_header header

-- An event as a payload, and back; the latter may raise.
pub record Codec (E : Type 0) : Type 0 where
  pub serialize_event : E → List Byte
  pub deserialize_event : List Byte → Result E

-- `OrderedDict.move_to_end`, after the value was written.
unfoldable pub written_last : ℕ → ℕ → Dict ℕ → Dict ℕ
written_last idx offset cache = remove idx cache ++ (idx, offset) ∷ []

-- `popitem(last=False)`
abbrev pub pop_first : Dict ℕ → Dict ℕ
pop_first [] = []
pop_first (oldest ∷ cache) = cache

unfoldable pub cache_offset : (idx offset : ℕ) → Dict ℕ → Dict ℕ
cache_offset idx offset cache =
    let written = written_last idx offset cache in
    if ltb offset_cache_size (length written) then pop_first written else written

-- The loop over the cache: the last cached index before the target, and its offset.
unfoldable pub scan_from : (target_idx : ℕ) → ℕ × ℕ → Dict ℕ → ℕ × ℕ
scan_from target_idx best [] = best
scan_from target_idx best ((cached_idx, offset) ∷ cache) =
    scan_from target_idx (if ltb cached_idx target_idx then (cached_idx, offset) else best) cache

unfoldable pub skip_records : ℕ → List Byte → ℕ → ℕ
skip_records zero file position = position
skip_records (suc n) file position = skip_records n file (skip_record file position)

abbrev seek_cached : (target_idx : ℕ) → Option ℕ → List Byte → Dict ℕ → ℕ × Dict ℕ
seek_cached target_idx (some offset) file cache = (offset, written_last target_idx offset cache)
seek_cached target_idx none file cache =
    let (from_idx, from_offset) = scan_from target_idx (0, 0) cache in
    let position = skip_records (target_idx - from_idx) file from_offset in
    (position, cache_offset target_idx position cache)

-- `_seek_to`: the position, and the cache.
unfoldable pub seek_to : (target_idx : ℕ) → List Byte → Dict ℕ → ℕ × Dict ℕ
seek_to target_idx file cache = seek_cached target_idx (get target_idx cache) file cache

pub record DiskEventLog : Type 0 where
  pub file : List Byte
  pub offset_cache : Dict ℕ
  pub count : ℕ

-- With a new file.
abbrev pub new : DiskEventLog
new = record { file = []; offset_cache = []; count = 0 }

module _ {E : Type 0} (C : Codec E) where
  -- `_read_record`: none at the end of the file, and the position.
  unfoldable pub read_record : List Byte → ℕ → Result (Option E × ℕ)
  read_record file position =
      let (header, after_header) = read header_size file position in
      if ltb (length header) header_size
      then ok (none, after_header)
      else let (payload, after_payload) = read (unpack_header header) file after_header in
        if ltb (length payload) (unpack_header header)
        then ok (none, after_payload)
        else (do event ← C.deserialize_event payload; ok (some event, after_payload))

  abbrev continue_with : Option E → ℕ → Result (List E × ℕ) → Result (List E × ℕ)
  continue_with none after rest = ok ([], after)
  continue_with (some event) after rest = do (events, end) ← rest; ok (event ∷ events, end)

  -- The loop of `read_range` and of `read_all`, with the position where it ends.
  unfoldable pub read_records : ℕ → List Byte → ℕ → Result (List E × ℕ)
  read_records zero file position = ok ([], position)
  read_records (suc n) file position = do
    (event, after) ← read_record file position
    continue_with event after (read_records n file after)

  unfoldable pub append : E → DiskEventLog → Result DiskEventLog
  append event log = do
    let packed = C.serialize_event event
    header ← pack_header (length packed)
    ok (record log { file = log.file ++ header ++ packed; count = log.count + 1 })

  -- From `start` to before `end`, which is at most the number of events.
  unfoldable pub read_between : (start end : ℕ) → DiskEventLog → Result (List E × DiskEventLog)
  read_between start end log =
      if leb end start
      then ok ([], log)
      else let (position, cache) = seek_to start log.file log.offset_cache in
        do
          (events, after) ← read_records (end - start) log.file position
          ok (
            events,
            record log {
              offset_cache = if ltb end log.count then cache_offset end after cache else cache;
            },
          )

  -- The events that the iterator gives when it is run to its end, and the log it leaves.
  unfoldable pub read_range : (start end : ℤ) → DiskEventLog → Result (List E × DiskEventLog)
  read_range (pos start) (pos end) log = read_between start (min end log.count) log
  read_range _ _ log = ok ([], log)

  unfoldable pub read_all : DiskEventLog → Result (List E)
  read_all log =
      if log.count == 0
      then ok []
      else (do (events, after) ← read_records log.count log.file 0; ok events)
