-- ===== src/EventLog/Records.antt =====
-- The bytes of a log: one record for each event, and what reading at the offset of one gives.
use awesome_distributed_ai_i.Base.{
  ℕ, ◌+◌, ◌≡◌, refl, sym, ap, ◌∙◌, subst, false, some, List, [], ◌∷◌, ◌++◌, ltb, length, take, drop,
  length-append, arith, ok,
}
use awesome_distributed_ai_i.EventLog.{Byte, header_size, read, skip_record, Codec, read_record}
use awesome_distributed_ai_i.EventLog.Header.{IsHeader}

module _ {ℓ} {A : Type ℓ} where
  drop-length : (xs ys : List A) → drop (length xs) (xs ++ ys) ≡ ys
  drop-length [] ys = refl
  drop-length (x ∷ xs) ys = drop-length xs ys

  take-length : (xs ys : List A) → take (length xs) (xs ++ ys) ≡ xs
  take-length [] ys = refl
  take-length (x ∷ xs) ys = ap (λ l. x ∷ l) (take-length xs ys)

  pub append_assoc : (xs ys zs : List A) → (xs ++ ys) ++ zs ≡ xs ++ (ys ++ zs)
  append_assoc [] ys zs = refl
  append_assoc (x ∷ xs) ys zs = ap (λ l. x ∷ l) (append_assoc xs ys zs)

  pub append_nil : (xs : List A) → xs ++ [] ≡ xs
  append_nil [] = refl
  append_nil (x ∷ xs) = ap (λ l. x ∷ l) (append_nil xs)

-- The file has the bytes at the position.
pub record HasAt (file : List Byte) (position : ℕ) (bytes : List Byte) : Type 0 where
  pub before : List Byte
  pub after : List Byte
  pub split : file ≡ before ++ (bytes ++ after)
  pub reached : length before ≡ position

-- Reading as many bytes as the file has there gives these bytes.
read-HasAt :
    (n : ℕ) (file : List Byte) (position : ℕ) (bytes : List Byte)
    → HasAt file position bytes
    → length bytes ≡ n
    → read n file position ≡ (bytes, position + n)
unfolding read
read-HasAt n file position bytes h size =
    rw
      (
        h.split,
        ← h.reached,
        drop-length h.before (bytes ++ h.after),
        ← size,
        take-length bytes h.after,
      )
      refl

-- What stands there is cut in two.
pub HasAt-append :
    (file : List Byte) (position : ℕ) (xs ys : List Byte)
    → HasAt file position (xs ++ ys)
    → HasAt file position xs × HasAt file (position + length xs) ys
HasAt-append file position xs ys h = (
  record {
    before = h.before;
    after = ys ++ h.after;
    split = h.split ∙ ap (λ l. h.before ++ l) (append_assoc xs ys h.after);
    reached = h.reached;
  },
  record {
    before = h.before ++ xs;
    after = h.after;
    split =
        h.split
        ∙ ap (λ l. h.before ++ l) (append_assoc xs ys h.after)
        ∙ sym (append_assoc h.before xs (ys ++ h.after));
    reached = omega (arith, length-append h.before xs, h.reached);
  },
)

module _ {E : Type 0} (C : Codec E) where
  -- A record: the header of the payload's length, and the payload that gives the event back.
  pub record IsRecord (event : E) (bytes : List Byte) : Type 0 where
    pub header : List Byte
    pub payload : List Byte
    pub joined : bytes ≡ header ++ payload
    pub is_header : IsHeader (length payload) header
    pub decodes : C.deserialize_event payload ≡ ok event

  pub skip_record-IsRecord :
      (file : List Byte) (position : ℕ) (event : E) (bytes : List Byte)
      → IsRecord event bytes
      → HasAt file position bytes
      → skip_record file position ≡ position + length bytes
  unfolding skip_record
  skip_record-IsRecord file position event bytes r h =
      let (first, second) = HasAt-append file position r.header r.payload (rw r.joined at h) in
      let enough : ltb (length r.header) header_size ≡ false = ground (arith, r.is_header.size) in
      let size = ap (λ (l : List Byte). length l) r.joined in
      rw
        (
          read-HasAt header_size file position r.header first r.is_header.size,
          enough,
          r.is_header.value,
        )
        (omega (arith, size, length-append r.header r.payload, r.is_header.size))

  pub read_record-IsRecord :
      (file : List Byte) (position : ℕ) (event : E) (bytes : List Byte)
      → IsRecord event bytes
      → HasAt file position bytes
      → read_record C file position ≡ ok (some event, position + length bytes)
  unfolding read_record
  read_record-IsRecord file position event bytes r h =
      let (first, second) = HasAt-append file position r.header r.payload (rw r.joined at h) in
      let enough : ltb (length r.header) header_size ≡ false = ground (arith, r.is_header.size) in
      let whole : ltb (length r.payload) (length r.payload) ≡ false = ground arith in
      let size = ap (λ (l : List Byte). length l) r.joined in
      let end : position + 4 + length r.payload ≡ position + length bytes =
        omega (arith, size, length-append r.header r.payload, r.is_header.size) in
      rw
        (
          read-HasAt header_size file position r.header first r.is_header.size,
          enough,
          r.is_header.value,
          read-HasAt (length r.payload) file (position + header_size) r.payload
              (subst (λ n. HasAt file (position + n) r.payload) r.is_header.size second) refl,
          whole,
          r.decodes,
          end,
        )
        refl
