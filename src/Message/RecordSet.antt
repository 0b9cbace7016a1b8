-- ===== src/Message/RecordSet.antt =====
-- message.go: the reader of record batches, message format 2.
pub mod RoundTrip
pub mod BatchHeader
pub mod Batch
use Prim.Native.Nat.{bit_and}
use kafka_go.Prelude.{
  ℕ, zero, suc, ◌+◌, ◌-◌, ◌%◌, ◌^◌, List, [], ◌∷◌, ◌++◌, Option, none, some, length, take, ltb, ℤ,
  pos, negsuc, ltb_ℤ, sub_ℤ, ◌==◌, if◌then◌else◌,
}
use kafka_go.Wire.Bytes.{Slice, signed32, signed64}
use kafka_go.Wire.Reader.{
  Error, short_read, eof, negative_count, unknown_codec, codec_error, buffer_full, panics, Cursor,
  Outcome, done, fail, Reader, pure, throw, ◌>>=◌, ◌>>◌, at,
}
use kafka_go.Wire.Read.{
  read_int8, read_int16, read_int32, read_int64, read_new_bytes, read_new_string, read_times,
  discard_n,
}
use kafka_go.Wire.VarInt.{read_var_int}
use kafka_go.Protocol.Frame.{◌⊖◌}
use kafka_go.Message.{Header}
use kafka_go.Message.Compression.{Codec, Codecs, resolve_codec}
use kafka_go.Message.Stack.{Read}

pub record SetHeader : Type 0 where
  pub first_offset : ℕ
  pub size : ℕ
  pub partition_leader_epoch : ℕ
  pub magic : ℕ
  pub crc : ℕ
  pub batch_attributes : ℕ
  pub last_offset_delta : ℕ
  pub first_timestamp : ℕ
  pub max_timestamp : ℕ
  pub producer_id : ℕ
  pub producer_epoch : ℕ
  pub first_sequence : ℕ

unfoldable pub compression : SetHeader → ℕ
compression h = bit_and h.batch_attributes 7 % 2 ^ 8

-- The fields of a header, and the number of records behind it.
unfoldable pub read_header : Reader (SetHeader × ℤ)
read_header = do
  first_offset ← read_int64
  size ← read_int32
  partition_leader_epoch ← read_int32
  magic ← read_int8
  crc ← read_int32
  batch_attributes ← read_int16
  last_offset_delta ← read_int32
  first_timestamp ← read_int64
  max_timestamp ← read_int64
  producer_id ← read_int64
  producer_epoch ← read_int16
  first_sequence ← read_int32
  message_count ← read_int32
  pure (
    record {
      first_offset = first_offset;
      size = size;
      partition_leader_epoch = partition_leader_epoch;
      magic = magic;
      crc = crc;
      batch_attributes = batch_attributes;
      last_offset_delta = last_offset_delta;
      first_timestamp = first_timestamp;
      max_timestamp = max_timestamp;
      producer_id = producer_id;
      producer_epoch = producer_epoch;
      first_sequence = first_sequence;
    },
    signed32 message_count,
  )

-- A length that a variable-length integer gives, and what it measures.
unfoldable pub read_counted : {A : Type 0} → (ℤ → Reader A) → Reader A
read_counted m = do n ← read_var_int; m (signed64 n)

unfoldable pub read_message_header : Reader Header
read_message_header = do
  key ← read_counted read_new_string
  value ← read_counted read_new_bytes
  pure (record { key = key; value = value })

-- `make([]Header, headerCount)` and the loop over it.
unfoldable pub read_headers : ℤ → Reader (List Header)
read_headers (pos n) = read_times n read_message_header
read_headers (negsuc n) = throw panics

-- bufio's `Peek`, of a buffer of 4096 bytes.
abbrev pub buffer_size : ℕ
buffer_size = 4096

unfoldable pub peek : ℤ → Reader (List ℕ)
peek (negsuc n) c = fail negative_count c
peek (pos n) c =
    if ltb buffer_size n
    then fail buffer_full c
    else if ltb (length c.input) n
    then fail eof c
    else done (take n c.input) c

-- The records of a compressed batch: `batchRemain` bytes, decompressed.
unfoldable pub read_batch : Codec → ℤ → Reader (List ℕ)
read_batch codec batch_remain c =
    if ltb_ℤ (pos c.remain) batch_remain
    then fail short_read c
    else (do
      b ← peek batch_remain
      records ← elim (codec.decode b) as (λ _. Reader (List ℕ)) [
        | none ↦ throw codec_error
        | some bs ↦ pure bs
      ]
      discard_n batch_remain
      pure records)
        c

-- messageSetReaderV2: where it reads, the readers to go back to, the records left of the batch, and
-- the batch's header. A header that was read in part is not kept: the reader is given up then.
pub record SetReader : Type 0 where
  pub cursor : Cursor
  pub parent : List Cursor
  pub message_count : ℤ
  pub header : SetHeader

-- What readMessage gives, and the reader after it.
pub data Step (A : Type 0) : Type 0 where
  got : A → SetReader → Step A
  failed : Error → SetReader → Step A

-- `r.remain, err = ...; if err != nil { return }`
abbrev pub on_reader : {A B : Type 0} → Outcome A → SetReader → (A → SetReader → Step B) → Step B
on_reader (done a c) r f = f a (record r { cursor = c })
on_reader (fail e c) r f = failed e (record r { cursor = c })

-- `if r.remain == 0 { if r.parent != nil { r.readerStack = r.parent } }`
unfoldable pub leave : SetReader → SetReader
leave r = elim r.parent [
  | [] ↦ r
  | c ∷ cs ↦ if r.cursor.remain == 0 then record r { cursor = c; parent = cs } else r
]

-- The branch for a compressed batch, then what follows.
unfoldable pub decompress : {A : Type 0} → Codecs → SetReader → (SetReader → Step A) → Step A
unfolding compression
decompress codecs r next =
    if compression r.header == 0
    then next r
    else elim (resolve_codec codecs (compression r.header)) [
      | none ↦ failed unknown_codec r
      | some codec ↦
          on_reader (read_batch codec (signed32 (r.header.size ⊖ 49)) r.cursor) r λ records r.
            next (record r { cursor = at records (length records); parent = r.cursor ∷ r.parent })
    ]

-- `if r.messageCount == 0 { ... }`, then what follows.
unfoldable pub open_batch : {A : Type 0} → Codecs → SetReader → (SetReader → Step A) → Step A
open_batch {A} codecs r next = elim r.message_count as (λ _. Step A) [
  | pos zero ↦ on_reader (read_header (leave r).cursor) (leave r) λ (header, count) r.
      decompress codecs (record r { header = header; message_count = count }) next
  | other ↦ next r
]

module _ {K V : Type 0} (key : ℤ → Reader K) (value : ℤ → Reader V) where
  -- A record, behind the header of its batch.
  unfoldable pub read_record : SetHeader → Reader (Read K V)
  read_record h = do
    size ← read_var_int
    attributes ← read_int8
    timestamp_delta ← read_var_int
    offset_delta ← read_var_int
    k ← read_counted key
    v ← read_counted value
    header_count ← read_var_int
    headers ← read_headers (signed64 header_count)
    pure (record {
      offset = (h.first_offset + offset_delta) % 2 ^ 64;
      timestamp = (h.first_timestamp + timestamp_delta) % 2 ^ 64;
      key = k;
      value = v;
      headers = headers;
    })

  unfoldable pub read_message : Codecs → SetReader → Step (Read K V)
  read_message codecs r = open_batch codecs r λ r.
      on_reader (read_record r.header r.cursor) r
        λ m r. got m (record r { message_count = sub_ℤ r.message_count (pos 1) })

unfoldable pub remaining : SetReader → ℕ
remaining r = r.cursor.remain

unfoldable pub discard_set : SetReader → Option Error × SetReader
discard_set r = elim (discard_n (pos r.cursor.remain) r.cursor) [
  | done _ c ↦ (none, record r { cursor = c })
  | fail e c ↦ (some e, record r { cursor = c })
]
