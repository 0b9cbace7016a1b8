-- ===== src/Message/Set.antt =====
-- message.go: the reader of a message set of either format, chosen by the magic byte.
use kafka_go.Prelude.{
  ℕ, ◌+◌, ◌-◌, [], ◌∷◌, Option, none, drop, ltb, leb, ℤ, pos, if◌then◌else◌, ◌==◌,
}
use kafka_go.Wire.Bytes.{make_int}
use kafka_go.Wire.Reader.{
  Error, short_read, unsupported_version, Cursor, Outcome, done, fail, Reader,
}
use kafka_go.Message.Compression.{Codecs}
use kafka_go.Message.Stack.{Levels, Read}
use kafka_go.Message.Stack
use kafka_go.Message.RecordSet.{SetHeader, SetReader, peek}
use kafka_go.Message.RecordSet

-- messageSetReader, which is empty or has a version.
pub data MessageSetReader : Type 0 where
  empty : MessageSetReader
  v1 : Levels → MessageSetReader
  v2 : SetReader → MessageSetReader

-- A header whose fields are zero.
abbrev pub no_header : SetHeader
no_header = record {
  first_offset = 0;
  size = 0;
  partition_leader_epoch = 0;
  magic = 0;
  crc = 0;
  batch_attributes = 0;
  last_offset_delta = 0;
  first_timestamp = 0;
  max_timestamp = 0;
  producer_id = 0;
  producer_epoch = 0;
  first_sequence = 0;
}

-- The offset, the size, the checksum and the magic byte of the first message.
abbrev pub header_length : ℕ
header_length = 8 + 4 + 4 + 1

-- `switch version`, at the bytes that were peeked.
unfoldable pub of_version : ℕ → Cursor → Outcome MessageSetReader
of_version version c =
    if leb version 1
    then done (v1 (record { cursor = c; base = 0 } ∷ [])) c
    else if version == 2
    then done (v2 (record { cursor = c; parent = []; message_count = pos 0; header = no_header })) c
    else fail (unsupported_version version) c

unfoldable pub new_message_set_reader : Reader MessageSetReader
unfolding peek
new_message_set_reader c =
    if ltb c.remain header_length then fail short_read c else elim (peek (pos header_length) c) [
      | fail e c ↦ fail e c
      | done b c ↦ of_version (make_int (drop (header_length - 1) b)) c
    ]

-- What readMessage gives, and the reader after it.
pub data Taken (A : Type 0) : Type 0 where
  got : A → MessageSetReader → Taken A
  failed : Error → MessageSetReader → Taken A

abbrev pub of_stack : {A : Type 0} → Stack.Next A → Taken A
of_stack (Stack.Next.got m ls) = got m (v1 ls)
of_stack (Stack.Next.failed e ls) = failed e (v1 ls)

abbrev pub of_batch : {A : Type 0} → RecordSet.Step A → Taken A
of_batch (RecordSet.Step.got m r) = got m (v2 r)
of_batch (RecordSet.Step.failed e r) = failed e (v2 r)

module _ {K V : Type 0} (codecs : Codecs) (key : ℤ → Reader K) (value : ℤ → Reader V) where
  unfoldable pub read_message : ℕ → ℕ → MessageSetReader → Taken (Read K V)
  read_message fuel min empty = failed short_read empty
  read_message fuel min (v1 ls) = of_stack (Stack.read_message codecs min key value fuel ls)
  read_message fuel min (v2 r) = of_batch (RecordSet.read_message key value codecs r)

unfoldable pub remaining : MessageSetReader → ℕ
remaining empty = 0
remaining (v1 ls) = Stack.remaining ls
remaining (v2 r) = RecordSet.remaining r

unfoldable pub discard_set : MessageSetReader → Option Error × MessageSetReader
discard_set empty = (none, empty)
discard_set (v1 ls) = let (e, ls) = Stack.discard_set ls in (e, v1 ls)
discard_set (v2 r) = let (e, r) = RecordSet.discard_set r in (e, v2 r)
