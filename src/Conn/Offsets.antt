-- ===== src/Conn/Offsets.antt =====
-- conn.go: Offset, Seek, and the requests for the offsets of the partition.
pub mod Bounds
use kafka_go.Prelude.{
  ℕ, Bool, true, false, ◌+◌, ◌-◌, ◌%◌, ◌^◌, List, [], ◌∷◌, ◌++◌, Option, none, some, map, ltb_ℤ,
  ◌==◌, ◌&&◌, ◌||◌, if◌then◌else◌, ltb, leb,
}
use kafka_go.Wire.Bytes.{signed64}
use kafka_go.Wire.Reader.{Error, kafka, bad_whence, Reader, pure, throw, ◌>>=◌, ◌>>◌}
use kafka_go.Wire.Read.{read_array_with, discard_string}
use kafka_go.Time.{Time, timestamp}
use kafka_go.Protocol.Direct.{write_list_offset_request_v1}
use kafka_go.Protocol.ListOffset.{PartitionOffsetV1, read_partition_offset_v1}
use kafka_go.Protocol.Exchange.{exchange, expect_zero_size}
use kafka_go.Protocol.Operations.{
  Called, returned, refused, failed, waiting, undefined_size, conclude, flatten,
}
use kafka_go.Conn.{Conn, first_offset, last_offset}

-- A value or an error.
pub data Result (A : Type 0) : Type 0 where
  ok : A → Result A
  error : Error → Result A

abbrev pub seek_start : ℕ
seek_start = 0

abbrev pub seek_absolute : ℕ
seek_absolute = 1

abbrev pub seek_end : ℕ
seek_end = 2

abbrev pub seek_current : ℕ
seek_current = 3

-- Offset: the offset and the whence.
unfoldable pub offset_of : Conn → ℕ × ℕ
offset_of c =
    if c.offset == first_offset
    then (0, seek_start)
    else if c.offset == last_offset
    then (0, seek_end)
    else (c.offset, seek_absolute)

-- int64 `+` and `-`.
abbrev pub add64 : ℕ → ℕ → ℕ
add64 a b = (a + b) % 2 ^ 64

abbrev pub sub64 : ℕ → ℕ → ℕ
sub64 a b = (a + 2 ^ 64 - b) % 2 ^ 64

-- The second switch over the whence.
unfoldable pub target : ℕ → ℕ → ℕ → ℕ → ℕ
target whence offset first last =
    if whence == seek_start
    then add64 first offset
    else if whence == seek_end
    then sub64 last offset
    else offset

-- `offset < first || offset > last`
unfoldable pub out_of_range : ℕ → ℕ → ℕ → Bool
out_of_range offset first last =
    ltb_ℤ (signed64 offset) (signed64 first) || ltb_ℤ (signed64 last) (signed64 offset)

-- OffsetOutOfRange
abbrev pub offset_out_of_range : Error
offset_out_of_range = kafka 1

-- What follows ReadOffsets.
unfoldable pub move_to : Conn → ℕ → ℕ → Result (ℕ × ℕ) → Result ℕ × Conn
move_to c whence offset (error e) = (error e, c)
move_to c whence offset (ok (first, last)) =
    let o = target whence offset first last in
    if out_of_range o first last
    then (error offset_out_of_range, c)
    else (ok o, record c { offset = o })

-- Seek, with what ReadOffsets returns if it is called, and no other goroutine moving the offset.
unfoldable pub seek : Conn → ℕ → ℕ → Result (ℕ × ℕ) → Result ℕ × Conn
seek c offset whence offsets =
    if leb whence seek_current
    then if whence == seek_absolute && offset == c.offset
      then (ok offset, c)
      else move_to c whence (if whence == seek_current then add64 c.offset offset else offset)
          offsets
    else (error bad_whence, c)

-- The reader in readOffset, for one partition.
unfoldable pub read_offset_partition : Reader ℕ
read_offset_partition = do
  p ← read_partition_offset_v1
  if p.error_code == 0 then pure p.offset else throw (kafka p.error_code)

unfoldable pub read_offset_topic : Reader (List ℕ)
read_offset_topic = do discard_string; read_array_with read_offset_partition

-- `offset = p.Offset` for one after the other.
unfoldable pub last_or : ℕ → List ℕ → ℕ
last_or offset [] = offset
last_or offset (o ∷ os) = last_or o os

unfoldable pub read_offset_response : Reader ℕ
read_offset_response = do
  topics ← read_array_with read_offset_topic
  pure (last_or 0 (flatten topics))

-- readOffset, with its correlation id and what the connection delivers.
unfoldable pub read_offset : Conn → ℕ → ℕ → List ℕ → List ℕ × Called ℕ
read_offset c t id input = (
  write_list_offset_request_v1 id c.client_id c.topic c.partition t,
  conclude (λ _. []) (exchange id (expect_zero_size read_offset_response) input),
)

-- ReadOffset, ReadFirstOffset and ReadLastOffset.
unfoldable pub read_offset_at : Conn → Time → ℕ → List ℕ → List ℕ × Called ℕ
read_offset_at c t id input = read_offset c (timestamp t) id input

unfoldable pub read_first_offset : Conn → ℕ → List ℕ → List ℕ × Called ℕ
read_first_offset c id input = read_offset c first_offset id input

unfoldable pub read_last_offset : Conn → ℕ → List ℕ → List ℕ × Called ℕ
read_last_offset c id input = read_offset c last_offset id input

-- The first call of ReadOffsets has returned: its offset goes with that of the second.
unfoldable pub with_first : ℕ → Called ℕ → Called (ℕ × ℕ)
with_first first (returned last input) = returned (first, last) input
with_first first (refused code input) = refused code input
with_first first (failed e) = failed e
with_first first waiting = waiting
with_first first undefined_size = undefined_size

-- ReadOffsets: the bytes that are sent, and what is returned. The second request has the next id.
unfoldable pub read_offsets : Conn → ℕ → List ℕ → List ℕ × Called (ℕ × ℕ)
unfolding read_first_offset read_last_offset with_first
read_offsets c id input =
    let (sent, a) = read_first_offset c id input in
    elim a [
      | returned first rest ↦
          let (more, b) = read_last_offset c ((id + 1) % 2 ^ 32) rest in
          (sent ++ more, with_first first b)
      | refused code rest ↦ (sent, refused code rest)
      | failed e ↦ (sent, failed e)
      | waiting ↦ (sent, waiting)
      | undefined_size ↦ (sent, undefined_size)
    ]
