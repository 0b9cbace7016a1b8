-- ===== src/Message/Record.antt =====
-- write.go: the records of message format 2. A write is `none` where it does not come back: the loop
-- of writeVarInt does not end, or `msgs[0]` panics.
pub mod Length
use mathlib.Core.Option
use kafka_go.Prelude.{ℕ, ◌+◌, ◌-◌, ◌%◌, ◌^◌, List, [], ◌∷◌, ◌++◌, Option, none, some, length}
use kafka_go.Wire.Bytes.{Slice, content}
use kafka_go.Wire.Write.{write_int8, write_int16, write_int32, write_int64}
use kafka_go.Wire.Size.{◌⊕◌}
use kafka_go.Wire.VarInt.{write_var_int, var_int_len}
use kafka_go.Protocol.Frame.{◌⊖◌}
use kafka_go.Protocol.Direct.{minus_one}
use kafka_go.Time.{Time, timestamp, sub_time, int64_of}
use kafka_go.Message.{Header, Message}
use kafka_go.Message.Crc.{crc_update, castagnoli}

-- One write after the other, and the sum of two int sizes.
infixr 40 ◌⧺◌
abbrev pub ◌⧺◌ : Option (List ℕ) → Option (List ℕ) → Option (List ℕ)
none ⧺ b = none
some a ⧺ none = none
some a ⧺ some b = some (a ++ b)

infixr 40 ◌⊞◌
abbrev pub ◌⊞◌ : Option ℕ → Option ℕ → Option ℕ
none ⊞ n = none
some m ⊞ none = none
some m ⊞ some n = some ((m + n) % 2 ^ 64)

-- `int64(len(b))`
abbrev pub len64 : {A : Type 0} → List A → ℕ
len64 b = length b % 2 ^ 64

-- A length, as a variable-length integer, and the bytes.
unfoldable pub size_counted : List ℕ → Option ℕ
size_counted b = var_int_len (len64 b) ⊞ some (len64 b)

unfoldable pub write_counted : List ℕ → Option (List ℕ)
write_counted b = write_var_int (len64 b) ⧺ some b

-- The loops over the headers.
unfoldable pub size_headers : List Header → Option ℕ
size_headers [] = some 0
size_headers (h ∷ hs) = size_counted h.key ⊞ size_counted (content h.value) ⊞ size_headers hs

unfoldable pub write_headers : List Header → Option (List ℕ)
write_headers [] = some []
write_headers (h ∷ hs) = write_counted h.key ⧺ write_counted (content h.value) ⧺ write_headers hs

unfoldable pub record_size : Message → ℕ → ℕ → Option ℕ
record_size msg timestamp_delta offset_delta =
    some 1
    ⊞ var_int_len timestamp_delta
    ⊞ var_int_len offset_delta
    ⊞ size_counted (content msg.key)
    ⊞ size_counted (content msg.value)
    ⊞ var_int_len (len64 msg.headers)
    ⊞ size_headers msg.headers

-- What follows the size of the record.
unfoldable pub record_fields : ℕ → ℕ → ℕ → Message → Option (List ℕ)
record_fields attributes timestamp_delta offset_delta msg =
    some (write_int8 attributes)
    ⧺ write_var_int timestamp_delta
    ⧺ write_var_int offset_delta
    ⧺ write_counted (content msg.key)
    ⧺ write_counted (content msg.value)
    ⧺ write_var_int (len64 msg.headers)
    ⧺ write_headers msg.headers

-- `int64(msg.Time.Sub(baseTime))`, in nanoseconds.
unfoldable pub delta_of : Message → Time → ℕ
delta_of msg base_time = int64_of (sub_time msg.time base_time)

unfoldable pub write_record : ℕ → Time → ℕ → Message → Option (List ℕ)
write_record attributes base_time offset msg =
    Option.bind (record_size msg (delta_of msg base_time) offset) write_var_int
    ⧺ record_fields attributes (delta_of msg base_time) offset msg

-- `for i, msg := range msgs`, from an index.
unfoldable pub write_records : Time → ℕ → List Message → Option (List ℕ)
write_records base_time i [] = some []
write_records base_time i (msg ∷ msgs) =
    write_record 0 base_time i msg ⧺ write_records base_time (i + 1) msgs

unfoldable pub record_batch_header_size : ℕ
record_batch_header_size = 8 + 4 + 4 + 1 + 4 + 2 + 4 + 8 + 8 + 8 + 2 + 4 + 4

-- `int32(sz + varIntLen(int64(sz)))` of a record.
unfoldable pub sized_record : Message → ℕ → ℕ → Option ℕ
sized_record msg timestamp_delta i =
    Option.bind (record_size msg timestamp_delta i)
      λ sz. Option.map (λ n. n % 2 ^ 32) (some sz ⊞ var_int_len sz)

unfoldable pub add_records : Time → ℕ → ℕ → List Message → Option ℕ
add_records base_time i size [] = some size
add_records base_time i size (msg ∷ msgs) =
    Option.bind (sized_record msg (delta_of msg base_time) i)
      λ n. add_records base_time (i + 1) (size ⊕ n) msgs

unfoldable pub record_batch_size : List Message → Option ℕ
record_batch_size [] = none
record_batch_size (first ∷ msgs) = add_records first.time 0 record_batch_header_size (first ∷ msgs)

-- `msgs[len(msgs)-1]`, with the first message apart.
unfoldable pub last_of : Message → List Message → Message
last_of first [] = first
last_of first (msg ∷ msgs) = last_of msg msgs

-- What the checksum is computed of: crcBuf.
unfoldable pub batch_summed : ℕ → Message → List Message → List ℕ → List ℕ
batch_summed attributes first msgs records =
    write_int16 attributes
    ++ (write_int32 (length msgs % 2 ^ 32)
        ++ (write_int64 (timestamp first.time)
            ++ (write_int64 (timestamp ((last_of first msgs).time))
                ++ (write_int64 (2 ^ 64 - 1)
                    ++ (write_int16 (2 ^ 16 - 1)
                        ++ (write_int32 minus_one
                            ++ (write_int32 (length (first ∷ msgs) % 2 ^ 32) ++ records)))))))

unfoldable pub batch_bytes : ℕ → ℕ → Message → List Message → List ℕ → List ℕ
batch_bytes attributes size first msgs records =
    let summed = batch_summed attributes first msgs records in
    write_int64 0
    ++ (write_int32 (size ⊖ 12)
        ++ (write_int32 minus_one
            ++ (write_int8 2 ++ (write_int32 (crc_update castagnoli 0 summed) ++ summed))))

-- The records are what the callback `write` writes.
unfoldable pub write_record_batch : ℕ → ℕ → Option (List ℕ) → List Message → Option (List ℕ)
write_record_batch attributes size records [] = none
write_record_batch attributes size records (first ∷ msgs) =
    Option.map (batch_bytes attributes size first msgs) records
