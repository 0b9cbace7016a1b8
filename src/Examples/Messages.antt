-- ===== src/Examples/Messages.antt =====
-- Examples for messages: sets and record batches, written and read.
use kafka_go.Prelude.{
  ℕ, ◌+◌, ◌^◌, ◌<◌, ◌≡◌, refl, List, [], ◌∷◌, ◌++◌, none, some, length, pos, arith,
}
use kafka_go.Wire.Bytes.{content}
use kafka_go.Wire.Reader.{at}
use kafka_go.Wire.Read.{read_new_bytes}
use kafka_go.Message.{Message}
use kafka_go.Message.Record.{
  write_records, batch_bytes, write_record, delta_of, record_size, record_fields, size_counted,
  write_counted, size_headers, write_headers,
}
use kafka_go.Message.Record.{record_batch_size, write_record_batch}
use kafka_go.Message.Record.Length.{Sized, record_batch_size-Sized}
use kafka_go.Message.RecordSet.Batch.{read_many, inside, records_of, read_many-batch_bytes}
use kafka_go.Message.RecordSet.BatchHeader.{header_of}
use kafka_go.Message.RecordSet.RoundTrip.{RecordFits}
use kafka_go.Message.Produce.{
  sent, write_produce_request_v3, batch_frame, whole_batch, write_produce_request_v3-frame,
}
use kafka_go.Message.Set.{no_header}
use kafka_go.Message.Stack
use kafka_go.Message.Stack.RoundTrip.{Fits, on_set, first_of, skip_to, read_message-write_messages}
use kafka_go.Message.Stack.Offsets.{FromMin, read_message-FromMin}
use kafka_go.Message.Raw.{crc32, write_summed, write_item, to_raw, to_item, crc32-write_summed}
use kafka_go.Message.Crc.{crc_update, ieee}
use kafka_go.Message.Encode.{write_message, write_message-write_item}
use kafka_go.Time.{sub_time}
use kafka_go.Wire.VarInt.{write_var_int, write_groups, var_int_len, count_groups, zigzag}
use kafka_go.Wire.Write.{write_int8}
use mathlib.Core.Option

-- "k"
abbrev key : List ℕ
key = 107 ∷ []

abbrev message_at : ℕ → ℕ → Message
message_at offset ns = record {
  topic = [];
  partition = 0;
  offset = offset;
  key = some key;
  value = some (118 ∷ 49 ∷ []);
  headers = record { key = key; value = some key } ∷ [];
  time = some (pos ns);
}

abbrev first : Message
first = message_at 0 5_000_000

abbrev second : Message
second = message_at 1 6_000_000

abbrev records : List ℕ
records =
    26 ∷ 0 ∷ 0 ∷ 0 ∷ 2 ∷ 107 ∷ 4 ∷ 118 ∷ 49 ∷ 2 ∷ 2 ∷ 107 ∷ 2 ∷ 107 ∷ 30 ∷ 0 ∷ 128 ∷ 137 ∷ 122 ∷ 2
    ∷ 2 ∷ 107 ∷ 4 ∷ 118 ∷ 49 ∷ 2 ∷ 2 ∷ 107 ∷ 2 ∷ 107 ∷ []

fits : (offset ns : ℕ) → RecordFits (message_at offset ns)
unfolding content
fits offset ns = record {
  key = omega arith;
  value = omega arith;
  headers = omega arith;
  header = (record { key = omega arith; value = omega arith }, tt);
}

whole : (offset ns : ℕ) → offset < 2 ^ 64 → Fits (message_at offset ns)
unfolding content
whole offset ns h = record { offset = h; key = omega arith; value = omega arith }

both_written : write_records first.time 0 (first ∷ second ∷ []) ≡ some records
unfolding write_records write_record delta_of sub_time record_size record_fields size_counted
    write_counted size_headers write_headers write_var_int write_groups var_int_len count_groups
    zigzag write_int8 Option.bind content
both_written = refl

read_many-batch_bytes_example :
    read_many 2 [] (
      inside no_header 0 (
        at
          (batch_bytes 0 91 first (second ∷ []) records ++ 7 ∷ [])
          (length (batch_bytes 0 91 first (second ∷ []) records) + 1)))
    ≡ some (
      records_of (header_of 91 first (second ∷ []) records) first.time 0 (first ∷ second ∷ []),
      inside (header_of 91 first (second ∷ []) records) 0 (at (7 ∷ []) 1),
    )
read_many-batch_bytes_example =
    read_many-batch_bytes [] no_header 91 first (second ∷ []) records (7 ∷ []) 1
      (fits 0 5_000_000, (fits 1 6_000_000, tt)) (omega arith) both_written

write_produce_request_v3-frame_example :
    write_produce_request_v3 3 key key 0 (pos 1_000_000_000) 1 none (first ∷ second ∷ [])
    ≡ some (
        sent (
          batch_frame 3 key key 0
            (pos 1_000_000_000)
            1
            (whole_batch 3 key key 0 (pos 1_000_000_000) 1 0 first (second ∷ []) records)))
write_produce_request_v3-frame_example =
    write_produce_request_v3-frame 3 key key 0 (pos 1_000_000_000) 1 first (second ∷ []) records
      both_written

record_batch_size-Sized_example : Sized (record_batch_size (first ∷ second ∷ [])) (
    write_record_batch 0 91
      (write_records first.time 0 (first ∷ second ∷ []))
      (first ∷ second ∷ []))
record_batch_size-Sized_example = record_batch_size-Sized 0 91 first (second ∷ [])

read_message-write_messages_example :
    Stack.read_message [] 1 read_new_bytes read_new_bytes 4 (on_set (first ∷ second ∷ []) (7 ∷ []))
    ≡ first_of (7 ∷ []) (skip_to 1 (first ∷ second ∷ []))
read_message-write_messages_example =
    read_message-write_messages [] 1 (first ∷ second ∷ []) (7 ∷ []) 4
      (whole 0 5_000_000 (omega arith), (whole 1 6_000_000 (omega arith), tt)) (omega arith)

read_message-FromMin_example :
    FromMin [] 1 read_new_bytes read_new_bytes
      (Stack.read_message [] 1 read_new_bytes read_new_bytes 4 (on_set (first ∷ second ∷ []) []))
read_message-FromMin_example =
    read_message-FromMin [] 1 read_new_bytes read_new_bytes 4 (on_set (first ∷ second ∷ []) [])

crc32-write_summed_example :
    crc32 (to_raw second) ≡ crc_update ieee 0 (write_summed (to_raw second))
crc32-write_summed_example = crc32-write_summed (to_raw second)

write_message-write_item_example :
    write_message 1 0 second.time second.key second.value ≡ write_item (to_item second)
write_message-write_item_example = write_message-write_item second
