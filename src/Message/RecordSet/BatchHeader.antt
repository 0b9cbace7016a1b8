-- ===== src/Message/RecordSet/BatchHeader.antt =====
-- The header of a record batch, written and read.
use kafka_go.Prelude.{ℕ, ◌-◌, ◌%◌, ◌^◌, ◌<◌, ◌≡◌, List, ◌∷◌, ◌++◌, length, arith, append_assoc}
use kafka_go.Wire.Bytes.{signed32}
use kafka_go.Wire.Write.{write_int8, write_int16, write_int32, write_int64}
use kafka_go.Wire.Reads.{Reads, >>=-Reads, last-Reads}
use kafka_go.Wire.Primitives.{int8-Reads, int16-Reads, int32-Reads, int64-Reads}
use kafka_go.Protocol.Frame.{◌⊖◌}
use kafka_go.Protocol.Direct.{minus_one}
use kafka_go.Time.{timestamp}
use kafka_go.Message.{Message}
use kafka_go.Message.Crc.{crc_update, castagnoli, crc_update-lt}
use kafka_go.Message.Record.{batch_bytes, batch_summed, last_of}
use kafka_go.Message.Stack.RoundTrip.{timestamp-lt}
use kafka_go.Message.RecordSet.{SetHeader, read_header}

-- The header that a batch of `ms` with the records `rs` starts with.
abbrev pub header_of : ℕ → Message → List Message → List ℕ → SetHeader
header_of size first ms rs = record {
  first_offset = 0;
  size = size ⊖ 12;
  partition_leader_epoch = minus_one;
  magic = 2;
  crc = crc_update castagnoli 0 (batch_summed 0 first ms rs);
  batch_attributes = 0;
  last_offset_delta = length ms % 2 ^ 32;
  first_timestamp = timestamp first.time;
  max_timestamp = timestamp ((last_of first ms).time);
  producer_id = 2 ^ 64 - 1;
  producer_epoch = 2 ^ 16 - 1;
  first_sequence = minus_one;
}

-- The bytes of the header, ahead of the records.
abbrev pub header_bytes : SetHeader → ℕ → List ℕ
header_bytes h n =
    write_int64 h.first_offset
    ++ (write_int32 h.size
        ++ (write_int32 h.partition_leader_epoch
            ++ (write_int8 h.magic
                ++ (write_int32 h.crc
                    ++ (write_int16 h.batch_attributes
                        ++ (write_int32 h.last_offset_delta
                            ++ (write_int64 h.first_timestamp
                                ++ (write_int64 h.max_timestamp
                                    ++ (write_int64 h.producer_id
                                        ++ (write_int16 h.producer_epoch
                                            ++ (write_int32 h.first_sequence
                                                ++ write_int32 n)))))))))))

pub record HeaderFits (h : SetHeader) : Type 0 where
  pub first_offset : h.first_offset < 2 ^ 64
  pub size : h.size < 2 ^ 32
  pub partition_leader_epoch : h.partition_leader_epoch < 2 ^ 32
  pub magic : h.magic < 2 ^ 8
  pub crc : h.crc < 2 ^ 32
  pub batch_attributes : h.batch_attributes < 2 ^ 16
  pub last_offset_delta : h.last_offset_delta < 2 ^ 32
  pub first_timestamp : h.first_timestamp < 2 ^ 64
  pub max_timestamp : h.max_timestamp < 2 ^ 64
  pub producer_id : h.producer_id < 2 ^ 64
  pub producer_epoch : h.producer_epoch < 2 ^ 16
  pub first_sequence : h.first_sequence < 2 ^ 32

pub header-Reads :
    (h : SetHeader) (n : ℕ)
    → HeaderFits h
    → n < 2 ^ 32
    → Reads read_header (header_bytes h n) (h, signed32 n)
unfolding read_header
header-Reads h n f l = >>=-Reads _ (int64-Reads h.first_offset f.first_offset) (
    >>=-Reads _ (int32-Reads h.size f.size) (
      >>=-Reads _ (int32-Reads h.partition_leader_epoch f.partition_leader_epoch) (
        >>=-Reads _ (int8-Reads h.magic f.magic) (
          >>=-Reads _ (int32-Reads h.crc f.crc) (
            >>=-Reads _ (int16-Reads h.batch_attributes f.batch_attributes) (
              >>=-Reads _ (int32-Reads h.last_offset_delta f.last_offset_delta) (
                >>=-Reads _ (int64-Reads h.first_timestamp f.first_timestamp) (
                  >>=-Reads _ (int64-Reads h.max_timestamp f.max_timestamp) (
                    >>=-Reads _ (int64-Reads h.producer_id f.producer_id) (
                      >>=-Reads _ (int16-Reads h.producer_epoch f.producer_epoch) (
                        >>=-Reads _ (int32-Reads h.first_sequence f.first_sequence)
                          (last-Reads _ (int32-Reads n l)))))))))))))

pub batch_bytes_lem :
    (size : ℕ) (first : Message) (ms : List Message) (rs : List ℕ)
    → batch_bytes 0 size first ms rs
      ≡ header_bytes (header_of size first ms rs) (length (first ∷ ms) % 2 ^ 32) ++ rs
unfolding batch_bytes batch_summed
batch_bytes_lem size first ms rs = simp append_assoc

pub header_of-HeaderFits :
    (size : ℕ) (first : Message) (ms : List Message) (rs : List ℕ)
    → HeaderFits (header_of size first ms rs)
unfolding ◌⊖◌
header_of-HeaderFits size first ms rs = record {
  first_offset = omega arith;
  size = omega arith;
  partition_leader_epoch = omega arith;
  magic = omega arith;
  crc = crc_update-lt castagnoli (omega arith) 0 (batch_summed 0 first ms rs);
  batch_attributes = omega arith;
  last_offset_delta = omega arith;
  first_timestamp = timestamp-lt first.time;
  max_timestamp = timestamp-lt ((last_of first ms).time);
  producer_id = omega arith;
  producer_epoch = omega arith;
  first_sequence = omega arith;
}
