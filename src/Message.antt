-- ===== src/Message.antt =====
-- message.go: the messages of the client, and the structures that hold them on the wire.
pub mod Crc
pub mod Compression
pub mod Raw
pub mod Encode
pub mod Stack
pub mod Record
pub mod Produce
pub mod RecordSet
pub mod Set
use kafka_go.Prelude.{ℕ, List}
use kafka_go.Wire.Bytes.{Slice}
use kafka_go.Time.{Time}

pub record Header : Type 0 where
  pub key : List ℕ
  pub value : Slice

-- An offset is an int64.
pub record Message : Type 0 where
  pub topic : List ℕ
  pub partition : ℕ
  pub offset : ℕ
  pub key : Slice
  pub value : Slice
  pub headers : List Header
  pub time : Time
