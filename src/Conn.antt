-- ===== src/Conn.antt =====
-- conn.go: a connection to the leader of a partition: its offset, and what it fetches and writes.
-- What the network does to a request and its response is the Exchange of Protocol; the calls that
-- wait for a response are given here as what they return.
pub mod Offsets
pub mod Fetching
pub mod Writing
pub mod Versions
use kafka_go.Prelude.{ℕ, ◌-◌, ◌^◌, List, Bool}

-- The versions are int16.
pub record ApiVersion : Type 0 where
  pub api_key : ℕ
  pub min_version : ℕ
  pub max_version : ℕ

-- The values of a Conn that its operations use. An offset is an int64; the map of versions is the
-- list of its values.
pub record Conn : Type 0 where
  pub client_id : List ℕ
  pub topic : List ℕ
  pub partition : ℕ
  pub offset : ℕ
  pub fetch_max_bytes : ℕ
  pub fetch_min_size : ℕ
  pub fetch_version : ℕ
  pub required_acks : ℕ
  pub api_versions : List ApiVersion

-- FirstOffset and LastOffset
abbrev pub first_offset : ℕ
first_offset = 2 ^ 64 - 2

abbrev pub last_offset : ℕ
last_offset = 2 ^ 64 - 1
