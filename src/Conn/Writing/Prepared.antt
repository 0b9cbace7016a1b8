-- ===== src/Conn/Writing/Prepared.antt =====
-- The messages that a connection writes.
use kafka_go.Prelude.{ℕ, ◌+◌, ◌≡◌, ◌≢◌, List, [], ◌∷◌, none, length, All, ◌⊎◌}
use kafka_go.Wire.Bytes.{content}
use kafka_go.Wire.Reader.{invalid_write_topic, invalid_write_partition}
use kafka_go.Time.{Time}
use kafka_go.Message.{Message}
use kafka_go.Conn.{Conn}
use kafka_go.Conn.Offsets.{Result, ok, error}

-- A message for the topic of the connection, with a time.
pub record Prepared (c : Conn) (m : Message) : Type 0 where
  pub topic : (m.topic ≡ []) ⊎ (m.topic ≡ c.topic)
  pub partition : m.partition ≡ 0
  pub timed : m.time ≢ none

abbrev pub bytes_of : List Message → ℕ
bytes_of [] = 0
bytes_of (m ∷ ms) = length (content m.key) + length (content m.value) + bytes_of ms

-- What a result has to satisfy: every message prepared, and their number and bytes as they were.
abbrev pub AllPrepared : Conn → List Message → Result (List Message × ℕ) → Type 0
AllPrepared c msgs (ok (ms, n)) =
    All (Prepared c) ms × (length ms ≡ length msgs) × (n ≡ bytes_of msgs)
AllPrepared c msgs (error e) = (e ≡ invalid_write_topic) ⊎ (e ≡ invalid_write_partition)
