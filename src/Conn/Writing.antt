-- ===== src/Conn/Writing.antt =====
-- conn.go: writing messages: the tests of the messages, the request, and its response.
pub mod Prepared
use mathlib.Core.Option
use kafka_go.Prelude.{
  ℕ, zero, suc, Bool, ◌+◌, ◌-◌, ◌%◌, ◌^◌, List, [], ◌∷◌, ◌++◌, Option, none, some, length, ℤ, pos,
  negsuc, not, ◌==◌, ◌&&◌, if◌then◌else◌,
}
use kafka_go.Prelude.Strings.{same}
use kafka_go.Wire.Bytes.{content}
use kafka_go.Wire.Reader.{
  Error, kafka, invalid_write_topic, invalid_write_partition, Reader, Outcome, pure, throw, ◌>>=◌,
  ◌>>◌,
}
use kafka_go.Wire.Read.{read_array_with, discard_string, discard_n}
use kafka_go.Time.{Time, adjust_deadline_for_rtt, default_rtt, deadline_to_timeout}
use kafka_go.Protocol.ProduceResponse.{
  ProduceResponsePartitionV2, read_produce_response_partition_v2,
}
use kafka_go.Message.{Message}
use kafka_go.Message.Compression.{Codec}
use kafka_go.Message.Produce.{Written, write_produce_request_v2, write_produce_request_v3}
use kafka_go.Protocol.Exchange.{expect_zero_size}
use kafka_go.Protocol.Operations.{flatten}
use kafka_go.Conn.{Conn}
use kafka_go.Conn.Offsets.{Result, ok, error}
use kafka_go.Conn.Versions.{at_least}

-- InvalidRequiredAcks
abbrev pub invalid_required_acks : Error
invalid_required_acks = kafka 21

unfoldable pub set_required_acks : Conn → ℤ → Option Error × Conn
set_required_acks c (negsuc zero) = (none, record c { required_acks = 2 ^ 16 - 1 })
set_required_acks c (pos (suc zero)) = (none, record c { required_acks = 1 })
set_required_acks c n = (some invalid_required_acks, c)

-- `if msg.Time.IsZero() { msgs[i].Time = writeTime }`
abbrev pub timed : Time → Message → Message
timed now msg = record msg { time = elim msg.time [ none ↦ now | some t ↦ some t ] }

-- One round of the loop over the messages: the tests, ahead of the rounds that follow.
unfoldable pub test_message : Conn → Message → Result (List Message × ℕ) → Result (List Message × ℕ)
test_message c msg rest =
    if not (length msg.topic == 0) && not (same msg.topic c.topic)
    then error invalid_write_topic
    else if msg.partition == 0
    then rest
    else error invalid_write_partition

unfoldable pub add_message : Time → Message → Result (List Message × ℕ) → Result (List Message × ℕ)
add_message now msg (error e) = error e
add_message now msg (ok (msgs, n)) =
    ok (timed now msg ∷ msgs, length (content msg.key) + length (content msg.value) + n)

-- The loop: the messages with their times, and the bytes of their keys and values.
unfoldable pub prepare : Conn → Time → List Message → Result (List Message × ℕ)
prepare c now [] = ok ([], 0)
prepare c now (msg ∷ msgs) = test_message c msg (add_message now msg (prepare c now msgs))

-- The write of writeCompressedMessages, with the deadline and the time of the call.
unfoldable pub write_messages_request :
    Conn → Option Codec → ℕ → Time → Time → List Message → Option Written
write_messages_request c codec id deadline now msgs =
    let timeout = deadline_to_timeout (adjust_deadline_for_rtt deadline now default_rtt) now in
    if at_least 3 0 c.api_versions
    then write_produce_request_v3 id c.client_id c.topic c.partition timeout c.required_acks codec
        msgs
    else some (
        write_produce_request_v2 id c.client_id c.topic c.partition timeout c.required_acks codec
          msgs)

unfoldable pub read_written_partition : Reader ProduceResponsePartitionV2
read_written_partition = do
  p ← read_produce_response_partition_v2
  if p.error_code == 0 then pure p else throw (kafka p.error_code)

-- The topic is skipped, and so is the throttle time, behind the partitions of each topic.
unfoldable pub read_written_topic : Reader (List ProduceResponsePartitionV2)
read_written_topic = do
  discard_string
  ps ← read_array_with read_written_partition
  discard_n (pos 4)
  pure ps

-- What the last partition says: nothing, if there is none.
unfoldable pub last_partition :
    Option ProduceResponsePartitionV2
    → List ProduceResponsePartitionV2
    → Option ProduceResponsePartitionV2
last_partition p [] = p
last_partition p (q ∷ qs) = last_partition (some q) qs

unfoldable pub all_partitions :
    List (List ProduceResponsePartitionV2) → List ProduceResponsePartitionV2
all_partitions [] = []
all_partitions (ps ∷ pss) = ps ++ all_partitions pss

unfoldable pub read_written : Reader (Option ProduceResponsePartitionV2)
read_written = expect_zero_size (do
  topics ← read_array_with read_written_topic
  pure (last_partition none (all_partitions topics)))
