-- ===== src/Examples/Connections.antt =====
-- Examples for a connection: its offset, what it fetches and writes, and the balancers of a writer.
use kafka_go.Prelude.{
  ℕ, ◌+◌, ◌≡◌, List, [], ◌∷◌, ◌++◌, none, some, length, map, take, drop, pos, arith, ◌==◌,
  if◌then◌else◌, true,
}
use kafka_go.Wire.Reader.{kafka, at, done, fail, set_size_mismatch}
use kafka_go.Wire.Read.{read_new_bytes}
use kafka_go.Protocol.FetchHeader.{
  PartitionV2, PartitionFits, write_head_v2, read_fetch_response_header_v2,
  read_fetch_response_header_v2_lem,
}
use kafka_go.Message.{Message}
use kafka_go.Message.Set.{empty}
use kafka_go.Batch.{Batch, read_next}
use kafka_go.Batch.Settled.{Ready, Kept, read_next-Kept}
use kafka_go.Conn.{Conn, first_offset}
use kafka_go.Conn.Fetching.{open_batch}
use kafka_go.Conn.Fetching.Opened.{open_batch-Ready}
use kafka_go.Balancer.{LeastBytes}
use kafka_go.Balancer.Rotation.{choices, round_robin-rotation}

-- "t"
abbrev topic : List ℕ
topic = 116 ∷ []

abbrev conn : Conn
conn = record {
  client_id = topic;
  topic = topic;
  partition = 0;
  offset = first_offset;
  fetch_max_bytes = 1_000_000;
  fetch_min_size = 50;
  fetch_version = 2;
  required_acks = 1;
  api_versions = [];
}

abbrev msg : Message
msg = record {
  topic = topic;
  partition = 0;
  offset = 0;
  key = none;
  value = some (118 ∷ []);
  headers = [];
  time = none;
}

abbrev batch : Batch
batch = record {
  has_conn = true;
  has_lock = true;
  msgs = some empty;
  deadline = none;
  throttle = pos 0;
  topic = topic;
  partition = 0;
  offset = 4;
  high_water_mark = 4;
  err = none;
}

ready : Ready batch
ready = record { known = λ e. cc e; reader = λ e p. cc p }

read_next-Kept_example : Kept (read_next [] read_new_bytes read_new_bytes 3 (pos 9) batch)
read_next-Kept_example = read_next-Kept [] read_new_bytes read_new_bytes 3 (pos 9) batch ready

abbrev partition : PartitionV2
partition = record { partition = 0; error_code = 0; watermark = 9; set_size = 2 }

partition-fits : PartitionFits partition
partition-fits = record {
  partition = omega arith;
  error_code = omega arith;
  watermark = omega arith;
  set_size = omega arith;
}

read_fetch_response_header_v2_lem_example :
    read_fetch_response_header_v2 (
      at
        (write_head_v2 7 topic partition ++ (1 ∷ 2 ∷ []))
        (length (write_head_v2 7 topic partition) + 2))
    ≡ (if 0 == 0
        then if 2 == 2
          then done (record { throttle = 7; watermark = 9 }) (at (1 ∷ 2 ∷ []) 2)
          else fail (set_size_mismatch 2 2) (at (1 ∷ 2 ∷ []) 2)
        else fail (kafka 0) (at (1 ∷ 2 ∷ []) 2))
read_fetch_response_header_v2_lem_example =
    read_fetch_response_header_v2_lem 7 topic partition (1 ∷ 2 ∷ []) 2 (omega arith) (omega arith)
      partition-fits

open_batch-Ready_example :
    Ready (open_batch conn none (pos 9) 4 (at (write_head_v2 7 topic partition) 60))
open_batch-Ready_example =
    open_batch-Ready conn none (pos 9) 4 (at (write_head_v2 7 topic partition) 60)

round_robin-rotation_example :
    choices 3 4 (5 ∷ 6 ∷ 7 ∷ [])
    ≡ map some (drop 1 (5 ∷ 6 ∷ 7 ∷ [])) ++ map some (take 1 (5 ∷ 6 ∷ 7 ∷ []))
round_robin-rotation_example = round_robin-rotation (5 ∷ 6 ∷ 7 ∷ []) 4 (omega arith) (omega arith)

abbrev counters : LeastBytes
counters = record { partition = 5; bytes = 9 } ∷ record { partition = 6; bytes = 2 } ∷ []

abbrev charged : LeastBytes
charged = record { partition = 5; bytes = 9 } ∷ record { partition = 6; bytes = 3 } ∷ []
