-- ===== src/Protocol/ProduceResponse.antt =====
-- produce.go: the Produce response.
use kafka_go.Prelude.{ℕ, ◌+◌, ◌<◌, ◌^◌, List, ◌++◌}
use kafka_go.Wire.Reader.{Reader, pure, ◌>>=◌}
use kafka_go.Wire.Read.{read_int16, read_int32, read_int64}
use kafka_go.Wire.Write.{write_int16, write_int32, write_int64, write_string, write_array}
use kafka_go.Wire.Size.{◌⊕◌, sizeof_string, sizeof_array}
use kafka_go.Wire.Sizes.{Sizes, sizes, sizeof_array-Sizes}
use kafka_go.Wire.Reads.{Reads, >>=-Reads, last-Reads}
use kafka_go.Wire.Primitives.{int16-Reads, int32-Reads, int64-Reads}
use kafka_go.Wire.Frame.{Framed, >>=-Framed, last-Framed, int16-Framed, int32-Framed, int64-Framed}

pub record ProduceResponsePartitionV2 : Type 0 where
  pub partition : ℕ
  pub error_code : ℕ
  pub offset : ℕ
  pub timestamp : ℕ

unfoldable pub size_produce_response_partition_v2 : ProduceResponsePartitionV2 → ℕ
size_produce_response_partition_v2 t = 4 + 2 + 8 + 8

unfoldable pub write_produce_response_partition_v2 : ProduceResponsePartitionV2 → List ℕ
write_produce_response_partition_v2 t =
    write_int32 t.partition
    ++ (write_int16 t.error_code ++ (write_int64 t.offset ++ write_int64 t.timestamp))

unfoldable pub read_produce_response_partition_v2 : Reader ProduceResponsePartitionV2
read_produce_response_partition_v2 = do
  partition ← read_int32
  error_code ← read_int16
  offset ← read_int64
  timestamp ← read_int64
  pure (record {
    partition = partition;
    error_code = error_code;
    offset = offset;
    timestamp = timestamp;
  })

pub size_produce_response_partition_v2-Sizes :
    (t : ProduceResponsePartitionV2)
    → Sizes (size_produce_response_partition_v2 t) (write_produce_response_partition_v2 t)
unfolding size_produce_response_partition_v2 write_produce_response_partition_v2
size_produce_response_partition_v2-Sizes t = omega sizes

-- The fields fit their encodings.
pub record IsProduceResponsePartitionV2 (t : ProduceResponsePartitionV2) : Type 0 where
  pub partition : t.partition < 2 ^ 32
  pub error_code : t.error_code < 2 ^ 16
  pub offset : t.offset < 2 ^ 64
  pub timestamp : t.timestamp < 2 ^ 64

pub produce_response_partition_v2-Reads :
    (t : ProduceResponsePartitionV2)
    → IsProduceResponsePartitionV2 t
    → Reads read_produce_response_partition_v2 (write_produce_response_partition_v2 t) t
unfolding read_produce_response_partition_v2 write_produce_response_partition_v2
produce_response_partition_v2-Reads t v = >>=-Reads _ (int32-Reads t.partition v.partition) (
    >>=-Reads _ (int16-Reads t.error_code v.error_code) (
      >>=-Reads _ (int64-Reads t.offset v.offset)
        (last-Reads _ (int64-Reads t.timestamp v.timestamp))))

pub produce_response_partition_v2-Framed : Framed read_produce_response_partition_v2
unfolding read_produce_response_partition_v2
produce_response_partition_v2-Framed =
    >>=-Framed _ int32-Framed
      λ _. >>=-Framed _ int16-Framed λ _. >>=-Framed _ int64-Framed λ _. last-Framed _ int64-Framed

pub record ProduceResponseTopicV2 : Type 0 where
  pub topic_name : List ℕ
  pub partitions : List ProduceResponsePartitionV2

unfoldable pub size_produce_response_topic_v2 : ProduceResponseTopicV2 → ℕ
size_produce_response_topic_v2 t =
    sizeof_string t.topic_name ⊕ sizeof_array size_produce_response_partition_v2 t.partitions

unfoldable pub write_produce_response_topic_v2 : ProduceResponseTopicV2 → List ℕ
write_produce_response_topic_v2 t =
    write_string t.topic_name ++ write_array write_produce_response_partition_v2 t.partitions

pub size_produce_response_topic_v2-Sizes :
    (t : ProduceResponseTopicV2)
    → Sizes (size_produce_response_topic_v2 t) (write_produce_response_topic_v2 t)
unfolding size_produce_response_topic_v2 write_produce_response_topic_v2
size_produce_response_topic_v2-Sizes t = omega (
  sizes,
  sizeof_array-Sizes size_produce_response_partition_v2 write_produce_response_partition_v2
      size_produce_response_partition_v2-Sizes t.partitions,
)

pub record ProduceResponseV2 : Type 0 where
  pub throttle_time : ℕ
  pub topics : List ProduceResponseTopicV2

unfoldable pub size_produce_response_v2 : ProduceResponseV2 → ℕ
size_produce_response_v2 t = 4 ⊕ sizeof_array size_produce_response_topic_v2 t.topics

unfoldable pub write_produce_response_v2 : ProduceResponseV2 → List ℕ
write_produce_response_v2 t =
    write_int32 t.throttle_time ++ write_array write_produce_response_topic_v2 t.topics

pub size_produce_response_v2-Sizes :
    (t : ProduceResponseV2) → Sizes (size_produce_response_v2 t) (write_produce_response_v2 t)
unfolding size_produce_response_v2 write_produce_response_v2
size_produce_response_v2-Sizes t = omega (
  sizes,
  sizeof_array-Sizes size_produce_response_topic_v2 write_produce_response_topic_v2
      size_produce_response_topic_v2-Sizes t.topics,
)
