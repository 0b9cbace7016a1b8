-- ===== src/Protocol/ListOffset.antt =====
-- listoffset.go: the ListOffset request and response.
use kafka_go.Prelude.{ℕ, ◌+◌, ◌<◌, ◌^◌, List, ◌++◌}
use kafka_go.Wire.Reader.{Reader, pure, ◌>>=◌}
use kafka_go.Wire.Read.{read_int16, read_int32, read_int64}
use kafka_go.Wire.Write.{write_int16, write_int32, write_int64, write_string, write_array}
use kafka_go.Wire.Size.{◌⊕◌, sizeof_string, sizeof_array}
use kafka_go.Wire.Sizes.{Sizes, sizes, sizeof_array-Sizes}
use kafka_go.Wire.Reads.{Reads, >>=-Reads, last-Reads}
use kafka_go.Wire.Primitives.{int16-Reads, int32-Reads, int64-Reads}
use kafka_go.Wire.Frame.{Framed, >>=-Framed, last-Framed, int16-Framed, int32-Framed, int64-Framed}

pub record ListOffsetRequestPartitionV1 : Type 0 where
  pub partition : ℕ
  pub time : ℕ

unfoldable pub size_list_offset_request_partition_v1 : ListOffsetRequestPartitionV1 → ℕ
size_list_offset_request_partition_v1 t = 4 + 8

unfoldable pub write_list_offset_request_partition_v1 : ListOffsetRequestPartitionV1 → List ℕ
write_list_offset_request_partition_v1 t = write_int32 t.partition ++ write_int64 t.time

pub size_list_offset_request_partition_v1-Sizes :
    (t : ListOffsetRequestPartitionV1)
    → Sizes (size_list_offset_request_partition_v1 t) (write_list_offset_request_partition_v1 t)
unfolding size_list_offset_request_partition_v1 write_list_offset_request_partition_v1
size_list_offset_request_partition_v1-Sizes t = omega sizes

pub record ListOffsetRequestTopicV1 : Type 0 where
  pub topic_name : List ℕ
  pub partitions : List ListOffsetRequestPartitionV1

unfoldable pub size_list_offset_request_topic_v1 : ListOffsetRequestTopicV1 → ℕ
size_list_offset_request_topic_v1 t =
    sizeof_string t.topic_name ⊕ sizeof_array size_list_offset_request_partition_v1 t.partitions

unfoldable pub write_list_offset_request_topic_v1 : ListOffsetRequestTopicV1 → List ℕ
write_list_offset_request_topic_v1 t =
    write_string t.topic_name ++ write_array write_list_offset_request_partition_v1 t.partitions

pub size_list_offset_request_topic_v1-Sizes :
    (t : ListOffsetRequestTopicV1)
    → Sizes (size_list_offset_request_topic_v1 t) (write_list_offset_request_topic_v1 t)
unfolding size_list_offset_request_topic_v1 write_list_offset_request_topic_v1
size_list_offset_request_topic_v1-Sizes t = omega (
  sizes,
  sizeof_array-Sizes size_list_offset_request_partition_v1 write_list_offset_request_partition_v1
      size_list_offset_request_partition_v1-Sizes t.partitions,
)

pub record ListOffsetRequestV1 : Type 0 where
  pub replica_id : ℕ
  pub topics : List ListOffsetRequestTopicV1

unfoldable pub size_list_offset_request_v1 : ListOffsetRequestV1 → ℕ
size_list_offset_request_v1 t = 4 ⊕ sizeof_array size_list_offset_request_topic_v1 t.topics

unfoldable pub write_list_offset_request_v1 : ListOffsetRequestV1 → List ℕ
write_list_offset_request_v1 t =
    write_int32 t.replica_id ++ write_array write_list_offset_request_topic_v1 t.topics

pub size_list_offset_request_v1-Sizes :
    (t : ListOffsetRequestV1)
    → Sizes (size_list_offset_request_v1 t) (write_list_offset_request_v1 t)
unfolding size_list_offset_request_v1 write_list_offset_request_v1
size_list_offset_request_v1-Sizes t = omega (
  sizes,
  sizeof_array-Sizes size_list_offset_request_topic_v1 write_list_offset_request_topic_v1
      size_list_offset_request_topic_v1-Sizes t.topics,
)

pub record PartitionOffsetV1 : Type 0 where
  pub partition : ℕ
  pub error_code : ℕ
  pub timestamp : ℕ
  pub offset : ℕ

unfoldable pub size_partition_offset_v1 : PartitionOffsetV1 → ℕ
size_partition_offset_v1 t = 4 + 2 + 8 + 8

unfoldable pub write_partition_offset_v1 : PartitionOffsetV1 → List ℕ
write_partition_offset_v1 t =
    write_int32 t.partition
    ++ (write_int16 t.error_code ++ (write_int64 t.timestamp ++ write_int64 t.offset))

unfoldable pub read_partition_offset_v1 : Reader PartitionOffsetV1
read_partition_offset_v1 = do
  partition ← read_int32
  error_code ← read_int16
  timestamp ← read_int64
  offset ← read_int64
  pure (record {
    partition = partition;
    error_code = error_code;
    timestamp = timestamp;
    offset = offset;
  })

pub size_partition_offset_v1-Sizes :
    (t : PartitionOffsetV1) → Sizes (size_partition_offset_v1 t) (write_partition_offset_v1 t)
unfolding size_partition_offset_v1 write_partition_offset_v1
size_partition_offset_v1-Sizes t = omega sizes

-- The fields fit their encodings.
pub record IsPartitionOffsetV1 (t : PartitionOffsetV1) : Type 0 where
  pub partition : t.partition < 2 ^ 32
  pub error_code : t.error_code < 2 ^ 16
  pub timestamp : t.timestamp < 2 ^ 64
  pub offset : t.offset < 2 ^ 64

pub partition_offset_v1-Reads :
    (t : PartitionOffsetV1)
    → IsPartitionOffsetV1 t
    → Reads read_partition_offset_v1 (write_partition_offset_v1 t) t
unfolding read_partition_offset_v1 write_partition_offset_v1
partition_offset_v1-Reads t v = >>=-Reads _ (int32-Reads t.partition v.partition) (
    >>=-Reads _ (int16-Reads t.error_code v.error_code) (
      >>=-Reads _ (int64-Reads t.timestamp v.timestamp)
        (last-Reads _ (int64-Reads t.offset v.offset))))

pub partition_offset_v1-Framed : Framed read_partition_offset_v1
unfolding read_partition_offset_v1
partition_offset_v1-Framed =
    >>=-Framed _ int32-Framed
      λ _. >>=-Framed _ int16-Framed λ _. >>=-Framed _ int64-Framed λ _. last-Framed _ int64-Framed

pub record ListOffsetResponseTopicV1 : Type 0 where
  pub topic_name : List ℕ
  pub partition_offsets : List PartitionOffsetV1

unfoldable pub size_list_offset_response_topic_v1 : ListOffsetResponseTopicV1 → ℕ
size_list_offset_response_topic_v1 t =
    sizeof_string t.topic_name ⊕ sizeof_array size_partition_offset_v1 t.partition_offsets

unfoldable pub write_list_offset_response_topic_v1 : ListOffsetResponseTopicV1 → List ℕ
write_list_offset_response_topic_v1 t =
    write_string t.topic_name ++ write_array write_partition_offset_v1 t.partition_offsets

pub size_list_offset_response_topic_v1-Sizes :
    (t : ListOffsetResponseTopicV1)
    → Sizes (size_list_offset_response_topic_v1 t) (write_list_offset_response_topic_v1 t)
unfolding size_list_offset_response_topic_v1 write_list_offset_response_topic_v1
size_list_offset_response_topic_v1-Sizes t = omega (
  sizes,
  sizeof_array-Sizes size_partition_offset_v1 write_partition_offset_v1
      size_partition_offset_v1-Sizes t.partition_offsets,
)

pub record ListOffsetResponseV1 : Type 0 where
  pub topics : List ListOffsetResponseTopicV1

unfoldable pub size_list_offset_response_v1 : ListOffsetResponseV1 → ℕ
size_list_offset_response_v1 t = sizeof_array size_list_offset_response_topic_v1 t.topics

unfoldable pub write_list_offset_response_v1 : ListOffsetResponseV1 → List ℕ
write_list_offset_response_v1 t = write_array write_list_offset_response_topic_v1 t.topics

pub size_list_offset_response_v1-Sizes :
    (t : ListOffsetResponseV1)
    → Sizes (size_list_offset_response_v1 t) (write_list_offset_response_v1 t)
unfolding size_list_offset_response_v1 write_list_offset_response_v1
size_list_offset_response_v1-Sizes t = omega (
  sizes,
  sizeof_array-Sizes size_list_offset_response_topic_v1 write_list_offset_response_topic_v1
      size_list_offset_response_topic_v1-Sizes t.topics,
)
