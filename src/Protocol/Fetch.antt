-- ===== src/Protocol/Fetch.antt =====
-- fetch.go: the Fetch request.
use kafka_go.Prelude.{ℕ, ◌+◌, List, ◌++◌}
use kafka_go.Wire.Write.{write_int32, write_int64, write_string, write_array}
use kafka_go.Wire.Size.{◌⊕◌, sizeof_string, sizeof_array}
use kafka_go.Wire.Sizes.{Sizes, sizes, sizeof_array-Sizes}

pub record FetchRequestPartitionV2 : Type 0 where
  pub partition : ℕ
  pub fetch_offset : ℕ
  pub max_bytes : ℕ

unfoldable pub size_fetch_request_partition_v2 : FetchRequestPartitionV2 → ℕ
size_fetch_request_partition_v2 t = 4 + 8 + 4

unfoldable pub write_fetch_request_partition_v2 : FetchRequestPartitionV2 → List ℕ
write_fetch_request_partition_v2 t =
    write_int32 t.partition ++ (write_int64 t.fetch_offset ++ write_int32 t.max_bytes)

pub size_fetch_request_partition_v2-Sizes :
    (t : FetchRequestPartitionV2)
    → Sizes (size_fetch_request_partition_v2 t) (write_fetch_request_partition_v2 t)
unfolding size_fetch_request_partition_v2 write_fetch_request_partition_v2
size_fetch_request_partition_v2-Sizes t = omega sizes

pub record FetchRequestTopicV2 : Type 0 where
  pub topic_name : List ℕ
  pub partitions : List FetchRequestPartitionV2

unfoldable pub size_fetch_request_topic_v2 : FetchRequestTopicV2 → ℕ
size_fetch_request_topic_v2 t =
    sizeof_string t.topic_name ⊕ sizeof_array size_fetch_request_partition_v2 t.partitions

unfoldable pub write_fetch_request_topic_v2 : FetchRequestTopicV2 → List ℕ
write_fetch_request_topic_v2 t =
    write_string t.topic_name ++ write_array write_fetch_request_partition_v2 t.partitions

pub size_fetch_request_topic_v2-Sizes :
    (t : FetchRequestTopicV2)
    → Sizes (size_fetch_request_topic_v2 t) (write_fetch_request_topic_v2 t)
unfolding size_fetch_request_topic_v2 write_fetch_request_topic_v2
size_fetch_request_topic_v2-Sizes t = omega (
  sizes,
  sizeof_array-Sizes size_fetch_request_partition_v2 write_fetch_request_partition_v2
      size_fetch_request_partition_v2-Sizes t.partitions,
)

pub record FetchRequestV2 : Type 0 where
  pub replica_id : ℕ
  pub max_wait_time : ℕ
  pub min_bytes : ℕ
  pub topics : List FetchRequestTopicV2

unfoldable pub size_fetch_request_v2 : FetchRequestV2 → ℕ
size_fetch_request_v2 t = 4 + 4 + 4 ⊕ sizeof_array size_fetch_request_topic_v2 t.topics

unfoldable pub write_fetch_request_v2 : FetchRequestV2 → List ℕ
write_fetch_request_v2 t =
    write_int32 t.replica_id
    ++ (write_int32 t.max_wait_time
        ++ (write_int32 t.min_bytes ++ write_array write_fetch_request_topic_v2 t.topics))

pub size_fetch_request_v2-Sizes :
    (t : FetchRequestV2) → Sizes (size_fetch_request_v2 t) (write_fetch_request_v2 t)
unfolding size_fetch_request_v2 write_fetch_request_v2
size_fetch_request_v2-Sizes t = omega (
  sizes,
  sizeof_array-Sizes size_fetch_request_topic_v2 write_fetch_request_topic_v2
      size_fetch_request_topic_v2-Sizes t.topics,
)
