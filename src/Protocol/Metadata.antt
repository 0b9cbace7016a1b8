-- ===== src/Protocol/Metadata.antt =====
-- metadata.go: the Metadata request and response.
use kafka_go.Prelude.{ℕ, ◌+◌, Bool, List, ◌++◌}
use kafka_go.Wire.Write.{
  write_int16, write_int32, write_string, write_bool, write_array, write_string_array,
  write_int32_array,
}
use kafka_go.Wire.Size.{◌⊕◌, sizeof_string, sizeof_array, sizeof_int32_array, sizeof_string_array}
use kafka_go.Wire.Sizes.{Sizes, sizes, sizeof_array-Sizes}

pub record TopicMetadataRequestV1 : Type 0 where
  pub topics : List (List ℕ)

unfoldable pub size_topic_metadata_request_v1 : TopicMetadataRequestV1 → ℕ
size_topic_metadata_request_v1 t = sizeof_string_array t.topics

unfoldable pub write_topic_metadata_request_v1 : TopicMetadataRequestV1 → List ℕ
write_topic_metadata_request_v1 t = write_string_array t.topics

pub size_topic_metadata_request_v1-Sizes :
    (t : TopicMetadataRequestV1)
    → Sizes (size_topic_metadata_request_v1 t) (write_topic_metadata_request_v1 t)
unfolding size_topic_metadata_request_v1 write_topic_metadata_request_v1
size_topic_metadata_request_v1-Sizes t = omega sizes

pub record BrokerMetadataV1 : Type 0 where
  pub node_id : ℕ
  pub host : List ℕ
  pub port : ℕ
  pub rack : List ℕ

unfoldable pub size_broker_metadata_v1 : BrokerMetadataV1 → ℕ
size_broker_metadata_v1 t = 4 + 4 ⊕ sizeof_string t.host ⊕ sizeof_string t.rack

unfoldable pub write_broker_metadata_v1 : BrokerMetadataV1 → List ℕ
write_broker_metadata_v1 t =
    write_int32 t.node_id ++ (write_string t.host ++ (write_int32 t.port ++ write_string t.rack))

pub size_broker_metadata_v1-Sizes :
    (t : BrokerMetadataV1) → Sizes (size_broker_metadata_v1 t) (write_broker_metadata_v1 t)
unfolding size_broker_metadata_v1 write_broker_metadata_v1
size_broker_metadata_v1-Sizes t = omega sizes

pub record PartitionMetadataV1 : Type 0 where
  pub partition_error_code : ℕ
  pub partition_id : ℕ
  pub leader : ℕ
  pub replicas : List ℕ
  pub isr : List ℕ

unfoldable pub size_partition_metadata_v1 : PartitionMetadataV1 → ℕ
size_partition_metadata_v1 t = 2 + 4 + 4 ⊕ sizeof_int32_array t.replicas ⊕ sizeof_int32_array t.isr

unfoldable pub write_partition_metadata_v1 : PartitionMetadataV1 → List ℕ
write_partition_metadata_v1 t =
    write_int16 t.partition_error_code
    ++ (write_int32 t.partition_id
        ++ (write_int32 t.leader ++ (write_int32_array t.replicas ++ write_int32_array t.isr)))

pub size_partition_metadata_v1-Sizes :
    (t : PartitionMetadataV1) → Sizes (size_partition_metadata_v1 t) (write_partition_metadata_v1 t)
unfolding size_partition_metadata_v1 write_partition_metadata_v1
size_partition_metadata_v1-Sizes t = omega sizes

pub record TopicMetadataV1 : Type 0 where
  pub topic_error_code : ℕ
  pub topic_name : List ℕ
  pub is_internal : Bool
  pub partitions : List PartitionMetadataV1

unfoldable pub size_topic_metadata_v1 : TopicMetadataV1 → ℕ
size_topic_metadata_v1 t =
    2 + 1 ⊕ sizeof_string t.topic_name ⊕ sizeof_array size_partition_metadata_v1 t.partitions

unfoldable pub write_topic_metadata_v1 : TopicMetadataV1 → List ℕ
write_topic_metadata_v1 t =
    write_int16 t.topic_error_code
    ++ (write_string t.topic_name
        ++ (write_bool t.is_internal ++ write_array write_partition_metadata_v1 t.partitions))

pub size_topic_metadata_v1-Sizes :
    (t : TopicMetadataV1) → Sizes (size_topic_metadata_v1 t) (write_topic_metadata_v1 t)
unfolding size_topic_metadata_v1 write_topic_metadata_v1
size_topic_metadata_v1-Sizes t = omega (
  sizes,
  sizeof_array-Sizes size_partition_metadata_v1 write_partition_metadata_v1
      size_partition_metadata_v1-Sizes t.partitions,
)

pub record MetadataResponseV1 : Type 0 where
  pub brokers : List BrokerMetadataV1
  pub controller_id : ℕ
  pub topics : List TopicMetadataV1

unfoldable pub size_metadata_response_v1 : MetadataResponseV1 → ℕ
size_metadata_response_v1 t =
    4
    ⊕ sizeof_array size_broker_metadata_v1 t.brokers
    ⊕ sizeof_array size_topic_metadata_v1 t.topics

unfoldable pub write_metadata_response_v1 : MetadataResponseV1 → List ℕ
write_metadata_response_v1 t =
    write_array write_broker_metadata_v1 t.brokers
    ++ (write_int32 t.controller_id ++ write_array write_topic_metadata_v1 t.topics)

pub size_metadata_response_v1-Sizes :
    (t : MetadataResponseV1) → Sizes (size_metadata_response_v1 t) (write_metadata_response_v1 t)
unfolding size_metadata_response_v1 write_metadata_response_v1
size_metadata_response_v1-Sizes t = omega (
  sizes,
  sizeof_array-Sizes size_broker_metadata_v1 write_broker_metadata_v1 size_broker_metadata_v1-Sizes
      t.brokers,
  sizeof_array-Sizes size_topic_metadata_v1 write_topic_metadata_v1 size_topic_metadata_v1-Sizes
      t.topics,
)
