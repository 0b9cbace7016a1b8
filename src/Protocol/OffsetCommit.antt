-- ===== src/Protocol/OffsetCommit.antt =====
-- offsetcommit.go: the OffsetCommit request and response.
use kafka_go.Prelude.{ℕ, ◌<◌, ◌^◌, List, ◌++◌, length, All}
use kafka_go.Wire.Reader.{Reader, pure, ◌>>=◌}
use kafka_go.Wire.Read.{read_int16, read_int32, read_string, read_array_with}
use kafka_go.Wire.Write.{write_int16, write_int32, write_int64, write_string, write_array}
use kafka_go.Wire.Size.{◌⊕◌, sizeof_int16, sizeof_int32, sizeof_int64, sizeof_string, sizeof_array}
use kafka_go.Wire.Sizes.{Sizes, sizes, sizeof_array-Sizes}
use kafka_go.Wire.Reads.{Reads, >>=-Reads, last-Reads}
use kafka_go.Wire.Primitives.{IsString, int16-Reads, int32-Reads, string-Reads, array-Reads}
use kafka_go.Wire.Frame.{
  Framed, >>=-Framed, last-Framed, int16-Framed, int32-Framed, string-Framed, array-Framed,
}

pub record OffsetCommitRequestV2Partition : Type 0 where
  pub partition : ℕ
  pub offset : ℕ
  pub metadata : List ℕ

unfoldable pub size_offset_commit_request_v2_partition : OffsetCommitRequestV2Partition → ℕ
size_offset_commit_request_v2_partition t =
    sizeof_int32 t.partition ⊕ sizeof_int64 t.offset ⊕ sizeof_string t.metadata

unfoldable pub write_offset_commit_request_v2_partition : OffsetCommitRequestV2Partition → List ℕ
write_offset_commit_request_v2_partition t =
    write_int32 t.partition ++ (write_int64 t.offset ++ write_string t.metadata)

pub size_offset_commit_request_v2_partition-Sizes :
    (t : OffsetCommitRequestV2Partition)
    → Sizes (size_offset_commit_request_v2_partition t) (write_offset_commit_request_v2_partition t)
unfolding size_offset_commit_request_v2_partition write_offset_commit_request_v2_partition
size_offset_commit_request_v2_partition-Sizes t = omega sizes

pub record OffsetCommitRequestV2Topic : Type 0 where
  pub topic : List ℕ
  pub partitions : List OffsetCommitRequestV2Partition

unfoldable pub size_offset_commit_request_v2_topic : OffsetCommitRequestV2Topic → ℕ
size_offset_commit_request_v2_topic t =
    sizeof_string t.topic ⊕ sizeof_array size_offset_commit_request_v2_partition t.partitions

unfoldable pub write_offset_commit_request_v2_topic : OffsetCommitRequestV2Topic → List ℕ
write_offset_commit_request_v2_topic t =
    write_string t.topic ++ write_array write_offset_commit_request_v2_partition t.partitions

pub size_offset_commit_request_v2_topic-Sizes :
    (t : OffsetCommitRequestV2Topic)
    → Sizes (size_offset_commit_request_v2_topic t) (write_offset_commit_request_v2_topic t)
unfolding size_offset_commit_request_v2_topic write_offset_commit_request_v2_topic
size_offset_commit_request_v2_topic-Sizes t = omega (
  sizes,
  sizeof_array-Sizes size_offset_commit_request_v2_partition
      write_offset_commit_request_v2_partition size_offset_commit_request_v2_partition-Sizes
      t.partitions,
)

pub record OffsetCommitRequestV2 : Type 0 where
  pub group_id : List ℕ
  pub generation_id : ℕ
  pub member_id : List ℕ
  pub retention_time : ℕ
  pub topics : List OffsetCommitRequestV2Topic

unfoldable pub size_offset_commit_request_v2 : OffsetCommitRequestV2 → ℕ
size_offset_commit_request_v2 t =
    sizeof_string t.group_id
    ⊕ sizeof_int32 t.generation_id
    ⊕ sizeof_string t.member_id
    ⊕ sizeof_int64 t.retention_time
    ⊕ sizeof_array size_offset_commit_request_v2_topic t.topics

unfoldable pub write_offset_commit_request_v2 : OffsetCommitRequestV2 → List ℕ
write_offset_commit_request_v2 t =
    write_string t.group_id
    ++ (write_int32 t.generation_id
        ++ (write_string t.member_id
            ++ (write_int64 t.retention_time
                ++ write_array write_offset_commit_request_v2_topic t.topics)))

pub size_offset_commit_request_v2-Sizes :
    (t : OffsetCommitRequestV2)
    → Sizes (size_offset_commit_request_v2 t) (write_offset_commit_request_v2 t)
unfolding size_offset_commit_request_v2 write_offset_commit_request_v2
size_offset_commit_request_v2-Sizes t = omega (
  sizes,
  sizeof_array-Sizes size_offset_commit_request_v2_topic write_offset_commit_request_v2_topic
      size_offset_commit_request_v2_topic-Sizes t.topics,
)

pub record OffsetCommitResponseV2PartitionResponse : Type 0 where
  pub partition : ℕ
  pub error_code : ℕ

unfoldable pub size_offset_commit_response_v2_partition_response :
    OffsetCommitResponseV2PartitionResponse → ℕ
size_offset_commit_response_v2_partition_response t =
    sizeof_int32 t.partition ⊕ sizeof_int16 t.error_code

unfoldable pub write_offset_commit_response_v2_partition_response :
    OffsetCommitResponseV2PartitionResponse → List ℕ
write_offset_commit_response_v2_partition_response t =
    write_int32 t.partition ++ write_int16 t.error_code

unfoldable pub read_offset_commit_response_v2_partition_response :
    Reader OffsetCommitResponseV2PartitionResponse
read_offset_commit_response_v2_partition_response = do
  partition ← read_int32
  error_code ← read_int16
  pure (record { partition = partition; error_code = error_code })

pub size_offset_commit_response_v2_partition_response-Sizes :
    (t : OffsetCommitResponseV2PartitionResponse)
    → Sizes
        (size_offset_commit_response_v2_partition_response t)
        (write_offset_commit_response_v2_partition_response t)
unfolding size_offset_commit_response_v2_partition_response
    write_offset_commit_response_v2_partition_response
size_offset_commit_response_v2_partition_response-Sizes t = omega sizes

-- The fields fit their encodings.
pub record IsOffsetCommitResponseV2PartitionResponse (t : OffsetCommitResponseV2PartitionResponse)
    : Type 0 where
  pub partition : t.partition < 2 ^ 32
  pub error_code : t.error_code < 2 ^ 16

pub offset_commit_response_v2_partition_response-Reads :
    (t : OffsetCommitResponseV2PartitionResponse)
    → IsOffsetCommitResponseV2PartitionResponse t
    → Reads read_offset_commit_response_v2_partition_response
        (write_offset_commit_response_v2_partition_response t)
        t
unfolding read_offset_commit_response_v2_partition_response
    write_offset_commit_response_v2_partition_response
offset_commit_response_v2_partition_response-Reads t v =
    >>=-Reads _ (int32-Reads t.partition v.partition)
      (last-Reads _ (int16-Reads t.error_code v.error_code))

pub offset_commit_response_v2_partition_response-Framed :
    Framed read_offset_commit_response_v2_partition_response
unfolding read_offset_commit_response_v2_partition_response
offset_commit_response_v2_partition_response-Framed =
    >>=-Framed _ int32-Framed λ _. last-Framed _ int16-Framed

pub record OffsetCommitResponseV2Response : Type 0 where
  pub topic : List ℕ
  pub partition_responses : List OffsetCommitResponseV2PartitionResponse

unfoldable pub size_offset_commit_response_v2_response : OffsetCommitResponseV2Response → ℕ
size_offset_commit_response_v2_response t =
    sizeof_string t.topic
    ⊕ sizeof_array size_offset_commit_response_v2_partition_response t.partition_responses

unfoldable pub write_offset_commit_response_v2_response : OffsetCommitResponseV2Response → List ℕ
write_offset_commit_response_v2_response t =
    write_string t.topic
    ++ write_array write_offset_commit_response_v2_partition_response t.partition_responses

unfoldable pub read_offset_commit_response_v2_response : Reader OffsetCommitResponseV2Response
read_offset_commit_response_v2_response = do
  topic ← read_string
  partition_responses ← read_array_with read_offset_commit_response_v2_partition_response
  pure (record { topic = topic; partition_responses = partition_responses })

pub size_offset_commit_response_v2_response-Sizes :
    (t : OffsetCommitResponseV2Response)
    → Sizes (size_offset_commit_response_v2_response t) (write_offset_commit_response_v2_response t)
unfolding size_offset_commit_response_v2_response write_offset_commit_response_v2_response
size_offset_commit_response_v2_response-Sizes t = omega (
  sizes,
  sizeof_array-Sizes size_offset_commit_response_v2_partition_response
      write_offset_commit_response_v2_partition_response
      size_offset_commit_response_v2_partition_response-Sizes t.partition_responses,
)

-- The fields fit their encodings.
pub record IsOffsetCommitResponseV2Response (t : OffsetCommitResponseV2Response) : Type 0 where
  pub topic : IsString t.topic
  pub partition_responses_count : length t.partition_responses < 2 ^ 31
  pub partition_responses : All IsOffsetCommitResponseV2PartitionResponse t.partition_responses

pub offset_commit_response_v2_response-Reads :
    (t : OffsetCommitResponseV2Response)
    → IsOffsetCommitResponseV2Response t
    → Reads read_offset_commit_response_v2_response (write_offset_commit_response_v2_response t) t
unfolding read_offset_commit_response_v2_response write_offset_commit_response_v2_response
offset_commit_response_v2_response-Reads t v = >>=-Reads _ (string-Reads t.topic v.topic) (
    last-Reads _ (
      array-Reads IsOffsetCommitResponseV2PartitionResponse
        read_offset_commit_response_v2_partition_response
        write_offset_commit_response_v2_partition_response
        offset_commit_response_v2_partition_response-Reads t.partition_responses
        v.partition_responses_count v.partition_responses))

pub offset_commit_response_v2_response-Framed : Framed read_offset_commit_response_v2_response
unfolding read_offset_commit_response_v2_response
offset_commit_response_v2_response-Framed =
    >>=-Framed _ string-Framed
      λ _. last-Framed _ (array-Framed offset_commit_response_v2_partition_response-Framed)

pub record OffsetCommitResponseV2 : Type 0 where
  pub responses : List OffsetCommitResponseV2Response

unfoldable pub size_offset_commit_response_v2 : OffsetCommitResponseV2 → ℕ
size_offset_commit_response_v2 t = sizeof_array size_offset_commit_response_v2_response t.responses

unfoldable pub write_offset_commit_response_v2 : OffsetCommitResponseV2 → List ℕ
write_offset_commit_response_v2 t = write_array write_offset_commit_response_v2_response t.responses

unfoldable pub read_offset_commit_response_v2 : Reader OffsetCommitResponseV2
read_offset_commit_response_v2 = do
  responses ← read_array_with read_offset_commit_response_v2_response
  pure (record { responses = responses })

pub size_offset_commit_response_v2-Sizes :
    (t : OffsetCommitResponseV2)
    → Sizes (size_offset_commit_response_v2 t) (write_offset_commit_response_v2 t)
unfolding size_offset_commit_response_v2 write_offset_commit_response_v2
size_offset_commit_response_v2-Sizes t = omega (
  sizes,
  sizeof_array-Sizes size_offset_commit_response_v2_response
      write_offset_commit_response_v2_response size_offset_commit_response_v2_response-Sizes
      t.responses,
)

-- The fields fit their encodings.
pub record IsOffsetCommitResponseV2 (t : OffsetCommitResponseV2) : Type 0 where
  pub responses_count : length t.responses < 2 ^ 31
  pub responses : All IsOffsetCommitResponseV2Response t.responses

pub offset_commit_response_v2-Reads :
    (t : OffsetCommitResponseV2)
    → IsOffsetCommitResponseV2 t
    → Reads read_offset_commit_response_v2 (write_offset_commit_response_v2 t) t
unfolding read_offset_commit_response_v2 write_offset_commit_response_v2
offset_commit_response_v2-Reads t v = last-Reads _ (
    array-Reads IsOffsetCommitResponseV2Response read_offset_commit_response_v2_response
      write_offset_commit_response_v2_response offset_commit_response_v2_response-Reads t.responses
      v.responses_count v.responses)

pub offset_commit_response_v2-Framed : Framed read_offset_commit_response_v2
unfolding read_offset_commit_response_v2
offset_commit_response_v2-Framed =
    last-Framed _ (array-Framed offset_commit_response_v2_response-Framed)
