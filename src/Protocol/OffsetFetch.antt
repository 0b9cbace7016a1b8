-- ===== src/Protocol/OffsetFetch.antt =====
-- offsetfetch.go: the OffsetFetch request and response.
use kafka_go.Prelude.{ℕ, ◌<◌, ◌^◌, List, ◌++◌, length, All}
use kafka_go.Wire.Reader.{Reader, pure, ◌>>=◌}
use kafka_go.Wire.Read.{read_int16, read_int32, read_int64, read_string, read_array_with}
use kafka_go.Wire.Write.{
  write_int16, write_int32, write_int64, write_string, write_array, write_int32_array,
}
use kafka_go.Wire.Size.{
  ◌⊕◌, sizeof_int16, sizeof_int32, sizeof_int64, sizeof_string, sizeof_array, sizeof_int32_array,
}
use kafka_go.Wire.Sizes.{Sizes, sizes, sizeof_array-Sizes}
use kafka_go.Wire.Reads.{Reads, >>=-Reads, last-Reads}
use kafka_go.Wire.Primitives.{
  IsString, int16-Reads, int32-Reads, int64-Reads, string-Reads, array-Reads,
}
use kafka_go.Wire.Frame.{
  Framed, >>=-Framed, last-Framed, int16-Framed, int32-Framed, int64-Framed, string-Framed,
  array-Framed,
}

pub record OffsetFetchRequestV1Topic : Type 0 where
  pub topic : List ℕ
  pub partitions : List ℕ

unfoldable pub size_offset_fetch_request_v1_topic : OffsetFetchRequestV1Topic → ℕ
size_offset_fetch_request_v1_topic t = sizeof_string t.topic ⊕ sizeof_int32_array t.partitions

unfoldable pub write_offset_fetch_request_v1_topic : OffsetFetchRequestV1Topic → List ℕ
write_offset_fetch_request_v1_topic t = write_string t.topic ++ write_int32_array t.partitions

pub size_offset_fetch_request_v1_topic-Sizes :
    (t : OffsetFetchRequestV1Topic)
    → Sizes (size_offset_fetch_request_v1_topic t) (write_offset_fetch_request_v1_topic t)
unfolding size_offset_fetch_request_v1_topic write_offset_fetch_request_v1_topic
size_offset_fetch_request_v1_topic-Sizes t = omega sizes

pub record OffsetFetchRequestV1 : Type 0 where
  pub group_id : List ℕ
  pub topics : List OffsetFetchRequestV1Topic

unfoldable pub size_offset_fetch_request_v1 : OffsetFetchRequestV1 → ℕ
size_offset_fetch_request_v1 t =
    sizeof_string t.group_id ⊕ sizeof_array size_offset_fetch_request_v1_topic t.topics

unfoldable pub write_offset_fetch_request_v1 : OffsetFetchRequestV1 → List ℕ
write_offset_fetch_request_v1 t =
    write_string t.group_id ++ write_array write_offset_fetch_request_v1_topic t.topics

pub size_offset_fetch_request_v1-Sizes :
    (t : OffsetFetchRequestV1)
    → Sizes (size_offset_fetch_request_v1 t) (write_offset_fetch_request_v1 t)
unfolding size_offset_fetch_request_v1 write_offset_fetch_request_v1
size_offset_fetch_request_v1-Sizes t = omega (
  sizes,
  sizeof_array-Sizes size_offset_fetch_request_v1_topic write_offset_fetch_request_v1_topic
      size_offset_fetch_request_v1_topic-Sizes t.topics,
)

pub record OffsetFetchResponseV1PartitionResponse : Type 0 where
  pub partition : ℕ
  pub offset : ℕ
  pub metadata : List ℕ
  pub error_code : ℕ

unfoldable pub size_offset_fetch_response_v1_partition_response :
    OffsetFetchResponseV1PartitionResponse → ℕ
size_offset_fetch_response_v1_partition_response t =
    sizeof_int32 t.partition
    ⊕ sizeof_int64 t.offset
    ⊕ sizeof_string t.metadata
    ⊕ sizeof_int16 t.error_code

unfoldable pub write_offset_fetch_response_v1_partition_response :
    OffsetFetchResponseV1PartitionResponse → List ℕ
write_offset_fetch_response_v1_partition_response t =
    write_int32 t.partition
    ++ (write_int64 t.offset ++ (write_string t.metadata ++ write_int16 t.error_code))

unfoldable pub read_offset_fetch_response_v1_partition_response :
    Reader OffsetFetchResponseV1PartitionResponse
read_offset_fetch_response_v1_partition_response = do
  partition ← read_int32
  offset ← read_int64
  metadata ← read_string
  error_code ← read_int16
  pure (record {
    partition = partition;
    offset = offset;
    metadata = metadata;
    error_code = error_code;
  })

pub size_offset_fetch_response_v1_partition_response-Sizes :
    (t : OffsetFetchResponseV1PartitionResponse)
    → Sizes
        (size_offset_fetch_response_v1_partition_response t)
        (write_offset_fetch_response_v1_partition_response t)
unfolding size_offset_fetch_response_v1_partition_response
    write_offset_fetch_response_v1_partition_response
size_offset_fetch_response_v1_partition_response-Sizes t = omega sizes

-- The fields fit their encodings.
pub record IsOffsetFetchResponseV1PartitionResponse (t : OffsetFetchResponseV1PartitionResponse)
    : Type 0 where
  pub partition : t.partition < 2 ^ 32
  pub offset : t.offset < 2 ^ 64
  pub metadata : IsString t.metadata
  pub error_code : t.error_code < 2 ^ 16

pub offset_fetch_response_v1_partition_response-Reads :
    (t : OffsetFetchResponseV1PartitionResponse)
    → IsOffsetFetchResponseV1PartitionResponse t
    → Reads read_offset_fetch_response_v1_partition_response
        (write_offset_fetch_response_v1_partition_response t)
        t
unfolding read_offset_fetch_response_v1_partition_response
    write_offset_fetch_response_v1_partition_response
offset_fetch_response_v1_partition_response-Reads t v =
    >>=-Reads _ (int32-Reads t.partition v.partition) (
      >>=-Reads _ (int64-Reads t.offset v.offset) (
        >>=-Reads _ (string-Reads t.metadata v.metadata)
          (last-Reads _ (int16-Reads t.error_code v.error_code))))

pub offset_fetch_response_v1_partition_response-Framed :
    Framed read_offset_fetch_response_v1_partition_response
unfolding read_offset_fetch_response_v1_partition_response
offset_fetch_response_v1_partition_response-Framed =
    >>=-Framed _ int32-Framed
      λ _. >>=-Framed _ int64-Framed λ _. >>=-Framed _ string-Framed λ _. last-Framed _ int16-Framed

pub record OffsetFetchResponseV1Response : Type 0 where
  pub topic : List ℕ
  pub partition_responses : List OffsetFetchResponseV1PartitionResponse

unfoldable pub size_offset_fetch_response_v1_response : OffsetFetchResponseV1Response → ℕ
size_offset_fetch_response_v1_response t =
    sizeof_string t.topic
    ⊕ sizeof_array size_offset_fetch_response_v1_partition_response t.partition_responses

unfoldable pub write_offset_fetch_response_v1_response : OffsetFetchResponseV1Response → List ℕ
write_offset_fetch_response_v1_response t =
    write_string t.topic
    ++ write_array write_offset_fetch_response_v1_partition_response t.partition_responses

unfoldable pub read_offset_fetch_response_v1_response : Reader OffsetFetchResponseV1Response
read_offset_fetch_response_v1_response = do
  topic ← read_string
  partition_responses ← read_array_with read_offset_fetch_response_v1_partition_response
  pure (record { topic = topic; partition_responses = partition_responses })

pub size_offset_fetch_response_v1_response-Sizes :
    (t : OffsetFetchResponseV1Response)
    → Sizes (size_offset_fetch_response_v1_response t) (write_offset_fetch_response_v1_response t)
unfolding size_offset_fetch_response_v1_response write_offset_fetch_response_v1_response
size_offset_fetch_response_v1_response-Sizes t = omega (
  sizes,
  sizeof_array-Sizes size_offset_fetch_response_v1_partition_response
      write_offset_fetch_response_v1_partition_response
      size_offset_fetch_response_v1_partition_response-Sizes t.partition_responses,
)

-- The fields fit their encodings.
pub record IsOffsetFetchResponseV1Response (t : OffsetFetchResponseV1Response) : Type 0 where
  pub topic : IsString t.topic
  pub partition_responses_count : length t.partition_responses < 2 ^ 31
  pub partition_responses : All IsOffsetFetchResponseV1PartitionResponse t.partition_responses

pub offset_fetch_response_v1_response-Reads :
    (t : OffsetFetchResponseV1Response)
    → IsOffsetFetchResponseV1Response t
    → Reads read_offset_fetch_response_v1_response (write_offset_fetch_response_v1_response t) t
unfolding read_offset_fetch_response_v1_response write_offset_fetch_response_v1_response
offset_fetch_response_v1_response-Reads t v = >>=-Reads _ (string-Reads t.topic v.topic) (
    last-Reads _ (
      array-Reads IsOffsetFetchResponseV1PartitionResponse
        read_offset_fetch_response_v1_partition_response
        write_offset_fetch_response_v1_partition_response
        offset_fetch_response_v1_partition_response-Reads t.partition_responses
        v.partition_responses_count v.partition_responses))

pub offset_fetch_response_v1_response-Framed : Framed read_offset_fetch_response_v1_response
unfolding read_offset_fetch_response_v1_response
offset_fetch_response_v1_response-Framed =
    >>=-Framed _ string-Framed
      λ _. last-Framed _ (array-Framed offset_fetch_response_v1_partition_response-Framed)

pub record OffsetFetchResponseV1 : Type 0 where
  pub responses : List OffsetFetchResponseV1Response

unfoldable pub size_offset_fetch_response_v1 : OffsetFetchResponseV1 → ℕ
size_offset_fetch_response_v1 t = sizeof_array size_offset_fetch_response_v1_response t.responses

unfoldable pub write_offset_fetch_response_v1 : OffsetFetchResponseV1 → List ℕ
write_offset_fetch_response_v1 t = write_array write_offset_fetch_response_v1_response t.responses

unfoldable pub read_offset_fetch_response_v1 : Reader OffsetFetchResponseV1
read_offset_fetch_response_v1 = do
  responses ← read_array_with read_offset_fetch_response_v1_response
  pure (record { responses = responses })

pub size_offset_fetch_response_v1-Sizes :
    (t : OffsetFetchResponseV1)
    → Sizes (size_offset_fetch_response_v1 t) (write_offset_fetch_response_v1 t)
unfolding size_offset_fetch_response_v1 write_offset_fetch_response_v1
size_offset_fetch_response_v1-Sizes t = omega (
  sizes,
  sizeof_array-Sizes size_offset_fetch_response_v1_response write_offset_fetch_response_v1_response
      size_offset_fetch_response_v1_response-Sizes t.responses,
)

-- The fields fit their encodings.
pub record IsOffsetFetchResponseV1 (t : OffsetFetchResponseV1) : Type 0 where
  pub responses_count : length t.responses < 2 ^ 31
  pub responses : All IsOffsetFetchResponseV1Response t.responses

pub offset_fetch_response_v1-Reads :
    (t : OffsetFetchResponseV1)
    → IsOffsetFetchResponseV1 t
    → Reads read_offset_fetch_response_v1 (write_offset_fetch_response_v1 t) t
unfolding read_offset_fetch_response_v1 write_offset_fetch_response_v1
offset_fetch_response_v1-Reads t v = last-Reads _ (
    array-Reads IsOffsetFetchResponseV1Response read_offset_fetch_response_v1_response
      write_offset_fetch_response_v1_response offset_fetch_response_v1_response-Reads t.responses
      v.responses_count v.responses)

pub offset_fetch_response_v1-Framed : Framed read_offset_fetch_response_v1
unfolding read_offset_fetch_response_v1
offset_fetch_response_v1-Framed =
    last-Framed _ (array-Framed offset_fetch_response_v1_response-Framed)
