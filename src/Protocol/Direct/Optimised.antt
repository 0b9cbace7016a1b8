-- ===== src/Protocol/Direct/Optimised.antt =====
-- The requests written directly are the frames of the data structures that they stand for.
use kafka_go.Prelude.{ℕ, ◌≡◌, ap, sym, ◌∙◌, List, [], ◌∷◌, ◌++◌, ℤ, append-nil}
use kafka_go.Time.{milliseconds, int32_of}
use kafka_go.Wire.Write.{write_array, write_items, write_array_len}
use kafka_go.Wire.Sizes.{sizes}
use kafka_go.Protocol.Interface.{Request}
use kafka_go.Protocol.Frame.{
  frame, header_fields, frame_header-frame, write_request, write_request-frame,
}
use kafka_go.Protocol.Fetch.{
  FetchRequestV2, FetchRequestTopicV2, write_fetch_request_partition_v2,
  write_fetch_request_topic_v2, size_fetch_request_v2, size_fetch_request_v2-Sizes,
}
use kafka_go.Protocol.Fetch
use kafka_go.Protocol.ListOffset.{
  ListOffsetRequestV1, write_list_offset_request_partition_v1, write_list_offset_request_topic_v1,
  size_list_offset_request_v1, size_list_offset_request_v1-Sizes,
}
use kafka_go.Protocol.ListOffset
use kafka_go.Protocol.Direct.{
  write_fetch_request_v2, write_fetch_request_v5, fetch_body_v5, write_list_offset_request_v1,
  minus_one, fetch_request, list_offset_request,
}

instance abbrev pub fetch_request_v2 : Request FetchRequestV2
fetch_request_v2 = record {
  size = size_fetch_request_v2;
  write_to = Fetch.write_fetch_request_v2;
  sized = size_fetch_request_v2-Sizes;
}

instance abbrev pub list_offset_request_v1 : Request ListOffsetRequestV1
list_offset_request_v1 = record {
  size = size_list_offset_request_v1;
  write_to = ListOffset.write_list_offset_request_v1;
  sized = size_list_offset_request_v1-Sizes;
}

-- The data structure for one partition.
abbrev pub fetch_one : List ℕ → ℕ → ℕ → ℤ → ℤ → ℤ → FetchRequestV2
fetch_one topic partition offset min_bytes max_bytes max_wait = record {
  replica_id = minus_one;
  max_wait_time = milliseconds max_wait;
  min_bytes = int32_of min_bytes;
  topics =
      record {
        topic_name = topic;
        partitions =
            record { partition = partition; fetch_offset = offset; max_bytes = int32_of max_bytes }
            ∷ [];
      }
      ∷ [];
}

abbrev pub list_one : List ℕ → ℕ → ℕ → ListOffsetRequestV1
list_one topic partition time = record {
  replica_id = minus_one;
  topics =
      record { topic_name = topic; partitions = record { partition = partition; time = time } ∷ [] }
      ∷ [];
}

-- An array of one item.
array_one {ℓ} :
    {A : Type ℓ} (f : A → List ℕ) (x : A) → write_array f (x ∷ []) ≡ write_array_len 1 ++ f x
unfolding write_array write_items
array_one f x = ap (◌++◌ (write_array_len 1)) (append-nil (f x))

-- writeFetchRequestV2 writes what the generic path writes for the data structure of a fetch request
-- for one partition.
pub write_fetch_request_v2-eq-write_request :
    (id : ℕ) (client topic : List ℕ) (partition offset : ℕ) (min_bytes max_bytes max_wait : ℤ)
    → write_fetch_request_v2 id client topic partition offset min_bytes max_bytes max_wait
      ≡ write_request fetch_request 2 id client
          (fetch_one topic partition offset min_bytes max_bytes max_wait)
unfolding write_fetch_request_v2 Fetch.write_fetch_request_v2 write_fetch_request_topic_v2
    write_fetch_request_partition_v2
write_fetch_request_v2-eq-write_request id client topic partition offset min_bytes max_bytes
      max_wait =
    frame_header-frame fetch_request 2 id _ client _ (omega sizes)
    ∙ sym (
        write_request-frame fetch_request 2 id client
          (fetch_one topic partition offset min_bytes max_bytes max_wait)
        ∙ simp array_one)

-- writeFetchRequestV5 writes one frame: the announced length is the number of bytes that follow it.
pub write_fetch_request_v5-frame :
    (id : ℕ) (client topic : List ℕ) (partition offset : ℕ) (min_bytes max_bytes max_wait : ℤ)
    (isolation : ℕ)
    → write_fetch_request_v5 id client topic partition offset min_bytes max_bytes max_wait isolation
      ≡ frame (
          header_fields fetch_request 5 id client
          ++ fetch_body_v5 topic partition offset min_bytes max_bytes max_wait isolation)
unfolding write_fetch_request_v5 fetch_body_v5
write_fetch_request_v5-frame id client topic partition offset min_bytes max_bytes max_wait
      isolation =
    frame_header-frame fetch_request 5 id _ client _ (omega sizes)

-- The bytes of writeListOffsetRequestV1 are those that the generic path writes for the data
-- structure of a list offset request for one partition.
pub write_list_offset_request_v1-eq-write_request :
    (id : ℕ) (client topic : List ℕ) (partition time : ℕ)
    → write_list_offset_request_v1 id client topic partition time
      ≡ write_request list_offset_request 1 id client (list_one topic partition time)
unfolding write_list_offset_request_v1 ListOffset.write_list_offset_request_v1
    write_list_offset_request_topic_v1 write_list_offset_request_partition_v1
write_list_offset_request_v1-eq-write_request id client topic partition time =
    frame_header-frame list_offset_request 1 id _ client _ (omega sizes)
    ∙ sym (
        write_request-frame list_offset_request 1 id client (list_one topic partition time)
        ∙ simp array_one)
