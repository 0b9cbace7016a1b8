-- ===== src/Protocol/CreateTopics.antt =====
-- createtopics.go: the CreateTopics request and response.
use kafka_go.Prelude.{ℕ, ◌<◌, ◌^◌, List, ◌++◌, length, All}
use kafka_go.Wire.Reader.{Reader, pure, ◌>>=◌}
use kafka_go.Wire.Read.{read_int16, read_string, read_array_with}
use kafka_go.Wire.Write.{write_int16, write_int32, write_string, write_array}
use kafka_go.Wire.Size.{◌⊕◌, sizeof_int16, sizeof_int32, sizeof_string, sizeof_array}
use kafka_go.Wire.Sizes.{Sizes, sizes, sizeof_array-Sizes}
use kafka_go.Wire.Reads.{Reads, >>=-Reads, last-Reads}
use kafka_go.Wire.Primitives.{IsString, int16-Reads, string-Reads, array-Reads}
use kafka_go.Wire.Frame.{Framed, >>=-Framed, last-Framed, int16-Framed, string-Framed, array-Framed}

pub record CreateTopicsRequestV0ConfigEntry : Type 0 where
  pub config_name : List ℕ
  pub config_value : List ℕ

unfoldable pub size_create_topics_request_v0_config_entry : CreateTopicsRequestV0ConfigEntry → ℕ
size_create_topics_request_v0_config_entry t =
    sizeof_string t.config_name ⊕ sizeof_string t.config_value

unfoldable pub write_create_topics_request_v0_config_entry :
    CreateTopicsRequestV0ConfigEntry → List ℕ
write_create_topics_request_v0_config_entry t =
    write_string t.config_name ++ write_string t.config_value

pub size_create_topics_request_v0_config_entry-Sizes :
    (t : CreateTopicsRequestV0ConfigEntry)
    → Sizes
        (size_create_topics_request_v0_config_entry t)
        (write_create_topics_request_v0_config_entry t)
unfolding size_create_topics_request_v0_config_entry write_create_topics_request_v0_config_entry
size_create_topics_request_v0_config_entry-Sizes t = omega sizes

pub record CreateTopicsRequestV0ReplicaAssignment : Type 0 where
  pub partition : ℕ
  pub replicas : ℕ

unfoldable pub size_create_topics_request_v0_replica_assignment :
    CreateTopicsRequestV0ReplicaAssignment → ℕ
size_create_topics_request_v0_replica_assignment t =
    sizeof_int32 t.partition ⊕ sizeof_int32 t.replicas

unfoldable pub write_create_topics_request_v0_replica_assignment :
    CreateTopicsRequestV0ReplicaAssignment → List ℕ
write_create_topics_request_v0_replica_assignment t =
    write_int32 t.partition ++ write_int32 t.replicas

pub size_create_topics_request_v0_replica_assignment-Sizes :
    (t : CreateTopicsRequestV0ReplicaAssignment)
    → Sizes
        (size_create_topics_request_v0_replica_assignment t)
        (write_create_topics_request_v0_replica_assignment t)
unfolding size_create_topics_request_v0_replica_assignment
    write_create_topics_request_v0_replica_assignment
size_create_topics_request_v0_replica_assignment-Sizes t = omega sizes

pub record CreateTopicsRequestV0Topic : Type 0 where
  pub topic : List ℕ
  pub num_partitions : ℕ
  pub replication_factor : ℕ
  pub replica_assignments : List CreateTopicsRequestV0ReplicaAssignment
  pub config_entries : List CreateTopicsRequestV0ConfigEntry

unfoldable pub size_create_topics_request_v0_topic : CreateTopicsRequestV0Topic → ℕ
size_create_topics_request_v0_topic t =
    sizeof_string t.topic
    ⊕ sizeof_int32 t.num_partitions
    ⊕ sizeof_int16 t.replication_factor
    ⊕ sizeof_array size_create_topics_request_v0_replica_assignment t.replica_assignments
    ⊕ sizeof_array size_create_topics_request_v0_config_entry t.config_entries

unfoldable pub write_create_topics_request_v0_topic : CreateTopicsRequestV0Topic → List ℕ
write_create_topics_request_v0_topic t =
    write_string t.topic
    ++ (write_int32 t.num_partitions
        ++ (write_int16 t.replication_factor
            ++ (write_array write_create_topics_request_v0_replica_assignment t.replica_assignments
                ++ write_array write_create_topics_request_v0_config_entry t.config_entries)))

pub size_create_topics_request_v0_topic-Sizes :
    (t : CreateTopicsRequestV0Topic)
    → Sizes (size_create_topics_request_v0_topic t) (write_create_topics_request_v0_topic t)
unfolding size_create_topics_request_v0_topic write_create_topics_request_v0_topic
size_create_topics_request_v0_topic-Sizes t = omega (
  sizes,
  sizeof_array-Sizes size_create_topics_request_v0_replica_assignment
      write_create_topics_request_v0_replica_assignment
      size_create_topics_request_v0_replica_assignment-Sizes t.replica_assignments,
  sizeof_array-Sizes size_create_topics_request_v0_config_entry
      write_create_topics_request_v0_config_entry size_create_topics_request_v0_config_entry-Sizes
      t.config_entries,
)

pub record CreateTopicsRequestV0 : Type 0 where
  pub topics : List CreateTopicsRequestV0Topic
  pub timeout : ℕ

unfoldable pub size_create_topics_request_v0 : CreateTopicsRequestV0 → ℕ
size_create_topics_request_v0 t =
    sizeof_array size_create_topics_request_v0_topic t.topics ⊕ sizeof_int32 t.timeout

unfoldable pub write_create_topics_request_v0 : CreateTopicsRequestV0 → List ℕ
write_create_topics_request_v0 t =
    write_array write_create_topics_request_v0_topic t.topics ++ write_int32 t.timeout

pub size_create_topics_request_v0-Sizes :
    (t : CreateTopicsRequestV0)
    → Sizes (size_create_topics_request_v0 t) (write_create_topics_request_v0 t)
unfolding size_create_topics_request_v0 write_create_topics_request_v0
size_create_topics_request_v0-Sizes t = omega (
  sizes,
  sizeof_array-Sizes size_create_topics_request_v0_topic write_create_topics_request_v0_topic
      size_create_topics_request_v0_topic-Sizes t.topics,
)

pub record CreateTopicsResponseV0TopicError : Type 0 where
  pub topic : List ℕ
  pub error_code : ℕ

unfoldable pub size_create_topics_response_v0_topic_error : CreateTopicsResponseV0TopicError → ℕ
size_create_topics_response_v0_topic_error t = sizeof_string t.topic ⊕ sizeof_int16 t.error_code

unfoldable pub write_create_topics_response_v0_topic_error :
    CreateTopicsResponseV0TopicError → List ℕ
write_create_topics_response_v0_topic_error t = write_string t.topic ++ write_int16 t.error_code

unfoldable pub read_create_topics_response_v0_topic_error : Reader CreateTopicsResponseV0TopicError
read_create_topics_response_v0_topic_error = do
  topic ← read_string
  error_code ← read_int16
  pure (record { topic = topic; error_code = error_code })

pub size_create_topics_response_v0_topic_error-Sizes :
    (t : CreateTopicsResponseV0TopicError)
    → Sizes
        (size_create_topics_response_v0_topic_error t)
        (write_create_topics_response_v0_topic_error t)
unfolding size_create_topics_response_v0_topic_error write_create_topics_response_v0_topic_error
size_create_topics_response_v0_topic_error-Sizes t = omega sizes

-- The fields fit their encodings.
pub record IsCreateTopicsResponseV0TopicError (t : CreateTopicsResponseV0TopicError) : Type 0 where
  pub topic : IsString t.topic
  pub error_code : t.error_code < 2 ^ 16

pub create_topics_response_v0_topic_error-Reads :
    (t : CreateTopicsResponseV0TopicError)
    → IsCreateTopicsResponseV0TopicError t
    → Reads read_create_topics_response_v0_topic_error
        (write_create_topics_response_v0_topic_error t)
        t
unfolding read_create_topics_response_v0_topic_error write_create_topics_response_v0_topic_error
create_topics_response_v0_topic_error-Reads t v =
    >>=-Reads _ (string-Reads t.topic v.topic)
      (last-Reads _ (int16-Reads t.error_code v.error_code))

pub create_topics_response_v0_topic_error-Framed : Framed read_create_topics_response_v0_topic_error
unfolding read_create_topics_response_v0_topic_error
create_topics_response_v0_topic_error-Framed =
    >>=-Framed _ string-Framed λ _. last-Framed _ int16-Framed

pub record CreateTopicsResponseV0 : Type 0 where
  pub topic_errors : List CreateTopicsResponseV0TopicError

unfoldable pub size_create_topics_response_v0 : CreateTopicsResponseV0 → ℕ
size_create_topics_response_v0 t =
    sizeof_array size_create_topics_response_v0_topic_error t.topic_errors

unfoldable pub write_create_topics_response_v0 : CreateTopicsResponseV0 → List ℕ
write_create_topics_response_v0 t =
    write_array write_create_topics_response_v0_topic_error t.topic_errors

unfoldable pub read_create_topics_response_v0 : Reader CreateTopicsResponseV0
read_create_topics_response_v0 = do
  topic_errors ← read_array_with read_create_topics_response_v0_topic_error
  pure (record { topic_errors = topic_errors })

pub size_create_topics_response_v0-Sizes :
    (t : CreateTopicsResponseV0)
    → Sizes (size_create_topics_response_v0 t) (write_create_topics_response_v0 t)
unfolding size_create_topics_response_v0 write_create_topics_response_v0
size_create_topics_response_v0-Sizes t = omega (
  sizes,
  sizeof_array-Sizes size_create_topics_response_v0_topic_error
      write_create_topics_response_v0_topic_error size_create_topics_response_v0_topic_error-Sizes
      t.topic_errors,
)

-- The fields fit their encodings.
pub record IsCreateTopicsResponseV0 (t : CreateTopicsResponseV0) : Type 0 where
  pub topic_errors_count : length t.topic_errors < 2 ^ 31
  pub topic_errors : All IsCreateTopicsResponseV0TopicError t.topic_errors

pub create_topics_response_v0-Reads :
    (t : CreateTopicsResponseV0)
    → IsCreateTopicsResponseV0 t
    → Reads read_create_topics_response_v0 (write_create_topics_response_v0 t) t
unfolding read_create_topics_response_v0 write_create_topics_response_v0
create_topics_response_v0-Reads t v = last-Reads _ (
    array-Reads IsCreateTopicsResponseV0TopicError read_create_topics_response_v0_topic_error
      write_create_topics_response_v0_topic_error create_topics_response_v0_topic_error-Reads
      t.topic_errors v.topic_errors_count v.topic_errors)

pub create_topics_response_v0-Framed : Framed read_create_topics_response_v0
unfolding read_create_topics_response_v0
create_topics_response_v0-Framed =
    last-Framed _ (array-Framed create_topics_response_v0_topic_error-Framed)
