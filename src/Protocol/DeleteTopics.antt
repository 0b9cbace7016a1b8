-- ===== src/Protocol/DeleteTopics.antt =====
-- deletetopics.go: the DeleteTopics request and response.
use kafka_go.Prelude.{ℕ, ◌<◌, ◌^◌, List, ◌++◌, length, All}
use kafka_go.Wire.Reader.{Reader, pure, ◌>>=◌}
use kafka_go.Wire.Read.{read_int16, read_string, read_array_with}
use kafka_go.Wire.Write.{write_int16, write_int32, write_string, write_array, write_string_array}
use kafka_go.Wire.Size.{
  ◌⊕◌, sizeof_int16, sizeof_int32, sizeof_string, sizeof_array, sizeof_string_array,
}
use kafka_go.Wire.Sizes.{Sizes, sizes, sizeof_array-Sizes}
use kafka_go.Wire.Reads.{Reads, >>=-Reads, last-Reads}
use kafka_go.Wire.Primitives.{IsString, int16-Reads, string-Reads, array-Reads}
use kafka_go.Wire.Frame.{Framed, >>=-Framed, last-Framed, int16-Framed, string-Framed, array-Framed}

pub record DeleteTopicsRequestV0 : Type 0 where
  pub topics : List (List ℕ)
  pub timeout : ℕ

unfoldable pub size_delete_topics_request_v0 : DeleteTopicsRequestV0 → ℕ
size_delete_topics_request_v0 t = sizeof_string_array t.topics ⊕ sizeof_int32 t.timeout

unfoldable pub write_delete_topics_request_v0 : DeleteTopicsRequestV0 → List ℕ
write_delete_topics_request_v0 t = write_string_array t.topics ++ write_int32 t.timeout

pub size_delete_topics_request_v0-Sizes :
    (t : DeleteTopicsRequestV0)
    → Sizes (size_delete_topics_request_v0 t) (write_delete_topics_request_v0 t)
unfolding size_delete_topics_request_v0 write_delete_topics_request_v0
size_delete_topics_request_v0-Sizes t = omega sizes

pub record DeleteTopicsResponseV0TopicErrorCode : Type 0 where
  pub topic : List ℕ
  pub error_code : ℕ

unfoldable pub size_delete_topics_response_v0_topic_error_code :
    DeleteTopicsResponseV0TopicErrorCode → ℕ
size_delete_topics_response_v0_topic_error_code t =
    sizeof_string t.topic ⊕ sizeof_int16 t.error_code

unfoldable pub write_delete_topics_response_v0_topic_error_code :
    DeleteTopicsResponseV0TopicErrorCode → List ℕ
write_delete_topics_response_v0_topic_error_code t =
    write_string t.topic ++ write_int16 t.error_code

unfoldable pub read_delete_topics_response_v0_topic_error_code :
    Reader DeleteTopicsResponseV0TopicErrorCode
read_delete_topics_response_v0_topic_error_code = do
  topic ← read_string
  error_code ← read_int16
  pure (record { topic = topic; error_code = error_code })

pub size_delete_topics_response_v0_topic_error_code-Sizes :
    (t : DeleteTopicsResponseV0TopicErrorCode)
    → Sizes
        (size_delete_topics_response_v0_topic_error_code t)
        (write_delete_topics_response_v0_topic_error_code t)
unfolding size_delete_topics_response_v0_topic_error_code
    write_delete_topics_response_v0_topic_error_code
size_delete_topics_response_v0_topic_error_code-Sizes t = omega sizes

-- The fields fit their encodings.
pub record IsDeleteTopicsResponseV0TopicErrorCode (t : DeleteTopicsResponseV0TopicErrorCode)
    : Type 0 where
  pub topic : IsString t.topic
  pub error_code : t.error_code < 2 ^ 16

pub delete_topics_response_v0_topic_error_code-Reads :
    (t : DeleteTopicsResponseV0TopicErrorCode)
    → IsDeleteTopicsResponseV0TopicErrorCode t
    → Reads read_delete_topics_response_v0_topic_error_code
        (write_delete_topics_response_v0_topic_error_code t)
        t
unfolding read_delete_topics_response_v0_topic_error_code
    write_delete_topics_response_v0_topic_error_code
delete_topics_response_v0_topic_error_code-Reads t v =
    >>=-Reads _ (string-Reads t.topic v.topic)
      (last-Reads _ (int16-Reads t.error_code v.error_code))

pub delete_topics_response_v0_topic_error_code-Framed :
    Framed read_delete_topics_response_v0_topic_error_code
unfolding read_delete_topics_response_v0_topic_error_code
delete_topics_response_v0_topic_error_code-Framed =
    >>=-Framed _ string-Framed λ _. last-Framed _ int16-Framed

pub record DeleteTopicsResponseV0 : Type 0 where
  pub topic_error_codes : List DeleteTopicsResponseV0TopicErrorCode

unfoldable pub size_delete_topics_response_v0 : DeleteTopicsResponseV0 → ℕ
size_delete_topics_response_v0 t =
    sizeof_array size_delete_topics_response_v0_topic_error_code t.topic_error_codes

unfoldable pub write_delete_topics_response_v0 : DeleteTopicsResponseV0 → List ℕ
write_delete_topics_response_v0 t =
    write_array write_delete_topics_response_v0_topic_error_code t.topic_error_codes

unfoldable pub read_delete_topics_response_v0 : Reader DeleteTopicsResponseV0
read_delete_topics_response_v0 = do
  topic_error_codes ← read_array_with read_delete_topics_response_v0_topic_error_code
  pure (record { topic_error_codes = topic_error_codes })

pub size_delete_topics_response_v0-Sizes :
    (t : DeleteTopicsResponseV0)
    → Sizes (size_delete_topics_response_v0 t) (write_delete_topics_response_v0 t)
unfolding size_delete_topics_response_v0 write_delete_topics_response_v0
size_delete_topics_response_v0-Sizes t = omega (
  sizes,
  sizeof_array-Sizes size_delete_topics_response_v0_topic_error_code
      write_delete_topics_response_v0_topic_error_code
      size_delete_topics_response_v0_topic_error_code-Sizes t.topic_error_codes,
)

-- The fields fit their encodings.
pub record IsDeleteTopicsResponseV0 (t : DeleteTopicsResponseV0) : Type 0 where
  pub topic_error_codes_count : length t.topic_error_codes < 2 ^ 31
  pub topic_error_codes : All IsDeleteTopicsResponseV0TopicErrorCode t.topic_error_codes

pub delete_topics_response_v0-Reads :
    (t : DeleteTopicsResponseV0)
    → IsDeleteTopicsResponseV0 t
    → Reads read_delete_topics_response_v0 (write_delete_topics_response_v0 t) t
unfolding read_delete_topics_response_v0 write_delete_topics_response_v0
delete_topics_response_v0-Reads t v = last-Reads _ (
    array-Reads IsDeleteTopicsResponseV0TopicErrorCode
      read_delete_topics_response_v0_topic_error_code
      write_delete_topics_response_v0_topic_error_code
      delete_topics_response_v0_topic_error_code-Reads t.topic_error_codes v.topic_error_codes_count
      v.topic_error_codes)

pub delete_topics_response_v0-Framed : Framed read_delete_topics_response_v0
unfolding read_delete_topics_response_v0
delete_topics_response_v0-Framed =
    last-Framed _ (array-Framed delete_topics_response_v0_topic_error_code-Framed)
