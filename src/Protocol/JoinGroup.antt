-- ===== src/Protocol/JoinGroup.antt =====
-- joingroup.go: the metadata of a group member, the JoinGroup request and its members.
use kafka_go.Prelude.{ℕ, ◌<◌, ◌^◌, List, ◌++◌, length, All}
use kafka_go.Wire.Bytes.{Slice, content}
use kafka_go.Wire.Reader.{Reader, pure, ◌>>=◌}
use kafka_go.Wire.Read.{read_int16, read_string, read_bytes, read_string_array}
use kafka_go.Wire.Write.{
  write_int16, write_int32, write_string, write_bytes, write_array, write_string_array,
}
use kafka_go.Wire.Size.{
  ◌⊕◌, sizeof_int16, sizeof_int32, sizeof_string, sizeof_bytes, sizeof_array, sizeof_string_array,
}
use kafka_go.Wire.Sizes.{Sizes, sizes, sizeof_array-Sizes}
use kafka_go.Wire.Reads.{Reads, >>=-Reads, last-Reads}
use kafka_go.Wire.Primitives.{
  IsString, canonical, int16-Reads, string-Reads, bytes-Reads, string_array-Reads,
}
use kafka_go.Wire.Frame.{
  Framed, >>=-Framed, last-Framed, int16-Framed, string-Framed, bytes-Framed, string_array-Framed,
}

pub record GroupMetadata : Type 0 where
  pub version : ℕ
  pub topics : List (List ℕ)
  pub user_data : Slice

unfoldable pub size_group_metadata : GroupMetadata → ℕ
size_group_metadata t =
    sizeof_int16 t.version ⊕ sizeof_string_array t.topics ⊕ sizeof_bytes t.user_data

unfoldable pub write_group_metadata : GroupMetadata → List ℕ
write_group_metadata t =
    write_int16 t.version ++ (write_string_array t.topics ++ write_bytes t.user_data)

unfoldable pub read_group_metadata : Reader GroupMetadata
read_group_metadata = do
  version ← read_int16
  topics ← read_string_array
  user_data ← read_bytes
  pure (record { version = version; topics = topics; user_data = user_data })

pub size_group_metadata-Sizes :
    (t : GroupMetadata) → Sizes (size_group_metadata t) (write_group_metadata t)
unfolding size_group_metadata write_group_metadata
size_group_metadata-Sizes t = omega sizes

-- The fields fit their encodings.
pub record IsGroupMetadata (t : GroupMetadata) : Type 0 where
  pub version : t.version < 2 ^ 16
  pub topics_count : length t.topics < 2 ^ 31
  pub topics : All IsString t.topics
  pub user_data : length (content t.user_data) < 2 ^ 31

-- An empty byte slice comes back as nil.
pub canonical_group_metadata : GroupMetadata → GroupMetadata
canonical_group_metadata t = record t { user_data = canonical t.user_data }

pub group_metadata-Reads :
    (t : GroupMetadata)
    → IsGroupMetadata t
    → Reads read_group_metadata (write_group_metadata t) (canonical_group_metadata t)
unfolding read_group_metadata write_group_metadata canonical_group_metadata
group_metadata-Reads t v = >>=-Reads _ (int16-Reads t.version v.version) (
    >>=-Reads _ (string_array-Reads t.topics v.topics_count v.topics)
      (last-Reads _ (bytes-Reads t.user_data v.user_data)))

pub group_metadata-Framed : Framed read_group_metadata
unfolding read_group_metadata
group_metadata-Framed =
    >>=-Framed _ int16-Framed λ _. >>=-Framed _ string_array-Framed λ _. last-Framed _ bytes-Framed

pub record JoinGroupRequestGroupProtocolV1 : Type 0 where
  pub protocol_name : List ℕ
  pub protocol_metadata : Slice

unfoldable pub size_join_group_request_group_protocol_v1 : JoinGroupRequestGroupProtocolV1 → ℕ
size_join_group_request_group_protocol_v1 t =
    sizeof_string t.protocol_name ⊕ sizeof_bytes t.protocol_metadata

unfoldable pub write_join_group_request_group_protocol_v1 : JoinGroupRequestGroupProtocolV1 → List ℕ
write_join_group_request_group_protocol_v1 t =
    write_string t.protocol_name ++ write_bytes t.protocol_metadata

pub size_join_group_request_group_protocol_v1-Sizes :
    (t : JoinGroupRequestGroupProtocolV1)
    → Sizes
        (size_join_group_request_group_protocol_v1 t)
        (write_join_group_request_group_protocol_v1 t)
unfolding size_join_group_request_group_protocol_v1 write_join_group_request_group_protocol_v1
size_join_group_request_group_protocol_v1-Sizes t = omega sizes

pub record JoinGroupRequestV1 : Type 0 where
  pub group_id : List ℕ
  pub session_timeout : ℕ
  pub rebalance_timeout : ℕ
  pub member_id : List ℕ
  pub protocol_type : List ℕ
  pub group_protocols : List JoinGroupRequestGroupProtocolV1

unfoldable pub size_join_group_request_v1 : JoinGroupRequestV1 → ℕ
size_join_group_request_v1 t =
    sizeof_string t.group_id
    ⊕ sizeof_int32 t.session_timeout
    ⊕ sizeof_int32 t.rebalance_timeout
    ⊕ sizeof_string t.member_id
    ⊕ sizeof_string t.protocol_type
    ⊕ sizeof_array size_join_group_request_group_protocol_v1 t.group_protocols

unfoldable pub write_join_group_request_v1 : JoinGroupRequestV1 → List ℕ
write_join_group_request_v1 t =
    write_string t.group_id
    ++ (write_int32 t.session_timeout
        ++ (write_int32 t.rebalance_timeout
            ++ (write_string t.member_id
                ++ (write_string t.protocol_type
                    ++ write_array write_join_group_request_group_protocol_v1 t.group_protocols))))

pub size_join_group_request_v1-Sizes :
    (t : JoinGroupRequestV1) → Sizes (size_join_group_request_v1 t) (write_join_group_request_v1 t)
unfolding size_join_group_request_v1 write_join_group_request_v1
size_join_group_request_v1-Sizes t = omega (
  sizes,
  sizeof_array-Sizes size_join_group_request_group_protocol_v1
      write_join_group_request_group_protocol_v1 size_join_group_request_group_protocol_v1-Sizes
      t.group_protocols,
)

pub record JoinGroupResponseMemberV1 : Type 0 where
  pub member_id : List ℕ
  pub member_metadata : Slice

unfoldable pub size_join_group_response_member_v1 : JoinGroupResponseMemberV1 → ℕ
size_join_group_response_member_v1 t = sizeof_string t.member_id ⊕ sizeof_bytes t.member_metadata

unfoldable pub write_join_group_response_member_v1 : JoinGroupResponseMemberV1 → List ℕ
write_join_group_response_member_v1 t = write_string t.member_id ++ write_bytes t.member_metadata

unfoldable pub read_join_group_response_member_v1 : Reader JoinGroupResponseMemberV1
read_join_group_response_member_v1 = do
  member_id ← read_string
  member_metadata ← read_bytes
  pure (record { member_id = member_id; member_metadata = member_metadata })

pub size_join_group_response_member_v1-Sizes :
    (t : JoinGroupResponseMemberV1)
    → Sizes (size_join_group_response_member_v1 t) (write_join_group_response_member_v1 t)
unfolding size_join_group_response_member_v1 write_join_group_response_member_v1
size_join_group_response_member_v1-Sizes t = omega sizes

-- The fields fit their encodings.
pub record IsJoinGroupResponseMemberV1 (t : JoinGroupResponseMemberV1) : Type 0 where
  pub member_id : IsString t.member_id
  pub member_metadata : length (content t.member_metadata) < 2 ^ 31

-- An empty byte slice comes back as nil.
pub canonical_join_group_response_member_v1 : JoinGroupResponseMemberV1 → JoinGroupResponseMemberV1
canonical_join_group_response_member_v1 t = record t {
  member_metadata = canonical t.member_metadata;
}

pub join_group_response_member_v1-Reads :
    (t : JoinGroupResponseMemberV1)
    → IsJoinGroupResponseMemberV1 t
    → Reads read_join_group_response_member_v1
        (write_join_group_response_member_v1 t)
        (canonical_join_group_response_member_v1 t)
unfolding read_join_group_response_member_v1 write_join_group_response_member_v1
    canonical_join_group_response_member_v1
join_group_response_member_v1-Reads t v =
    >>=-Reads _ (string-Reads t.member_id v.member_id)
      (last-Reads _ (bytes-Reads t.member_metadata v.member_metadata))

pub join_group_response_member_v1-Framed : Framed read_join_group_response_member_v1
unfolding read_join_group_response_member_v1
join_group_response_member_v1-Framed = >>=-Framed _ string-Framed λ _. last-Framed _ bytes-Framed
