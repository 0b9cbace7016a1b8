-- ===== src/Protocol/DescribeGroups.antt =====
-- describegroups.go: the DescribeGroups request and response.
use kafka_go.Prelude.{ℕ, ◌<◌, ◌^◌, List, ◌++◌, map, length, All}
use kafka_go.Wire.Bytes.{Slice, content}
use kafka_go.Wire.Reader.{Reader, pure, ◌>>=◌}
use kafka_go.Wire.Read.{read_int16, read_string, read_bytes, read_array_with}
use kafka_go.Wire.Write.{write_int16, write_string, write_bytes, write_array, write_string_array}
use kafka_go.Wire.Size.{
  ◌⊕◌, sizeof_int16, sizeof_string, sizeof_bytes, sizeof_array, sizeof_string_array,
}
use kafka_go.Wire.Sizes.{Sizes, sizes, sizeof_array-Sizes}
use kafka_go.Wire.Reads.{Reads, >>=-Reads, last-Reads}
use kafka_go.Wire.Primitives.{
  IsString, canonical, int16-Reads, string-Reads, bytes-Reads, array_map-Reads,
}
use kafka_go.Wire.Frame.{
  Framed, >>=-Framed, last-Framed, int16-Framed, string-Framed, bytes-Framed, array-Framed,
}

pub record DescribeGroupsRequestV0 : Type 0 where
  pub group_ids : List (List ℕ)

unfoldable pub size_describe_groups_request_v0 : DescribeGroupsRequestV0 → ℕ
size_describe_groups_request_v0 t = sizeof_string_array t.group_ids

unfoldable pub write_describe_groups_request_v0 : DescribeGroupsRequestV0 → List ℕ
write_describe_groups_request_v0 t = write_string_array t.group_ids

pub size_describe_groups_request_v0-Sizes :
    (t : DescribeGroupsRequestV0)
    → Sizes (size_describe_groups_request_v0 t) (write_describe_groups_request_v0 t)
unfolding size_describe_groups_request_v0 write_describe_groups_request_v0
size_describe_groups_request_v0-Sizes t = omega sizes

pub record DescribeGroupsResponseMemberV0 : Type 0 where
  pub member_id : List ℕ
  pub client_id : List ℕ
  pub client_host : List ℕ
  pub member_metadata : Slice
  pub member_assignments : Slice

unfoldable pub size_describe_groups_response_member_v0 : DescribeGroupsResponseMemberV0 → ℕ
size_describe_groups_response_member_v0 t =
    sizeof_string t.member_id
    ⊕ sizeof_string t.client_id
    ⊕ sizeof_string t.client_host
    ⊕ sizeof_bytes t.member_metadata
    ⊕ sizeof_bytes t.member_assignments

unfoldable pub write_describe_groups_response_member_v0 : DescribeGroupsResponseMemberV0 → List ℕ
write_describe_groups_response_member_v0 t =
    write_string t.member_id
    ++ (write_string t.client_id
        ++ (write_string t.client_host
            ++ (write_bytes t.member_metadata ++ write_bytes t.member_assignments)))

unfoldable pub read_describe_groups_response_member_v0 : Reader DescribeGroupsResponseMemberV0
read_describe_groups_response_member_v0 = do
  member_id ← read_string
  client_id ← read_string
  client_host ← read_string
  member_metadata ← read_bytes
  member_assignments ← read_bytes
  pure (record {
    member_id = member_id;
    client_id = client_id;
    client_host = client_host;
    member_metadata = member_metadata;
    member_assignments = member_assignments;
  })

pub size_describe_groups_response_member_v0-Sizes :
    (t : DescribeGroupsResponseMemberV0)
    → Sizes (size_describe_groups_response_member_v0 t) (write_describe_groups_response_member_v0 t)
unfolding size_describe_groups_response_member_v0 write_describe_groups_response_member_v0
size_describe_groups_response_member_v0-Sizes t = omega sizes

-- The fields fit their encodings.
pub record IsDescribeGroupsResponseMemberV0 (t : DescribeGroupsResponseMemberV0) : Type 0 where
  pub member_id : IsString t.member_id
  pub client_id : IsString t.client_id
  pub client_host : IsString t.client_host
  pub member_metadata : length (content t.member_metadata) < 2 ^ 31
  pub member_assignments : length (content t.member_assignments) < 2 ^ 31

-- An empty byte slice comes back as nil.
pub canonical_describe_groups_response_member_v0 :
    DescribeGroupsResponseMemberV0 → DescribeGroupsResponseMemberV0
canonical_describe_groups_response_member_v0 t = record t {
  member_metadata = canonical t.member_metadata;
  member_assignments = canonical t.member_assignments;
}

pub describe_groups_response_member_v0-Reads :
    (t : DescribeGroupsResponseMemberV0)
    → IsDescribeGroupsResponseMemberV0 t
    → Reads read_describe_groups_response_member_v0
        (write_describe_groups_response_member_v0 t)
        (canonical_describe_groups_response_member_v0 t)
unfolding read_describe_groups_response_member_v0 write_describe_groups_response_member_v0
    canonical_describe_groups_response_member_v0
describe_groups_response_member_v0-Reads t v = >>=-Reads _ (string-Reads t.member_id v.member_id) (
    >>=-Reads _ (string-Reads t.client_id v.client_id) (
      >>=-Reads _ (string-Reads t.client_host v.client_host) (
        >>=-Reads _ (bytes-Reads t.member_metadata v.member_metadata)
          (last-Reads _ (bytes-Reads t.member_assignments v.member_assignments)))))

pub describe_groups_response_member_v0-Framed : Framed read_describe_groups_response_member_v0
unfolding read_describe_groups_response_member_v0
describe_groups_response_member_v0-Framed = >>=-Framed _ string-Framed λ _.
    >>=-Framed _ string-Framed
      λ _. >>=-Framed _ string-Framed λ _. >>=-Framed _ bytes-Framed λ _. last-Framed _ bytes-Framed

pub record DescribeGroupsResponseGroupV0 : Type 0 where
  pub error_code : ℕ
  pub group_id : List ℕ
  pub state : List ℕ
  pub protocol_type : List ℕ
  pub protocol : List ℕ
  pub members : List DescribeGroupsResponseMemberV0

unfoldable pub size_describe_groups_response_group_v0 : DescribeGroupsResponseGroupV0 → ℕ
size_describe_groups_response_group_v0 t =
    sizeof_int16 t.error_code
    ⊕ sizeof_string t.group_id
    ⊕ sizeof_string t.state
    ⊕ sizeof_string t.protocol_type
    ⊕ sizeof_string t.protocol
    ⊕ sizeof_array size_describe_groups_response_member_v0 t.members

unfoldable pub write_describe_groups_response_group_v0 : DescribeGroupsResponseGroupV0 → List ℕ
write_describe_groups_response_group_v0 t =
    write_int16 t.error_code
    ++ (write_string t.group_id
        ++ (write_string t.state
            ++ (write_string t.protocol_type
                ++ (write_string t.protocol
                    ++ write_array write_describe_groups_response_member_v0 t.members))))

unfoldable pub read_describe_groups_response_group_v0 : Reader DescribeGroupsResponseGroupV0
read_describe_groups_response_group_v0 = do
  error_code ← read_int16
  group_id ← read_string
  state ← read_string
  protocol_type ← read_string
  protocol ← read_string
  members ← read_array_with read_describe_groups_response_member_v0
  pure (record {
    error_code = error_code;
    group_id = group_id;
    state = state;
    protocol_type = protocol_type;
    protocol = protocol;
    members = members;
  })

pub size_describe_groups_response_group_v0-Sizes :
    (t : DescribeGroupsResponseGroupV0)
    → Sizes (size_describe_groups_response_group_v0 t) (write_describe_groups_response_group_v0 t)
unfolding size_describe_groups_response_group_v0 write_describe_groups_response_group_v0
size_describe_groups_response_group_v0-Sizes t = omega (
  sizes,
  sizeof_array-Sizes size_describe_groups_response_member_v0
      write_describe_groups_response_member_v0 size_describe_groups_response_member_v0-Sizes
      t.members,
)

-- The fields fit their encodings.
pub record IsDescribeGroupsResponseGroupV0 (t : DescribeGroupsResponseGroupV0) : Type 0 where
  pub error_code : t.error_code < 2 ^ 16
  pub group_id : IsString t.group_id
  pub state : IsString t.state
  pub protocol_type : IsString t.protocol_type
  pub protocol : IsString t.protocol
  pub members_count : length t.members < 2 ^ 31
  pub members : All IsDescribeGroupsResponseMemberV0 t.members

-- An empty byte slice comes back as nil.
pub canonical_describe_groups_response_group_v0 :
    DescribeGroupsResponseGroupV0 → DescribeGroupsResponseGroupV0
canonical_describe_groups_response_group_v0 t = record t {
  members = map canonical_describe_groups_response_member_v0 t.members;
}

pub describe_groups_response_group_v0-Reads :
    (t : DescribeGroupsResponseGroupV0)
    → IsDescribeGroupsResponseGroupV0 t
    → Reads read_describe_groups_response_group_v0
        (write_describe_groups_response_group_v0 t)
        (canonical_describe_groups_response_group_v0 t)
unfolding read_describe_groups_response_group_v0 write_describe_groups_response_group_v0
    canonical_describe_groups_response_group_v0
describe_groups_response_group_v0-Reads t v = >>=-Reads _ (int16-Reads t.error_code v.error_code) (
    >>=-Reads _ (string-Reads t.group_id v.group_id) (
      >>=-Reads _ (string-Reads t.state v.state) (
        >>=-Reads _ (string-Reads t.protocol_type v.protocol_type) (
          >>=-Reads _ (string-Reads t.protocol v.protocol) (
            last-Reads _ (
              array_map-Reads IsDescribeGroupsResponseMemberV0
                read_describe_groups_response_member_v0 write_describe_groups_response_member_v0
                canonical_describe_groups_response_member_v0
                describe_groups_response_member_v0-Reads t.members v.members_count v.members))))))

pub describe_groups_response_group_v0-Framed : Framed read_describe_groups_response_group_v0
unfolding read_describe_groups_response_group_v0
describe_groups_response_group_v0-Framed = >>=-Framed _ int16-Framed λ _.
    >>=-Framed _ string-Framed λ _. >>=-Framed _ string-Framed λ _. >>=-Framed _ string-Framed λ _.
      >>=-Framed _ string-Framed
        λ _. last-Framed _ (array-Framed describe_groups_response_member_v0-Framed)

pub record DescribeGroupsResponseV0 : Type 0 where
  pub groups : List DescribeGroupsResponseGroupV0

unfoldable pub size_describe_groups_response_v0 : DescribeGroupsResponseV0 → ℕ
size_describe_groups_response_v0 t = sizeof_array size_describe_groups_response_group_v0 t.groups

unfoldable pub write_describe_groups_response_v0 : DescribeGroupsResponseV0 → List ℕ
write_describe_groups_response_v0 t = write_array write_describe_groups_response_group_v0 t.groups

unfoldable pub read_describe_groups_response_v0 : Reader DescribeGroupsResponseV0
read_describe_groups_response_v0 = do
  groups ← read_array_with read_describe_groups_response_group_v0
  pure (record { groups = groups })

pub size_describe_groups_response_v0-Sizes :
    (t : DescribeGroupsResponseV0)
    → Sizes (size_describe_groups_response_v0 t) (write_describe_groups_response_v0 t)
unfolding size_describe_groups_response_v0 write_describe_groups_response_v0
size_describe_groups_response_v0-Sizes t = omega (
  sizes,
  sizeof_array-Sizes size_describe_groups_response_group_v0 write_describe_groups_response_group_v0
      size_describe_groups_response_group_v0-Sizes t.groups,
)

-- The fields fit their encodings.
pub record IsDescribeGroupsResponseV0 (t : DescribeGroupsResponseV0) : Type 0 where
  pub groups_count : length t.groups < 2 ^ 31
  pub groups : All IsDescribeGroupsResponseGroupV0 t.groups

-- An empty byte slice comes back as nil.
pub canonical_describe_groups_response_v0 : DescribeGroupsResponseV0 → DescribeGroupsResponseV0
canonical_describe_groups_response_v0 t = record t {
  groups = map canonical_describe_groups_response_group_v0 t.groups;
}

pub describe_groups_response_v0-Reads :
    (t : DescribeGroupsResponseV0)
    → IsDescribeGroupsResponseV0 t
    → Reads read_describe_groups_response_v0
        (write_describe_groups_response_v0 t)
        (canonical_describe_groups_response_v0 t)
unfolding read_describe_groups_response_v0 write_describe_groups_response_v0
    canonical_describe_groups_response_v0
describe_groups_response_v0-Reads t v = last-Reads _ (
    array_map-Reads IsDescribeGroupsResponseGroupV0 read_describe_groups_response_group_v0
      write_describe_groups_response_group_v0 canonical_describe_groups_response_group_v0
      describe_groups_response_group_v0-Reads t.groups v.groups_count v.groups)

pub describe_groups_response_v0-Framed : Framed read_describe_groups_response_v0
unfolding read_describe_groups_response_v0
describe_groups_response_v0-Framed =
    last-Framed _ (array-Framed describe_groups_response_group_v0-Framed)
