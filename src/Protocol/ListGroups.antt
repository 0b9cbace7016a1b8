-- ===== src/Protocol/ListGroups.antt =====
-- listgroups.go: the ListGroups response.
use kafka_go.Prelude.{ℕ, ◌<◌, ◌^◌, List, ◌++◌, length, All}
use kafka_go.Wire.Reader.{Reader, pure, ◌>>=◌}
use kafka_go.Wire.Read.{read_int16, read_int32, read_string, read_array_with}
use kafka_go.Wire.Write.{write_int16, write_int32, write_string, write_array}
use kafka_go.Wire.Size.{◌⊕◌, sizeof_int16, sizeof_int32, sizeof_string, sizeof_array}
use kafka_go.Wire.Sizes.{Sizes, sizes, sizeof_array-Sizes}
use kafka_go.Wire.Reads.{Reads, >>=-Reads, last-Reads}
use kafka_go.Wire.Primitives.{IsString, int16-Reads, int32-Reads, string-Reads, array-Reads}
use kafka_go.Wire.Frame.{
  Framed, >>=-Framed, last-Framed, int16-Framed, int32-Framed, string-Framed, array-Framed,
}

pub record ListGroupsResponseGroupV1 : Type 0 where
  pub group_id : List ℕ
  pub protocol_type : List ℕ

unfoldable pub size_list_groups_response_group_v1 : ListGroupsResponseGroupV1 → ℕ
size_list_groups_response_group_v1 t = sizeof_string t.group_id ⊕ sizeof_string t.protocol_type

unfoldable pub write_list_groups_response_group_v1 : ListGroupsResponseGroupV1 → List ℕ
write_list_groups_response_group_v1 t = write_string t.group_id ++ write_string t.protocol_type

unfoldable pub read_list_groups_response_group_v1 : Reader ListGroupsResponseGroupV1
read_list_groups_response_group_v1 = do
  group_id ← read_string
  protocol_type ← read_string
  pure (record { group_id = group_id; protocol_type = protocol_type })

pub size_list_groups_response_group_v1-Sizes :
    (t : ListGroupsResponseGroupV1)
    → Sizes (size_list_groups_response_group_v1 t) (write_list_groups_response_group_v1 t)
unfolding size_list_groups_response_group_v1 write_list_groups_response_group_v1
size_list_groups_response_group_v1-Sizes t = omega sizes

-- The fields fit their encodings.
pub record IsListGroupsResponseGroupV1 (t : ListGroupsResponseGroupV1) : Type 0 where
  pub group_id : IsString t.group_id
  pub protocol_type : IsString t.protocol_type

pub list_groups_response_group_v1-Reads :
    (t : ListGroupsResponseGroupV1)
    → IsListGroupsResponseGroupV1 t
    → Reads read_list_groups_response_group_v1 (write_list_groups_response_group_v1 t) t
unfolding read_list_groups_response_group_v1 write_list_groups_response_group_v1
list_groups_response_group_v1-Reads t v =
    >>=-Reads _ (string-Reads t.group_id v.group_id)
      (last-Reads _ (string-Reads t.protocol_type v.protocol_type))

pub list_groups_response_group_v1-Framed : Framed read_list_groups_response_group_v1
unfolding read_list_groups_response_group_v1
list_groups_response_group_v1-Framed = >>=-Framed _ string-Framed λ _. last-Framed _ string-Framed

pub record ListGroupsResponseV1 : Type 0 where
  pub throttle_time_ms : ℕ
  pub error_code : ℕ
  pub groups : List ListGroupsResponseGroupV1

unfoldable pub size_list_groups_response_v1 : ListGroupsResponseV1 → ℕ
size_list_groups_response_v1 t =
    sizeof_int32 t.throttle_time_ms
    ⊕ sizeof_int16 t.error_code
    ⊕ sizeof_array size_list_groups_response_group_v1 t.groups

unfoldable pub write_list_groups_response_v1 : ListGroupsResponseV1 → List ℕ
write_list_groups_response_v1 t =
    write_int32 t.throttle_time_ms
    ++ (write_int16 t.error_code ++ write_array write_list_groups_response_group_v1 t.groups)

unfoldable pub read_list_groups_response_v1 : Reader ListGroupsResponseV1
read_list_groups_response_v1 = do
  throttle_time_ms ← read_int32
  error_code ← read_int16
  groups ← read_array_with read_list_groups_response_group_v1
  pure (record { throttle_time_ms = throttle_time_ms; error_code = error_code; groups = groups })

pub size_list_groups_response_v1-Sizes :
    (t : ListGroupsResponseV1)
    → Sizes (size_list_groups_response_v1 t) (write_list_groups_response_v1 t)
unfolding size_list_groups_response_v1 write_list_groups_response_v1
size_list_groups_response_v1-Sizes t = omega (
  sizes,
  sizeof_array-Sizes size_list_groups_response_group_v1 write_list_groups_response_group_v1
      size_list_groups_response_group_v1-Sizes t.groups,
)

-- The fields fit their encodings.
pub record IsListGroupsResponseV1 (t : ListGroupsResponseV1) : Type 0 where
  pub throttle_time_ms : t.throttle_time_ms < 2 ^ 32
  pub error_code : t.error_code < 2 ^ 16
  pub groups_count : length t.groups < 2 ^ 31
  pub groups : All IsListGroupsResponseGroupV1 t.groups

pub list_groups_response_v1-Reads :
    (t : ListGroupsResponseV1)
    → IsListGroupsResponseV1 t
    → Reads read_list_groups_response_v1 (write_list_groups_response_v1 t) t
unfolding read_list_groups_response_v1 write_list_groups_response_v1
list_groups_response_v1-Reads t v =
    >>=-Reads _ (int32-Reads t.throttle_time_ms v.throttle_time_ms) (
      >>=-Reads _ (int16-Reads t.error_code v.error_code) (
        last-Reads _ (
          array-Reads IsListGroupsResponseGroupV1 read_list_groups_response_group_v1
            write_list_groups_response_group_v1 list_groups_response_group_v1-Reads t.groups
            v.groups_count v.groups)))

pub list_groups_response_v1-Framed : Framed read_list_groups_response_v1
unfolding read_list_groups_response_v1
list_groups_response_v1-Framed = >>=-Framed _ int32-Framed λ _.
    >>=-Framed _ int16-Framed λ _. last-Framed _ (array-Framed list_groups_response_group_v1-Framed)
