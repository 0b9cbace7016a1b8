-- ===== src/Protocol/SyncGroup.antt =====
-- syncgroup.go: the SyncGroup request and response.
use kafka_go.Prelude.{ℕ, ◌<◌, ◌^◌, List, ◌++◌, length}
use kafka_go.Wire.Bytes.{Slice, content}
use kafka_go.Wire.Reader.{Reader, pure, ◌>>=◌}
use kafka_go.Wire.Read.{read_int16, read_bytes}
use kafka_go.Wire.Write.{write_int16, write_int32, write_string, write_bytes, write_array}
use kafka_go.Wire.Size.{◌⊕◌, sizeof_int16, sizeof_int32, sizeof_string, sizeof_bytes, sizeof_array}
use kafka_go.Wire.Sizes.{Sizes, sizes, sizeof_array-Sizes}
use kafka_go.Wire.Reads.{Reads, >>=-Reads, last-Reads}
use kafka_go.Wire.Primitives.{canonical, int16-Reads, bytes-Reads}
use kafka_go.Wire.Frame.{Framed, >>=-Framed, last-Framed, int16-Framed, bytes-Framed}

pub record SyncGroupRequestGroupAssignmentV0 : Type 0 where
  pub member_id : List ℕ
  pub member_assignments : Slice

unfoldable pub size_sync_group_request_group_assignment_v0 : SyncGroupRequestGroupAssignmentV0 → ℕ
size_sync_group_request_group_assignment_v0 t =
    sizeof_string t.member_id ⊕ sizeof_bytes t.member_assignments

unfoldable pub write_sync_group_request_group_assignment_v0 :
    SyncGroupRequestGroupAssignmentV0 → List ℕ
write_sync_group_request_group_assignment_v0 t =
    write_string t.member_id ++ write_bytes t.member_assignments

pub size_sync_group_request_group_assignment_v0-Sizes :
    (t : SyncGroupRequestGroupAssignmentV0)
    → Sizes
        (size_sync_group_request_group_assignment_v0 t)
        (write_sync_group_request_group_assignment_v0 t)
unfolding size_sync_group_request_group_assignment_v0 write_sync_group_request_group_assignment_v0
size_sync_group_request_group_assignment_v0-Sizes t = omega sizes

pub record SyncGroupRequestV0 : Type 0 where
  pub group_id : List ℕ
  pub generation_id : ℕ
  pub member_id : List ℕ
  pub group_assignments : List SyncGroupRequestGroupAssignmentV0

unfoldable pub size_sync_group_request_v0 : SyncGroupRequestV0 → ℕ
size_sync_group_request_v0 t =
    sizeof_string t.group_id
    ⊕ sizeof_int32 t.generation_id
    ⊕ sizeof_string t.member_id
    ⊕ sizeof_array size_sync_group_request_group_assignment_v0 t.group_assignments

unfoldable pub write_sync_group_request_v0 : SyncGroupRequestV0 → List ℕ
write_sync_group_request_v0 t =
    write_string t.group_id
    ++ (write_int32 t.generation_id
        ++ (write_string t.member_id
            ++ write_array write_sync_group_request_group_assignment_v0 t.group_assignments))

pub size_sync_group_request_v0-Sizes :
    (t : SyncGroupRequestV0) → Sizes (size_sync_group_request_v0 t) (write_sync_group_request_v0 t)
unfolding size_sync_group_request_v0 write_sync_group_request_v0
size_sync_group_request_v0-Sizes t = omega (
  sizes,
  sizeof_array-Sizes size_sync_group_request_group_assignment_v0
      write_sync_group_request_group_assignment_v0 size_sync_group_request_group_assignment_v0-Sizes
      t.group_assignments,
)

pub record SyncGroupResponseV0 : Type 0 where
  pub error_code : ℕ
  pub member_assignments : Slice

unfoldable pub size_sync_group_response_v0 : SyncGroupResponseV0 → ℕ
size_sync_group_response_v0 t = sizeof_int16 t.error_code ⊕ sizeof_bytes t.member_assignments

unfoldable pub write_sync_group_response_v0 : SyncGroupResponseV0 → List ℕ
write_sync_group_response_v0 t = write_int16 t.error_code ++ write_bytes t.member_assignments

unfoldable pub read_sync_group_response_v0 : Reader SyncGroupResponseV0
read_sync_group_response_v0 = do
  error_code ← read_int16
  member_assignments ← read_bytes
  pure (record { error_code = error_code; member_assignments = member_assignments })

pub size_sync_group_response_v0-Sizes :
    (t : SyncGroupResponseV0)
    → Sizes (size_sync_group_response_v0 t) (write_sync_group_response_v0 t)
unfolding size_sync_group_response_v0 write_sync_group_response_v0
size_sync_group_response_v0-Sizes t = omega sizes

-- The fields fit their encodings.
pub record IsSyncGroupResponseV0 (t : SyncGroupResponseV0) : Type 0 where
  pub error_code : t.error_code < 2 ^ 16
  pub member_assignments : length (content t.member_assignments) < 2 ^ 31

-- An empty byte slice comes back as nil.
pub canonical_sync_group_response_v0 : SyncGroupResponseV0 → SyncGroupResponseV0
canonical_sync_group_response_v0 t = record t {
  member_assignments = canonical t.member_assignments;
}

pub sync_group_response_v0-Reads :
    (t : SyncGroupResponseV0)
    → IsSyncGroupResponseV0 t
    → Reads read_sync_group_response_v0
        (write_sync_group_response_v0 t)
        (canonical_sync_group_response_v0 t)
unfolding read_sync_group_response_v0 write_sync_group_response_v0 canonical_sync_group_response_v0
sync_group_response_v0-Reads t v =
    >>=-Reads _ (int16-Reads t.error_code v.error_code)
      (last-Reads _ (bytes-Reads t.member_assignments v.member_assignments))

pub sync_group_response_v0-Framed : Framed read_sync_group_response_v0
unfolding read_sync_group_response_v0
sync_group_response_v0-Framed = >>=-Framed _ int16-Framed λ _. last-Framed _ bytes-Framed
