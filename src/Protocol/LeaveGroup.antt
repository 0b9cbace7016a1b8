-- ===== src/Protocol/LeaveGroup.antt =====
-- leavegroup.go: the LeaveGroup request and response.
use kafka_go.Prelude.{ℕ, ◌<◌, ◌^◌, List, ◌++◌}
use kafka_go.Wire.Reader.{Reader, pure, ◌>>=◌}
use kafka_go.Wire.Read.{read_int16}
use kafka_go.Wire.Write.{write_int16, write_string}
use kafka_go.Wire.Size.{◌⊕◌, sizeof_int16, sizeof_string}
use kafka_go.Wire.Sizes.{Sizes, sizes}
use kafka_go.Wire.Reads.{Reads, last-Reads}
use kafka_go.Wire.Primitives.{int16-Reads}
use kafka_go.Wire.Frame.{Framed, last-Framed, int16-Framed}

pub record LeaveGroupRequestV0 : Type 0 where
  pub group_id : List ℕ
  pub member_id : List ℕ

unfoldable pub size_leave_group_request_v0 : LeaveGroupRequestV0 → ℕ
size_leave_group_request_v0 t = sizeof_string t.group_id ⊕ sizeof_string t.member_id

unfoldable pub write_leave_group_request_v0 : LeaveGroupRequestV0 → List ℕ
write_leave_group_request_v0 t = write_string t.group_id ++ write_string t.member_id

pub size_leave_group_request_v0-Sizes :
    (t : LeaveGroupRequestV0)
    → Sizes (size_leave_group_request_v0 t) (write_leave_group_request_v0 t)
unfolding size_leave_group_request_v0 write_leave_group_request_v0
size_leave_group_request_v0-Sizes t = omega sizes

pub record LeaveGroupResponseV0 : Type 0 where
  pub error_code : ℕ

unfoldable pub size_leave_group_response_v0 : LeaveGroupResponseV0 → ℕ
size_leave_group_response_v0 t = sizeof_int16 t.error_code

unfoldable pub write_leave_group_response_v0 : LeaveGroupResponseV0 → List ℕ
write_leave_group_response_v0 t = write_int16 t.error_code

unfoldable pub read_leave_group_response_v0 : Reader LeaveGroupResponseV0
read_leave_group_response_v0 = do error_code ← read_int16; pure (record { error_code = error_code })

pub size_leave_group_response_v0-Sizes :
    (t : LeaveGroupResponseV0)
    → Sizes (size_leave_group_response_v0 t) (write_leave_group_response_v0 t)
unfolding size_leave_group_response_v0 write_leave_group_response_v0
size_leave_group_response_v0-Sizes t = omega sizes

-- The fields fit their encodings.
pub record IsLeaveGroupResponseV0 (t : LeaveGroupResponseV0) : Type 0 where
  pub error_code : t.error_code < 2 ^ 16

pub leave_group_response_v0-Reads :
    (t : LeaveGroupResponseV0)
    → IsLeaveGroupResponseV0 t
    → Reads read_leave_group_response_v0 (write_leave_group_response_v0 t) t
unfolding read_leave_group_response_v0 write_leave_group_response_v0
leave_group_response_v0-Reads t v = last-Reads _ (int16-Reads t.error_code v.error_code)

pub leave_group_response_v0-Framed : Framed read_leave_group_response_v0
unfolding read_leave_group_response_v0
leave_group_response_v0-Framed = last-Framed _ int16-Framed
