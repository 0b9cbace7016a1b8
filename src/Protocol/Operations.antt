-- ===== src/Protocol/Operations.antt =====
-- conn.go: the operations that send one request and read its response. An operation is given its
-- correlation id, and the bytes that the connection delivers when the operation has its turn; it
-- gives the bytes that it sends, and what it returns.
pub mod Answers
use kafka_go.Prelude.{ℕ, List, [], ◌∷◌, ◌++◌, Option, none, some, map, ◌==◌, if◌then◌else◌}
use kafka_go.Wire.Reader.{Error, kafka, Outcome, done, fail, Reader}
use kafka_go.Protocol.Interface.{Request}
use kafka_go.Protocol.Requests.{
  describe_groups_request_v0, find_coordinator_request_v0, heartbeat_request_v0,
  join_group_request_v1, leave_group_request_v0, list_groups_request_v1, offset_commit_request_v2,
  offset_fetch_request_v1, sync_group_request_v0,
}
use kafka_go.Protocol.DescribeGroups.{DescribeGroupsRequestV0}
use kafka_go.Protocol.DescribeGroups.{DescribeGroupsResponseV0, read_describe_groups_response_v0}
use kafka_go.Protocol.FindCoordinator.{FindCoordinatorRequestV0}
use kafka_go.Protocol.FindCoordinator.{FindCoordinatorResponseV0, read_find_coordinator_response_v0}
use kafka_go.Protocol.Heartbeat.{HeartbeatRequestV0}
use kafka_go.Protocol.Heartbeat.{HeartbeatResponseV0, read_heartbeat_response_v0}
use kafka_go.Protocol.JoinGroup.{JoinGroupRequestV1}
use kafka_go.Protocol.JoinGroupResponse.{JoinGroupResponseV1, read_join_group_response_v1}
use kafka_go.Protocol.LeaveGroup.{LeaveGroupRequestV0}
use kafka_go.Protocol.LeaveGroup.{LeaveGroupResponseV0, read_leave_group_response_v0}
use kafka_go.Protocol.Requests.{ListGroupsRequestV1}
use kafka_go.Protocol.ListGroups.{ListGroupsResponseV1, read_list_groups_response_v1}
use kafka_go.Protocol.OffsetCommit.{OffsetCommitRequestV2}
use kafka_go.Protocol.OffsetCommit.{OffsetCommitResponseV2, read_offset_commit_response_v2}
use kafka_go.Protocol.OffsetFetch.{OffsetFetchRequestV1}
use kafka_go.Protocol.OffsetFetch.{OffsetFetchResponseV1, read_offset_fetch_response_v1}
use kafka_go.Protocol.SyncGroup.{SyncGroupRequestV0}
use kafka_go.Protocol.SyncGroup.{SyncGroupResponseV0, read_sync_group_response_v0}
use kafka_go.Protocol.Frame.{write_request}
use kafka_go.Protocol.Exchange.{
  Reply, answered, not_yet, negative_size, closed, exchange, expect_zero_size,
}

-- What an operation returns, with the bytes that the connection then still delivers.
pub data Called {ℓ} (B : Type ℓ) : Type ℓ where
  returned : B → List ℕ → Called B
  -- an error that the broker reports: the connection stays open
  refused : ℕ → List ℕ → Called B
  -- any other error: the connection is closed
  failed : Error → Called B
  -- the next response is for another operation
  waiting : Called B
  undefined_size : Called B

-- The codes of the nested arrays of a response.
abbrev pub flatten : List (List ℕ) → List ℕ
flatten [] = []
flatten (xs ∷ xss) = xs ++ flatten xss

-- `for _, r := range ... { if r.ErrorCode != 0 { return Error(r.ErrorCode) } }`
unfoldable pub first_error : List ℕ → Option ℕ
first_error [] = none
first_error (code ∷ codes) = if code == 0 then first_error codes else some code

unfoldable pub or_refused {ℓ} : {B : Type ℓ} → Option ℕ → B → List ℕ → Called B
or_refused none b input = returned b input
or_refused (some code) b input = refused code input

-- The end of `do`, and the test of the error codes that follows it.
unfoldable pub conclude {ℓ} : {B : Type ℓ} → (B → List ℕ) → Reply B → Called B
unfolding or_refused first_error
conclude codes (answered (done b c)) = or_refused (first_error (codes b)) b c.input
conclude codes (answered (fail (kafka code) c)) = refused code c.input
conclude codes (answered (fail e c)) = failed e
conclude codes not_yet = waiting
conclude codes negative_size = undefined_size
conclude codes (closed e) = failed e

module _ {A B : Type 0} ⦃q : Request A⦄ where
  -- The api key and version, the reader of the response, and the error codes in it.
  unfoldable pub operation :
      ℕ → ℕ → Reader B → (B → List ℕ) → ℕ → List ℕ → A → List ℕ → List ℕ × Called B
  unfolding conclude
  operation key version read codes id client req input = (
    write_request key version id client req,
    conclude codes (exchange id (expect_zero_size read) input),
  )

unfoldable pub describe_groups_codes : DescribeGroupsResponseV0 → List ℕ
describe_groups_codes r = map (λ g. g.error_code) r.groups

unfoldable pub describe_groups :
    ℕ → List ℕ → DescribeGroupsRequestV0 → List ℕ → List ℕ × Called DescribeGroupsResponseV0
describe_groups = operation 15 0 read_describe_groups_response_v0 describe_groups_codes

unfoldable pub find_coordinator_codes : FindCoordinatorResponseV0 → List ℕ
find_coordinator_codes r = r.error_code ∷ []

unfoldable pub find_coordinator :
    ℕ → List ℕ → FindCoordinatorRequestV0 → List ℕ → List ℕ × Called FindCoordinatorResponseV0
find_coordinator = operation 10 0 read_find_coordinator_response_v0 find_coordinator_codes

unfoldable pub heartbeat_codes : HeartbeatResponseV0 → List ℕ
heartbeat_codes r = r.error_code ∷ []

unfoldable pub heartbeat :
    ℕ → List ℕ → HeartbeatRequestV0 → List ℕ → List ℕ × Called HeartbeatResponseV0
heartbeat = operation 12 0 read_heartbeat_response_v0 heartbeat_codes

unfoldable pub join_group_codes : JoinGroupResponseV1 → List ℕ
join_group_codes r = r.error_code ∷ []

unfoldable pub join_group :
    ℕ → List ℕ → JoinGroupRequestV1 → List ℕ → List ℕ × Called JoinGroupResponseV1
join_group = operation 11 1 read_join_group_response_v1 join_group_codes

unfoldable pub leave_group_codes : LeaveGroupResponseV0 → List ℕ
leave_group_codes r = r.error_code ∷ []

unfoldable pub leave_group :
    ℕ → List ℕ → LeaveGroupRequestV0 → List ℕ → List ℕ × Called LeaveGroupResponseV0
leave_group = operation 13 0 read_leave_group_response_v0 leave_group_codes

unfoldable pub list_groups_codes : ListGroupsResponseV1 → List ℕ
list_groups_codes r = r.error_code ∷ []

unfoldable pub list_groups :
    ℕ → List ℕ → ListGroupsRequestV1 → List ℕ → List ℕ × Called ListGroupsResponseV1
list_groups = operation 16 1 read_list_groups_response_v1 list_groups_codes

unfoldable pub offset_commit_codes : OffsetCommitResponseV2 → List ℕ
offset_commit_codes r =
    flatten (map (λ t. map (λ p. p.error_code) t.partition_responses) r.responses)

unfoldable pub offset_commit :
    ℕ → List ℕ → OffsetCommitRequestV2 → List ℕ → List ℕ × Called OffsetCommitResponseV2
offset_commit = operation 8 2 read_offset_commit_response_v2 offset_commit_codes

unfoldable pub offset_fetch_codes : OffsetFetchResponseV1 → List ℕ
offset_fetch_codes r =
    flatten (map (λ t. map (λ p. p.error_code) t.partition_responses) r.responses)

unfoldable pub offset_fetch :
    ℕ → List ℕ → OffsetFetchRequestV1 → List ℕ → List ℕ × Called OffsetFetchResponseV1
offset_fetch = operation 9 1 read_offset_fetch_response_v1 offset_fetch_codes

unfoldable pub sync_groups_codes : SyncGroupResponseV0 → List ℕ
sync_groups_codes r = r.error_code ∷ []

unfoldable pub sync_groups :
    ℕ → List ℕ → SyncGroupRequestV0 → List ℕ → List ℕ × Called SyncGroupResponseV0
sync_groups = operation 14 0 read_sync_group_response_v0 sync_groups_codes
