-- ===== src/Protocol/Operations/Answers.antt =====
-- What the operations return when the broker answers with a response of the protocol.
use kafka_go.Prelude.{ℕ, ◌+◌, ◌^◌, ◌<◌, ◌≡◌, List, ◌++◌, length}
use kafka_go.Wire.Reader.{Reader}
use kafka_go.Wire.Write.{write_int32}
use kafka_go.Wire.Reads.{Reads}
use kafka_go.Protocol.Interface.{Request}
use kafka_go.Protocol.Requests.{
  describe_groups_request_v0, find_coordinator_request_v0, heartbeat_request_v0,
  join_group_request_v1, leave_group_request_v0, list_groups_request_v1, offset_commit_request_v2,
  offset_fetch_request_v1, sync_group_request_v0,
}
use kafka_go.Protocol.Frame.{frame, header_fields, write_request-frame}
use kafka_go.Protocol.Exchange.Safety.{exchange-frame}
use kafka_go.Protocol.Operations.{
  or_refused, first_error, conclude, operation, describe_groups, describe_groups_codes,
  find_coordinator, find_coordinator_codes, heartbeat, heartbeat_codes, join_group,
  join_group_codes, leave_group, leave_group_codes, list_groups, list_groups_codes, offset_commit,
  offset_commit_codes, offset_fetch, offset_fetch_codes, sync_groups, sync_groups_codes,
}
use kafka_go.Protocol.DescribeGroups.{DescribeGroupsRequestV0, write_describe_groups_request_v0}
use kafka_go.Protocol.DescribeGroups.{
  DescribeGroupsResponseV0, write_describe_groups_response_v0, IsDescribeGroupsResponseV0,
  describe_groups_response_v0-Reads, canonical_describe_groups_response_v0,
}
use kafka_go.Protocol.FindCoordinator.{FindCoordinatorRequestV0, write_find_coordinator_request_v0}
use kafka_go.Protocol.FindCoordinator.{
  FindCoordinatorResponseV0, write_find_coordinator_response_v0, IsFindCoordinatorResponseV0,
  find_coordinator_response_v0-Reads,
}
use kafka_go.Protocol.Heartbeat.{HeartbeatRequestV0, write_heartbeat_request_v0}
use kafka_go.Protocol.Heartbeat.{
  HeartbeatResponseV0, write_heartbeat_response_v0, IsHeartbeatResponseV0,
  heartbeat_response_v0-Reads,
}
use kafka_go.Protocol.JoinGroup.{JoinGroupRequestV1, write_join_group_request_v1}
use kafka_go.Protocol.JoinGroupResponse.{
  JoinGroupResponseV1, write_join_group_response_v1, IsJoinGroupResponseV1,
  join_group_response_v1-Reads, canonical_join_group_response_v1,
}
use kafka_go.Protocol.LeaveGroup.{LeaveGroupRequestV0, write_leave_group_request_v0}
use kafka_go.Protocol.LeaveGroup.{
  LeaveGroupResponseV0, write_leave_group_response_v0, IsLeaveGroupResponseV0,
  leave_group_response_v0-Reads,
}
use kafka_go.Protocol.Requests.{ListGroupsRequestV1, write_list_groups_request_v1}
use kafka_go.Protocol.ListGroups.{
  ListGroupsResponseV1, write_list_groups_response_v1, IsListGroupsResponseV1,
  list_groups_response_v1-Reads,
}
use kafka_go.Protocol.OffsetCommit.{OffsetCommitRequestV2, write_offset_commit_request_v2}
use kafka_go.Protocol.OffsetCommit.{
  OffsetCommitResponseV2, write_offset_commit_response_v2, IsOffsetCommitResponseV2,
  offset_commit_response_v2-Reads,
}
use kafka_go.Protocol.OffsetFetch.{OffsetFetchRequestV1, write_offset_fetch_request_v1}
use kafka_go.Protocol.OffsetFetch.{
  OffsetFetchResponseV1, write_offset_fetch_response_v1, IsOffsetFetchResponseV1,
  offset_fetch_response_v1-Reads,
}
use kafka_go.Protocol.SyncGroup.{SyncGroupRequestV0, write_sync_group_request_v0}
use kafka_go.Protocol.SyncGroup.{
  SyncGroupResponseV0, write_sync_group_response_v0, IsSyncGroupResponseV0,
  sync_group_response_v0-Reads, canonical_sync_group_response_v0,
}

module _ {A B : Type 0} ⦃q : Request A⦄ where
  -- One frame is sent; the response that carries the id of the operation is returned, or its first
  -- error code, and the connection then stands behind the response.
  pub operation-answer :
      (key version : ℕ) (read : Reader B) (codes : B → List ℕ) (id : ℕ) (client : List ℕ) (req : A)
      (payload rest : List ℕ) (b : B)
      → id < 2 ^ 32
      → length payload + 4 < 2 ^ 31
      → Reads read payload b
      → operation key version read codes id client req (frame (write_int32 id ++ payload) ++ rest)
        ≡ (
          frame (header_fields key version id client ++ q.write_to req),
          or_refused (first_error (codes b)) b rest,
        )
  unfolding operation conclude
  operation-answer key version read codes id client req payload rest b h l r =
      rw
        (write_request-frame key version id client req, exchange-frame read id payload rest b h l r)

-- describeGroups sends one frame, and for a response of the broker that fits the encoding and carries the
-- id of the operation it returns the response, empty byte slices as nil, or the first error code in it that is not 0;
-- the connection then stands behind the response.
pub describe_groups-answer :
    (id : ℕ) (client : List ℕ) (req : DescribeGroupsRequestV0) (t : DescribeGroupsResponseV0)
    (rest : List ℕ)
    → id < 2 ^ 32
    → IsDescribeGroupsResponseV0 t
    → length (write_describe_groups_response_v0 t) + 4 < 2 ^ 31
    → describe_groups id client req
        (frame (write_int32 id ++ write_describe_groups_response_v0 t) ++ rest)
      ≡ (
        frame (header_fields 15 0 id client ++ write_describe_groups_request_v0 req),
        or_refused
            (first_error (describe_groups_codes (canonical_describe_groups_response_v0 t)))
            (canonical_describe_groups_response_v0 t)
            rest,
      )
unfolding describe_groups
describe_groups-answer id client req t rest h v l =
    operation-answer 15 0 _ describe_groups_codes id client req
      (write_describe_groups_response_v0 t) rest _ h l (describe_groups_response_v0-Reads t v)

-- findCoordinator sends one frame, and for a response of the broker that fits the encoding and carries the
-- id of the operation it returns the response or the first error code in it that is not 0;
-- the connection then stands behind the response.
pub find_coordinator-answer :
    (id : ℕ) (client : List ℕ) (req : FindCoordinatorRequestV0) (t : FindCoordinatorResponseV0)
    (rest : List ℕ)
    → id < 2 ^ 32
    → IsFindCoordinatorResponseV0 t
    → length (write_find_coordinator_response_v0 t) + 4 < 2 ^ 31
    → find_coordinator id client req
        (frame (write_int32 id ++ write_find_coordinator_response_v0 t) ++ rest)
      ≡ (
        frame (header_fields 10 0 id client ++ write_find_coordinator_request_v0 req),
        or_refused (first_error (find_coordinator_codes t)) t rest,
      )
unfolding find_coordinator
find_coordinator-answer id client req t rest h v l =
    operation-answer 10 0 _ find_coordinator_codes id client req
      (write_find_coordinator_response_v0 t) rest _ h l (find_coordinator_response_v0-Reads t v)

-- heartbeat sends one frame, and for a response of the broker that fits the encoding and carries the
-- id of the operation it returns the response or the first error code in it that is not 0;
-- the connection then stands behind the response.
pub heartbeat-answer :
    (id : ℕ) (client : List ℕ) (req : HeartbeatRequestV0) (t : HeartbeatResponseV0) (rest : List ℕ)
    → id < 2 ^ 32
    → IsHeartbeatResponseV0 t
    → length (write_heartbeat_response_v0 t) + 4 < 2 ^ 31
    → heartbeat id client req (frame (write_int32 id ++ write_heartbeat_response_v0 t) ++ rest) ≡ (
      frame (header_fields 12 0 id client ++ write_heartbeat_request_v0 req),
      or_refused (first_error (heartbeat_codes t)) t rest,
    )
unfolding heartbeat
heartbeat-answer id client req t rest h v l =
    operation-answer 12 0 _ heartbeat_codes id client req (write_heartbeat_response_v0 t) rest _ h l
      (heartbeat_response_v0-Reads t v)

-- joinGroup sends one frame, and for a response of the broker that fits the encoding and carries
-- the id of the operation it returns the response, empty byte slices as nil, or the first error
-- code in it that is not 0; the connection then stands behind the response.
pub join_group-answer :
    (id : ℕ) (client : List ℕ) (req : JoinGroupRequestV1) (t : JoinGroupResponseV1) (rest : List ℕ)
    → id < 2 ^ 32
    → IsJoinGroupResponseV1 t
    → length (write_join_group_response_v1 t) + 4 < 2 ^ 31
    → join_group id client req (frame (write_int32 id ++ write_join_group_response_v1 t) ++ rest)
      ≡ (
        frame (header_fields 11 1 id client ++ write_join_group_request_v1 req),
        or_refused
            (first_error (join_group_codes (canonical_join_group_response_v1 t)))
            (canonical_join_group_response_v1 t)
            rest,
      )
unfolding join_group
join_group-answer id client req t rest h v l =
    operation-answer 11 1 _ join_group_codes id client req (write_join_group_response_v1 t) rest _ h
      l (join_group_response_v1-Reads t v)

-- leaveGroup sends one frame, and for a response of the broker that fits the encoding and carries the
-- id of the operation it returns the response or the first error code in it that is not 0;
-- the connection then stands behind the response.
pub leave_group-answer :
    (id : ℕ) (client : List ℕ) (req : LeaveGroupRequestV0) (t : LeaveGroupResponseV0)
    (rest : List ℕ)
    → id < 2 ^ 32
    → IsLeaveGroupResponseV0 t
    → length (write_leave_group_response_v0 t) + 4 < 2 ^ 31
    → leave_group id client req (frame (write_int32 id ++ write_leave_group_response_v0 t) ++ rest)
      ≡ (
        frame (header_fields 13 0 id client ++ write_leave_group_request_v0 req),
        or_refused (first_error (leave_group_codes t)) t rest,
      )
unfolding leave_group
leave_group-answer id client req t rest h v l =
    operation-answer 13 0 _ leave_group_codes id client req (write_leave_group_response_v0 t) rest _
      h l (leave_group_response_v0-Reads t v)

-- listGroups sends one frame, and for a response of the broker that fits the encoding and carries the
-- id of the operation it returns the response or the first error code in it that is not 0;
-- the connection then stands behind the response.
pub list_groups-answer :
    (id : ℕ) (client : List ℕ) (req : ListGroupsRequestV1) (t : ListGroupsResponseV1)
    (rest : List ℕ)
    → id < 2 ^ 32
    → IsListGroupsResponseV1 t
    → length (write_list_groups_response_v1 t) + 4 < 2 ^ 31
    → list_groups id client req (frame (write_int32 id ++ write_list_groups_response_v1 t) ++ rest)
      ≡ (
        frame (header_fields 16 1 id client ++ write_list_groups_request_v1 req),
        or_refused (first_error (list_groups_codes t)) t rest,
      )
unfolding list_groups
list_groups-answer id client req t rest h v l =
    operation-answer 16 1 _ list_groups_codes id client req (write_list_groups_response_v1 t) rest _
      h l (list_groups_response_v1-Reads t v)

-- offsetCommit sends one frame, and for a response of the broker that fits the encoding and carries
-- the id of the operation it returns the response or the first error code in it that is not 0; the
-- connection then stands behind the response.
pub offset_commit-answer :
    (id : ℕ) (client : List ℕ) (req : OffsetCommitRequestV2) (t : OffsetCommitResponseV2)
    (rest : List ℕ)
    → id < 2 ^ 32
    → IsOffsetCommitResponseV2 t
    → length (write_offset_commit_response_v2 t) + 4 < 2 ^ 31
    → offset_commit id client req
        (frame (write_int32 id ++ write_offset_commit_response_v2 t) ++ rest)
      ≡ (
        frame (header_fields 8 2 id client ++ write_offset_commit_request_v2 req),
        or_refused (first_error (offset_commit_codes t)) t rest,
      )
unfolding offset_commit
offset_commit-answer id client req t rest h v l =
    operation-answer 8 2 _ offset_commit_codes id client req (write_offset_commit_response_v2 t)
      rest _ h l (offset_commit_response_v2-Reads t v)

-- offsetFetch sends one frame, and for a response of the broker that fits the encoding and carries the
-- id of the operation it returns the response or the first error code in it that is not 0;
-- the connection then stands behind the response.
pub offset_fetch-answer :
    (id : ℕ) (client : List ℕ) (req : OffsetFetchRequestV1) (t : OffsetFetchResponseV1)
    (rest : List ℕ)
    → id < 2 ^ 32
    → IsOffsetFetchResponseV1 t
    → length (write_offset_fetch_response_v1 t) + 4 < 2 ^ 31
    → offset_fetch id client req
        (frame (write_int32 id ++ write_offset_fetch_response_v1 t) ++ rest)
      ≡ (
        frame (header_fields 9 1 id client ++ write_offset_fetch_request_v1 req),
        or_refused (first_error (offset_fetch_codes t)) t rest,
      )
unfolding offset_fetch
offset_fetch-answer id client req t rest h v l =
    operation-answer 9 1 _ offset_fetch_codes id client req (write_offset_fetch_response_v1 t) rest
      _ h l (offset_fetch_response_v1-Reads t v)

-- syncGroups sends one frame, and for a response of the broker that fits the encoding and carries the
-- id of the operation it returns the response, empty byte slices as nil, or the first error code in it that is not 0;
-- the connection then stands behind the response.
pub sync_groups-answer :
    (id : ℕ) (client : List ℕ) (req : SyncGroupRequestV0) (t : SyncGroupResponseV0) (rest : List ℕ)
    → id < 2 ^ 32
    → IsSyncGroupResponseV0 t
    → length (write_sync_group_response_v0 t) + 4 < 2 ^ 31
    → sync_groups id client req (frame (write_int32 id ++ write_sync_group_response_v0 t) ++ rest)
      ≡ (
        frame (header_fields 14 0 id client ++ write_sync_group_request_v0 req),
        or_refused
            (first_error (sync_groups_codes (canonical_sync_group_response_v0 t)))
            (canonical_sync_group_response_v0 t)
            rest,
      )
unfolding sync_groups
sync_groups-answer id client req t rest h v l =
    operation-answer 14 0 _ sync_groups_codes id client req (write_sync_group_response_v0 t) rest _
      h l (sync_group_response_v0-Reads t v)
