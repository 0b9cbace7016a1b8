-- ===== src/Protocol/Requests.antt =====
-- The requests that the operations of the connection send (the `request` interface of protocol.go).
use kafka_go.Prelude.{ℕ, List, []}
use kafka_go.Wire.Sizes.{Sizes, sizes}
use kafka_go.Protocol.Interface.{Request}
use kafka_go.Protocol.JoinGroup.{
  JoinGroupRequestV1, size_join_group_request_v1, write_join_group_request_v1,
  size_join_group_request_v1-Sizes,
}
use kafka_go.Protocol.SyncGroup.{
  SyncGroupRequestV0, size_sync_group_request_v0, write_sync_group_request_v0,
  size_sync_group_request_v0-Sizes,
}
use kafka_go.Protocol.OffsetCommit.{
  OffsetCommitRequestV2, size_offset_commit_request_v2, write_offset_commit_request_v2,
  size_offset_commit_request_v2-Sizes,
}
use kafka_go.Protocol.OffsetFetch.{
  OffsetFetchRequestV1, size_offset_fetch_request_v1, write_offset_fetch_request_v1,
  size_offset_fetch_request_v1-Sizes,
}
use kafka_go.Protocol.Heartbeat.{
  HeartbeatRequestV0, size_heartbeat_request_v0, write_heartbeat_request_v0,
  size_heartbeat_request_v0-Sizes,
}
use kafka_go.Protocol.LeaveGroup.{
  LeaveGroupRequestV0, size_leave_group_request_v0, write_leave_group_request_v0,
  size_leave_group_request_v0-Sizes,
}
use kafka_go.Protocol.FindCoordinator.{
  FindCoordinatorRequestV0, size_find_coordinator_request_v0, write_find_coordinator_request_v0,
  size_find_coordinator_request_v0-Sizes,
}
use kafka_go.Protocol.DescribeGroups.{
  DescribeGroupsRequestV0, size_describe_groups_request_v0, write_describe_groups_request_v0,
  size_describe_groups_request_v0-Sizes,
}
use kafka_go.Protocol.CreateTopics.{
  CreateTopicsRequestV0, size_create_topics_request_v0, write_create_topics_request_v0,
  size_create_topics_request_v0-Sizes,
}
use kafka_go.Protocol.DeleteTopics.{
  DeleteTopicsRequestV0, size_delete_topics_request_v0, write_delete_topics_request_v0,
  size_delete_topics_request_v0-Sizes,
}
use kafka_go.Protocol.Metadata.{
  TopicMetadataRequestV1, size_topic_metadata_request_v1, write_topic_metadata_request_v1,
  size_topic_metadata_request_v1-Sizes,
}
use kafka_go.Protocol.Sasl.{
  SaslHandshakeRequestV0, size_sasl_handshake_request_v0, write_sasl_handshake_request_v0,
  size_sasl_handshake_request_v0-Sizes,
}
use kafka_go.Protocol.Sasl.{
  SaslAuthenticateRequestV0, size_sasl_authenticate_request_v0, write_sasl_authenticate_request_v0,
  size_sasl_authenticate_request_v0-Sizes,
}

instance abbrev pub join_group_request_v1 : Request JoinGroupRequestV1
join_group_request_v1 = record {
  size = size_join_group_request_v1;
  write_to = write_join_group_request_v1;
  sized = size_join_group_request_v1-Sizes;
}

instance abbrev pub sync_group_request_v0 : Request SyncGroupRequestV0
sync_group_request_v0 = record {
  size = size_sync_group_request_v0;
  write_to = write_sync_group_request_v0;
  sized = size_sync_group_request_v0-Sizes;
}

instance abbrev pub offset_commit_request_v2 : Request OffsetCommitRequestV2
offset_commit_request_v2 = record {
  size = size_offset_commit_request_v2;
  write_to = write_offset_commit_request_v2;
  sized = size_offset_commit_request_v2-Sizes;
}

instance abbrev pub offset_fetch_request_v1 : Request OffsetFetchRequestV1
offset_fetch_request_v1 = record {
  size = size_offset_fetch_request_v1;
  write_to = write_offset_fetch_request_v1;
  sized = size_offset_fetch_request_v1-Sizes;
}

instance abbrev pub heartbeat_request_v0 : Request HeartbeatRequestV0
heartbeat_request_v0 = record {
  size = size_heartbeat_request_v0;
  write_to = write_heartbeat_request_v0;
  sized = size_heartbeat_request_v0-Sizes;
}

instance abbrev pub leave_group_request_v0 : Request LeaveGroupRequestV0
leave_group_request_v0 = record {
  size = size_leave_group_request_v0;
  write_to = write_leave_group_request_v0;
  sized = size_leave_group_request_v0-Sizes;
}

instance abbrev pub find_coordinator_request_v0 : Request FindCoordinatorRequestV0
find_coordinator_request_v0 = record {
  size = size_find_coordinator_request_v0;
  write_to = write_find_coordinator_request_v0;
  sized = size_find_coordinator_request_v0-Sizes;
}

instance abbrev pub describe_groups_request_v0 : Request DescribeGroupsRequestV0
describe_groups_request_v0 = record {
  size = size_describe_groups_request_v0;
  write_to = write_describe_groups_request_v0;
  sized = size_describe_groups_request_v0-Sizes;
}

instance abbrev pub create_topics_request_v0 : Request CreateTopicsRequestV0
create_topics_request_v0 = record {
  size = size_create_topics_request_v0;
  write_to = write_create_topics_request_v0;
  sized = size_create_topics_request_v0-Sizes;
}

instance abbrev pub delete_topics_request_v0 : Request DeleteTopicsRequestV0
delete_topics_request_v0 = record {
  size = size_delete_topics_request_v0;
  write_to = write_delete_topics_request_v0;
  sized = size_delete_topics_request_v0-Sizes;
}

instance abbrev pub topic_metadata_request_v1 : Request TopicMetadataRequestV1
topic_metadata_request_v1 = record {
  size = size_topic_metadata_request_v1;
  write_to = write_topic_metadata_request_v1;
  sized = size_topic_metadata_request_v1-Sizes;
}

instance abbrev pub sasl_handshake_request_v0 : Request SaslHandshakeRequestV0
sasl_handshake_request_v0 = record {
  size = size_sasl_handshake_request_v0;
  write_to = write_sasl_handshake_request_v0;
  sized = size_sasl_handshake_request_v0-Sizes;
}

instance abbrev pub sasl_authenticate_request_v0 : Request SaslAuthenticateRequestV0
sasl_authenticate_request_v0 = record {
  size = size_sasl_authenticate_request_v0;
  write_to = write_sasl_authenticate_request_v0;
  sized = size_sasl_authenticate_request_v0-Sizes;
}

-- listGroupsRequestV1 has no fields.
pub data ListGroupsRequestV1 : Type 0 where
  list_groups : ListGroupsRequestV1

unfoldable pub size_list_groups_request_v1 : ListGroupsRequestV1 → ℕ
size_list_groups_request_v1 t = 0

unfoldable pub write_list_groups_request_v1 : ListGroupsRequestV1 → List ℕ
write_list_groups_request_v1 t = []

pub size_list_groups_request_v1-Sizes :
    (t : ListGroupsRequestV1)
    → Sizes (size_list_groups_request_v1 t) (write_list_groups_request_v1 t)
unfolding size_list_groups_request_v1 write_list_groups_request_v1
size_list_groups_request_v1-Sizes t = omega sizes

instance abbrev pub list_groups_request_v1 : Request ListGroupsRequestV1
list_groups_request_v1 = record {
  size = size_list_groups_request_v1;
  write_to = write_list_groups_request_v1;
  sized = size_list_groups_request_v1-Sizes;
}
