-- ===== src/Group.antt =====
-- reader.go: what the reader of a consumer group sends to the coordinator of the group, and what it
-- takes from its responses. ReadPartitions is an argument. A map is an association list, in one of the
-- orders in which Go may iterate over it. UserData, which fails for no balancer of the library, is the
-- user data of a balancer.
pub mod Subscribed
pub mod Assigned
pub mod Exchange
pub mod Committing
use mathlib.Core.Option
use kafka_go.Prelude.{
  ℕ, zero, suc, Bool, true, false, ◌+◌, ◌-◌, ◌%◌, ◌^◌, List, [], ◌∷◌, ◌++◌, Option, none, some, map,
  length, ℤ, pos, ltb, ltb_ℤ, ◌==◌, if◌then◌else◌,
}
use kafka_go.Prelude.Strings.{same, less}
use kafka_go.Prelude.Dict.{find}
use kafka_go.Wire.Bytes.{Slice, content, signed64}
use kafka_go.Wire.Reader.{Reader, Outcome, done, fail, at}
use kafka_go.Wire.Mapping.{Partitions}
use kafka_go.Time.{int32_of, int64_of, millisecond, quotient}
use kafka_go.Protocol.JoinGroup.{
  GroupMetadata, write_group_metadata, read_group_metadata, JoinGroupRequestGroupProtocolV1,
  JoinGroupRequestV1, JoinGroupResponseMemberV1,
}
use kafka_go.Protocol.JoinGroupResponse.{JoinGroupResponseV1}
use kafka_go.Protocol.SyncGroup.{SyncGroupRequestGroupAssignmentV0, SyncGroupRequestV0}
use kafka_go.Protocol.GroupAssignment.{
  GroupAssignment, write_group_assignment, read_group_assignment,
}
use kafka_go.Protocol.OffsetCommit.{
  OffsetCommitRequestV2Partition, OffsetCommitRequestV2Topic, OffsetCommitRequestV2,
}
use kafka_go.Protocol.OffsetFetch.{OffsetFetchRequestV1Topic, OffsetFetchRequestV1}
use kafka_go.GroupBalancer.{
  GroupMember, Partition, Assignments, Topics, Balancer, find_group_balancer,
}
use kafka_go.OffsetStash.{Offsets, Stash}

-- The fields of a ReaderConfig that are used here. Durations are in nanoseconds.
pub record Config : Type 0 where
  pub group_id : List ℕ
  pub topic : List ℕ
  pub session_timeout : ℤ
  pub rebalance_timeout : ℤ
  pub retention_time : ℤ
  pub auto_offset_reset : ℕ
  pub group_balancers : List Balancer

-- The generation and the id of the member.
pub record Membership : Type 0 where
  pub generation_id : ℕ
  pub member_id : List ℕ

abbrev pub default_protocol_type : List ℕ
default_protocol_type = 99 ∷ 111 ∷ 110 ∷ 115 ∷ 117 ∷ 109 ∷ 101 ∷ 114 ∷ []

-- The metadata that a member joins with.
unfoldable pub member_metadata : Config → Balancer → GroupMetadata
member_metadata cfg b = record { version = 1; topics = cfg.topic ∷ []; user_data = b.user_data }

unfoldable pub group_protocol : Config → Balancer → JoinGroupRequestGroupProtocolV1
group_protocol cfg b = record {
  protocol_name = b.protocol_name;
  protocol_metadata = some (write_group_metadata (member_metadata cfg b));
}

unfoldable pub make_join_group_request_v1 : Config → Membership → JoinGroupRequestV1
make_join_group_request_v1 cfg m = record {
  group_id = cfg.group_id;
  session_timeout = int32_of (quotient cfg.session_timeout millisecond);
  rebalance_timeout = int32_of (quotient cfg.rebalance_timeout millisecond);
  member_id = m.member_id;
  protocol_type = default_protocol_type;
  group_protocols = map (group_protocol cfg) cfg.group_balancers;
}

-- `err != nil || remain != 0` is an error.
unfoldable pub member_of : List ℕ → Outcome GroupMetadata → Option GroupMember
member_of id (fail e c) = none
member_of id (done m c) =
    if c.remain == 0
    then some (record { id = id; topics = m.topics; user_data = m.user_data })
    else none

unfoldable pub read_member : JoinGroupResponseMemberV1 → Option GroupMember
read_member item =
    let b = content item.member_metadata in
    member_of item.member_id (read_group_metadata (at b (length b)))

unfoldable pub make_member_protocol_metadata :
    List JoinGroupResponseMemberV1 → Option (List GroupMember)
make_member_protocol_metadata [] = some []
make_member_protocol_metadata (item ∷ items) =
    Option.bind (read_member item)
      λ m. Option.map (λ ms. m ∷ ms) (make_member_protocol_metadata items)

-- `_, seen := visited[topic]`
unfoldable pub seen : List ℕ → List (List ℕ) → Bool
seen topic [] = false
seen topic (t ∷ ts) = if same t topic then true else seen topic ts

-- sort.Strings
unfoldable pub insert_topic : List ℕ → List (List ℕ) → List (List ℕ)
insert_topic t [] = t ∷ []
insert_topic t (u ∷ us) = if less u t then u ∷ insert_topic t us else t ∷ u ∷ us

unfoldable pub sort_topics : List (List ℕ) → List (List ℕ)
sort_topics [] = []
sort_topics (t ∷ ts) = insert_topic t (sort_topics ts)

-- The inner loop over the topics of a member, with the topics so far.
unfoldable pub visit : List (List ℕ) → List (List ℕ) → List (List ℕ)
visit topics [] = topics
visit topics (t ∷ ts) = visit (if seen t topics then topics else topics ++ t ∷ []) ts

unfoldable pub visit_members : List (List ℕ) → List GroupMember → List (List ℕ)
visit_members topics [] = topics
visit_members topics (m ∷ ms) = visit_members (visit topics m.topics) ms

unfoldable pub extract_topics : List GroupMember → List (List ℕ)
extract_topics members = sort_topics (visit_members [] members)

-- `none` is an error: no balancer, metadata that cannot be read, or no partitions.
unfoldable pub assign_topic_partitions :
    Config → (List (List ℕ) → Option (List Partition)) → JoinGroupResponseV1 → Option Assignments
assign_topic_partitions cfg read_partitions group =
    Option.bind (find_group_balancer group.group_protocol cfg.group_balancers) λ balancer.
      Option.bind (make_member_protocol_metadata group.members) λ members.
        Option.map (λ partitions. balancer.assign_groups members partitions)
          (read_partitions (extract_topics members))

-- `int32(partitions[i])`
unfoldable pub topics32 : Topics → Partitions
topics32 topics = map (λ (e : List ℕ × List ℕ). (e.0, map (λ (p : ℕ). p % 2 ^ 32) e.1)) topics

abbrev pub assignment_of : Topics → GroupAssignment
assignment_of topics = record { version = 1; topics = topics32 topics; user_data = none }

unfoldable pub make_sync_group_request_v0 :
    Config → Membership → Option Assignments → SyncGroupRequestV0
make_sync_group_request_v0 cfg m assignments = record {
  group_id = cfg.group_id;
  generation_id = m.generation_id;
  member_id = m.member_id;
  group_assignments = elim assignments [
    | none ↦ []
    | some gs ↦
        map
          (λ (e : List ℕ × Topics). record {
            member_id = e.0;
            member_assignments = some (write_group_assignment (assignment_of e.1));
          })
          gs
  ];
}

unfoldable pub topics_of : Outcome GroupAssignment → Option Partitions
topics_of (fail e c) = none
topics_of (done a c) = some a.topics

-- The subscriptions that syncGroup takes from its response; what is left of it is not tested.
unfoldable pub subscriptions : Slice → Option Partitions
subscriptions assignments =
    let b = content assignments in topics_of (read_group_assignment (at b (length b)))
