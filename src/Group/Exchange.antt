-- ===== src/Group/Exchange.antt =====
-- reader.go: joinGroup, syncGroup, rebalance and heartbeat of the reader of a consumer group. The calls
-- on the connection to the coordinator are arguments, and the requests to leave the group are a log.
pub mod Rebalanced
use mathlib.Core.Option
use kafka_go.Prelude.{
  ℕ, ◌≡◌, Bool, true, false, ◌&&◌, List, [], ◌∷◌, Option, none, some, length, ◌==◌, if◌then◌else◌,
}
use kafka_go.Prelude.Strings.{same}
use kafka_go.Wire.Mapping.{Partitions}
use kafka_go.Protocol.JoinGroup.{JoinGroupRequestV1}
use kafka_go.Protocol.JoinGroupResponse.{JoinGroupResponseV1}
use kafka_go.Protocol.SyncGroup.{SyncGroupRequestV0, SyncGroupResponseV0}
use kafka_go.Protocol.Heartbeat.{HeartbeatRequestV0}
use kafka_go.GroupBalancer.{Partition, Assignments}
use kafka_go.Group.{
  Config, Membership, make_join_group_request_v1, make_sync_group_request_v0,
  assign_topic_partitions, subscriptions,
}

-- What a call returns: a response, the error code of the broker, or another error.
pub data CallResult {ℓ} (A : Type ℓ) : Type ℓ where
  replied : A → CallResult A
  refused : ℕ → CallResult A
  broken : CallResult A

-- The methods of Conn that are called.
pub record Coordinator : Type 0 where
  pub join : JoinGroupRequestV1 → CallResult JoinGroupResponseV1
  pub sync : SyncGroupRequestV0 → CallResult SyncGroupResponseV0
  pub read_partitions : List (List ℕ) → Option (List Partition)

-- The membership, and the member ids of the requests to leave the group, the last first.
pub record Member : Type 0 where
  pub membership : Membership
  pub left : List (List ℕ)

abbrev pub unknown_member_id : ℕ
unknown_member_id = 25

abbrev pub rebalance_in_progress : ℕ
rebalance_in_progress = 27

unfoldable pub leave_group : Member → Member
leave_group s = record s { left = s.membership.member_id ∷ s.left }

-- `r.memberID = ""`
unfoldable pub forget : Member → Member
forget s = record s { membership = record (s.membership) { member_id = [] } }

unfoldable pub joined : JoinGroupResponseV1 → Member → Member
joined response s = record s {
  membership = record { generation_id = response.generation_id; member_id = response.member_id };
}

-- `none` is an error. A member that is not the leader has no assignments.
abbrev pub Assigned : Type 0
Assigned = Option (Option Assignments)

unfoldable pub lead : Member → Option Assignments → Member × Assigned
lead s none = (leave_group s, none)
lead s (some gs) = (s, some (some gs))

unfoldable pub accept :
    Coordinator → Config → Member → CallResult JoinGroupResponseV1 → Member × Assigned
accept conn cfg s (refused code) = (if code == unknown_member_id then forget s else s, none)
accept conn cfg s broken = (s, none)
accept conn cfg s (replied response) =
    if same response.member_id response.leader_id
    then lead (joined response s) (assign_topic_partitions cfg conn.read_partitions response)
    else (joined response s, some none)

unfoldable pub join_group : Coordinator → Config → Member → Member × Assigned
join_group conn cfg s = accept conn cfg s (conn.join (make_join_group_request_v1 cfg s.membership))

unfoldable pub subscribed : Member → Option Partitions → Member × Option Partitions
subscribed s none = (leave_group s, none)
subscribed s (some topics) = (s, some topics)

unfoldable pub take_answer : Member → CallResult SyncGroupResponseV0 → Member × Option Partitions
take_answer s (refused code) =
    if code == rebalance_in_progress
    then (s, none)
    else (leave_group (if code == unknown_member_id then forget s else s), none)
take_answer s broken = (leave_group s, none)
take_answer s (replied response) = subscribed s (subscriptions response.member_assignments)

unfoldable pub sync_group :
    Coordinator → Config → Member → Option Assignments → Member × Option Partitions
sync_group conn cfg s assignments =
    take_answer s (conn.sync (make_sync_group_request_v0 cfg s.membership assignments))

unfoldable pub sync_joined : Coordinator → Config → Member × Assigned → Member × Option Partitions
sync_joined conn cfg (s, none) = (s, none)
sync_joined conn cfg (s, some assignments) = sync_group conn cfg s assignments

unfoldable pub rebalance : Coordinator → Config → Member → Member × Option Partitions
rebalance conn cfg s = sync_joined conn cfg (join_group conn cfg s)

-- The request of a heartbeat: none is sent before the reader has joined.
unfoldable pub heartbeat : Config → Membership → Option HeartbeatRequestV0
heartbeat cfg m =
    if m.generation_id == 0 && length m.member_id == 0
    then none
    else some (record {
      group_id = cfg.group_id;
      generation_id = m.generation_id;
      member_id = m.member_id;
    })

module _ (conn : Coordinator) (cfg : Config) (s s' : Member) (subs : Partitions) where
  -- What a rebalance has done when it returns subscriptions.
  pub record Settled : Type 0 where
    pub response : JoinGroupResponseV1
    pub assignments : Option Assignments
    pub answer : SyncGroupResponseV0
    pub join : conn.join (make_join_group_request_v1 cfg s.membership) ≡ replied response
    pub assigned : assignments ≡ (
        if same response.member_id response.leader_id
        then assign_topic_partitions cfg conn.read_partitions response
        else none)
    pub settled : s' ≡ joined response s
    pub sync : conn.sync (make_sync_group_request_v0 cfg s'.membership assignments) ≡ replied answer
    pub topics : subscriptions answer.member_assignments ≡ some subs
