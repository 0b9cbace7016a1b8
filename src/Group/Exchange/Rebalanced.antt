-- ===== src/Group/Exchange/Rebalanced.antt =====
-- reader.go: what a rebalance has done when it returns subscriptions.
use kafka_go.Prelude.{◌≡◌, Option, none, some, if◌then◌else◌}
use kafka_go.Prelude.Strings.{same}
use kafka_go.Wire.Mapping.{Partitions}
use kafka_go.Protocol.JoinGroupResponse.{JoinGroupResponseV1}
use kafka_go.Protocol.SyncGroup.{SyncGroupResponseV0}
use kafka_go.GroupBalancer.{Assignments}
use kafka_go.Group.{Config, assign_topic_partitions, subscriptions}
use kafka_go.Group.Exchange.{CallResult, replied, Coordinator, Member, joined}

record SyncTaken (s s' : Member) (r : CallResult SyncGroupResponseV0) (subs : Partitions)
    : Type 0 where
  answer : SyncGroupResponseV0
  reply : r ≡ replied answer
  same_member : s' ≡ s
  topics : subscriptions answer.member_assignments ≡ some subs

module _ (conn : Coordinator) (cfg : Config) (s : Member) where
  -- What joinGroup has done when it returns no error.
  record Entered (s' : Member) (r : CallResult JoinGroupResponseV1)
      (assignments : Option Assignments) : Type 0 where
    response : JoinGroupResponseV1
    reply : r ≡ replied response
    assigned : assignments ≡ (
        if same response.member_id response.leader_id
        then assign_topic_partitions cfg conn.read_partitions response
        else none)
    entered : s' ≡ joined response s
