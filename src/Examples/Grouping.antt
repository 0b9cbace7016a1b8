-- ===== src/Examples/Grouping.antt =====
-- Examples for the reader of a consumer group: it joins a group that another member leads, and commits
-- the offsets of two partitions, out of order, at the second attempt.
use kafka_go.Prelude.{
  ℕ, ◌≡◌, true, false, List, [], ◌∷◌, none, some, map, pos, ◌==◌, if◌then◌else◌, arith,
}
use kafka_go.Wire.Bytes.{content}
use kafka_go.Message.{Message}
use kafka_go.OffsetStash.{make_commits}
use kafka_go.Protocol.JoinGroupResponse.{JoinGroupResponseV1}
use kafka_go.Protocol.GroupAssignment.{IsGroupAssignment, write_group_assignment}
use kafka_go.GroupBalancer.{GroupMember, Topics, range_balancer}
use kafka_go.Group.{Config, topics32, assignment_of, extract_topics, make_sync_group_request_v0}
use kafka_go.Group.Subscribed.{occurrences, subscribes, occurrences-extract_topics}
use kafka_go.Group.Assigned.{received, intended, received-make_sync_group_request_v0}
use kafka_go.Group.Exchange.{replied, Coordinator, Member}
use kafka_go.Group.Committing.{Attempt, Event, stop, tick, request, Committer}

abbrev topic : List ℕ
topic = 116 ∷ []

abbrev message_at : ℕ → ℕ → Message
message_at partition offset = record {
  topic = topic;
  partition = partition;
  offset = offset;
  key = none;
  value = none;
  headers = [];
  time = none;
}

abbrev messages : List Message
messages = message_at 0 9 ∷ message_at 1 2 ∷ message_at 0 4 ∷ []

abbrev cfg : Config
cfg = record {
  group_id = 103 ∷ [];
  topic = topic;
  session_timeout = pos 30_000_000_000;
  rebalance_timeout = pos 30_000_000_000;
  retention_time = pos 0;
  auto_offset_reset = 0;
  group_balancers = range_balancer ∷ [];
}

abbrev fresh : Member
fresh = record { membership = record { generation_id = 0; member_id = [] }; left = [] }

abbrev members : List GroupMember
members =
    record { id = 97 ∷ []; topics = topic ∷ (117 ∷ []) ∷ []; user_data = none }
    ∷ record { id = 98 ∷ []; topics = topic ∷ []; user_data = none }
    ∷ []

occurrences-extract_topics_example :
    occurrences topic (extract_topics members) ≡ (if subscribes topic members then 1 else 0)
occurrences-extract_topics_example = occurrences-extract_topics topic members

abbrev given : Topics
given = (topic, 0 ∷ 1 ∷ []) ∷ []

given-IsGroupAssignment : IsGroupAssignment (assignment_of given)
unfolding topics32 content
given-IsGroupAssignment = record {
  version = omega arith;
  topics_count = omega arith;
  keys = (tt, tt);
  entries = ((omega arith, omega arith, (omega arith, (omega arith, tt))), tt);
  user_data = omega arith;
}

received-make_sync_group_request_v0_example :
    map received
      (make_sync_group_request_v0 cfg fresh.membership
        (some ((98 ∷ [], given) ∷ []))).group_assignments
    ≡ map intended ((98 ∷ [], given) ∷ [])
received-make_sync_group_request_v0_example =
    received-make_sync_group_request_v0 cfg fresh.membership ((98 ∷ [], given) ∷ [])
      (given-IsGroupAssignment, tt)

abbrev response : JoinGroupResponseV1
response = record {
  error_code = 0;
  generation_id = 4;
  group_protocol = range_balancer.protocol_name;
  leader_id = 97 ∷ [];
  member_id = 98 ∷ [];
  members = [];
}

abbrev conn : Coordinator
conn = record {
  join = λ r. replied response;
  sync = λ r. replied (record {
    error_code = 0;
    member_assignments = some (write_group_assignment (assignment_of given));
  });
  read_partitions = λ ts. none;
}

abbrev second_accepted : ℕ → Attempt
second_accepted n = record { slept = true; accepts = λ r. n == 1 }

abbrev none_accepted : ℕ → Attempt
none_accepted n = record { slept = true; accepts = λ r. false }

abbrev events : List Event
events =
    request (make_commits messages)
    ∷ tick none_accepted
    ∷ tick second_accepted
    ∷ stop none_accepted
    ∷ []

abbrev idle : Committer
idle = record { stash = []; committed = [] }
