-- ===== src/Examples/Responses.antt =====
-- Examples for the responses of the protocol.
use kafka_go.Prelude.{
  ℕ, ◌+◌, ◌-◌, ◌^◌, ◌%◌, ◌<◌, ◌≡◌, List, [], ◌∷◌, ◌++◌, some, length, pos, drop, arith,
}
use kafka_go.Wire.Bytes.{content, big_endian}
use kafka_go.Wire.Reader.{done, at}
use kafka_go.Wire.Write.{
  write_int16, write_int32, write_string, write_bytes, write_array, write_array_len, write_items,
}
use kafka_go.Wire.Reads.{Reads}
use kafka_go.Protocol.Frame.{frame, header_fields}
use kafka_go.Protocol.Exchange.{exchange, expect_zero_size, answered, take_turn, ours}
use kafka_go.Protocol.Exchange.Safety.{exchange-frame, take_turn-end}
use kafka_go.Protocol.JoinGroup.{
  JoinGroupRequestV1, write_join_group_request_v1, write_join_group_response_member_v1,
}
use kafka_go.Protocol.JoinGroupResponse.{
  JoinGroupResponseV1, IsJoinGroupResponseV1, write_join_group_response_v1,
  read_join_group_response_v1, canonical_join_group_response_v1, join_group_response_v1-Reads,
}
use kafka_go.Protocol.GroupAssignment.{
  GroupAssignment, IsGroupAssignment, size_group_assignment, write_group_assignment,
  size_group_assignment-short,
}
use kafka_go.Protocol.Operations.{or_refused, first_error, join_group, join_group_codes}
use kafka_go.Protocol.Operations.Answers.{join_group-answer}
use kafka_go.Protocol.OffsetCommit.{
  OffsetCommitRequestV2, OffsetCommitResponseV2, IsOffsetCommitResponseV2,
  write_offset_commit_response_v2, write_offset_commit_response_v2_response,
  write_offset_commit_response_v2_partition_response,
}
use kafka_go.Protocol.Heartbeat.{
  HeartbeatResponseV0, read_heartbeat_response_v0, write_heartbeat_response_v0,
  heartbeat_response_v0-Reads, heartbeat_response_v0-Framed,
}

-- "m"
abbrev name : List ℕ
name = 109 ∷ []

abbrev joined : JoinGroupResponseV1
joined = record {
  error_code = 0;
  generation_id = 7;
  group_protocol = name;
  leader_id = name;
  member_id = name ++ name;
  members = record { member_id = name; member_metadata = some (1 ∷ 2 ∷ []) } ∷ [];
}

joined-IsJoinGroupResponseV1 : IsJoinGroupResponseV1 joined
unfolding content
joined-IsJoinGroupResponseV1 = record {
  error_code = omega arith;
  generation_id = omega arith;
  group_protocol = omega arith;
  leader_id = omega arith;
  member_id = omega arith;
  members_count = omega arith;
  members = (record { member_id = omega arith; member_metadata = omega arith }, tt);
}

join_group_response_v1-Reads_example :
    Reads read_join_group_response_v1
      (write_join_group_response_v1 joined)
      (canonical_join_group_response_v1 joined)
join_group_response_v1-Reads_example =
    join_group_response_v1-Reads joined joined-IsJoinGroupResponseV1

abbrev short_name : JoinGroupResponseV1
short_name = record joined { member_id = [] }

abbrev join_request : JoinGroupRequestV1
join_request = record {
  group_id = name;
  session_timeout = 30_000;
  rebalance_timeout = 30_000;
  member_id = [];
  protocol_type = name;
  group_protocols = [];
}

joined_small : length (write_join_group_response_v1 joined) + 4 < 2 ^ 31
unfolding write_join_group_response_v1 write_join_group_response_member_v1 write_array
    write_array_len write_items write_int16 write_int32 write_string write_bytes big_endian
joined_small = omega arith

join_group-answer_example :
    join_group 5 name join_request
      (frame (write_int32 5 ++ write_join_group_response_v1 joined) ++ [])
    ≡ (
      frame (header_fields 11 1 5 name ++ write_join_group_request_v1 join_request),
      or_refused
          (first_error (join_group_codes (canonical_join_group_response_v1 joined)))
          (canonical_join_group_response_v1 joined)
          [],
    )
join_group-answer_example =
    join_group-answer 5 name join_request joined [] (omega arith) joined-IsJoinGroupResponseV1
      joined_small

abbrev committed : OffsetCommitResponseV2
committed = record {
  responses =
      record {
        topic = name;
        partition_responses =
            record { partition = 0; error_code = 0 }
            ∷ record { partition = 1; error_code = 22 }
            ∷ [];
      }
      ∷ [];
}

committed-IsOffsetCommitResponseV2 : IsOffsetCommitResponseV2 committed
committed-IsOffsetCommitResponseV2 = record {
  responses_count = omega arith;
  responses = (
    record {
      topic = omega arith;
      partition_responses_count = omega arith;
      partition_responses = (
        record { partition = omega arith; error_code = omega arith },
        (record { partition = omega arith; error_code = omega arith }, tt),
      );
    },
    tt,
  );
}

committed_small : length (write_offset_commit_response_v2 committed) + 4 < 2 ^ 31
unfolding write_offset_commit_response_v2 write_offset_commit_response_v2_response
    write_offset_commit_response_v2_partition_response write_array write_array_len write_items
    write_int16 write_int32 write_string big_endian
committed_small = omega arith

abbrev commit_request : OffsetCommitRequestV2
commit_request = record {
  group_id = name;
  generation_id = 7;
  member_id = name;
  retention_time = 2 ^ 64 - 1;
  topics = [];
}

abbrev assignment : GroupAssignment
assignment = record { version = 1; topics = (name, 0 ∷ 3 ∷ []) ∷ []; user_data = some [] }

assignment-IsGroupAssignment : IsGroupAssignment assignment
unfolding content
assignment-IsGroupAssignment = record {
  version = omega arith;
  topics_count = omega arith;
  keys = (tt, tt);
  entries = ((omega arith, omega arith, (omega arith, (omega arith, tt))), tt);
  user_data = omega arith;
}

size_group_assignment-short_example :
    (size_group_assignment assignment + 2) % 2 ^ 32
    ≡ length (write_group_assignment assignment) % 2 ^ 32
size_group_assignment-short_example = size_group_assignment-short assignment

abbrev beat : HeartbeatResponseV0
beat = record { error_code = 27 }

beat-Reads : Reads read_heartbeat_response_v0 (write_heartbeat_response_v0 beat) beat
beat-Reads = heartbeat_response_v0-Reads beat (record { error_code = omega arith })

beat_small : length (write_heartbeat_response_v0 beat) + 4 < 2 ^ 31
unfolding write_heartbeat_response_v0 write_int16 big_endian
beat_small = omega arith

exchange-frame_example :
    exchange 3
      (expect_zero_size read_heartbeat_response_v0)
      (frame (write_int32 3 ++ write_heartbeat_response_v0 beat) ++ 1 ∷ [])
    ≡ answered (done beat (at (1 ∷ []) 0))
exchange-frame_example =
    exchange-frame read_heartbeat_response_v0 3 (write_heartbeat_response_v0 beat) (1 ∷ []) beat
      (omega arith) beat_small beat-Reads

-- A response of one heartbeat, and what follows it.
abbrev beats : List ℕ
beats = write_heartbeat_response_v0 beat ++ 1 ∷ []

beats_taken :
    take_turn (expect_zero_size read_heartbeat_response_v0) (ours (pos 2) beats)
    ≡ answered (done beat (at (1 ∷ []) 0))
unfolding take_turn expect_zero_size write_heartbeat_response_v0 write_int16 big_endian
beats_taken =
    let read : read_heartbeat_response_v0 (at beats 2) ≡ done beat (at (1 ∷ []) 0) =
      beat-Reads.whole (1 ∷ []) 0 in
    rw read

take_turn-end_example : at (1 ∷ []) 0 ≡ at (drop 2 beats) 0
take_turn-end_example =
    take_turn-end read_heartbeat_response_v0 2 beats beat (at (1 ∷ []) 0)
      heartbeat_response_v0-Framed beats_taken
