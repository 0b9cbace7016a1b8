-- ===== src/Examples/Requests.antt =====
-- Examples for requests and their frames.
use kafka_go.Prelude.{ℕ, ◌≡◌, List, [], ◌∷◌, ◌++◌, pos}
use kafka_go.Protocol.Frame.{frame, header_fields, write_request, write_request-frame}
use kafka_go.Protocol.Requests.{heartbeat_request_v0}
use kafka_go.Protocol.Heartbeat.{HeartbeatRequestV0, write_heartbeat_request_v0}
use kafka_go.Protocol.Direct.{write_fetch_request_v2, fetch_request}
use kafka_go.Protocol.Direct.Optimised.{
  fetch_request_v2, list_offset_request_v1, fetch_one, write_fetch_request_v2-eq-write_request,
}

-- "g"
abbrev name : List ℕ
name = 103 ∷ []

abbrev beat : HeartbeatRequestV0
beat = record { group_id = name; generation_id = 7; member_id = name }

write_request-frame_example :
    write_request 12 0 1 name beat
    ≡ frame (header_fields 12 0 1 name ++ write_heartbeat_request_v0 beat)
write_request-frame_example = write_request-frame 12 0 1 name beat

write_fetch_request_v2-eq-write_request_example :
    write_fetch_request_v2 1 name name 0 42 (pos 1) (pos 1_000_000) (pos 10_000_000_000)
    ≡ write_request fetch_request 2 1 name
        (fetch_one name 0 42 (pos 1) (pos 1_000_000) (pos 10_000_000_000))
write_fetch_request_v2-eq-write_request_example =
    write_fetch_request_v2-eq-write_request 1 name name 0 42 (pos 1) (pos 1_000_000)
      (pos 10_000_000_000)
