-- ===== src/Protocol/Heartbeat.antt =====
-- heartbeat.go: the Heartbeat request and response.
use kafka_go.Prelude.{ℕ, ◌<◌, ◌^◌, List, ◌++◌}
use kafka_go.Wire.Reader.{Reader, pure, ◌>>=◌}
use kafka_go.Wire.Read.{read_int16}
use kafka_go.Wire.Write.{write_int16, write_int32, write_string}
use kafka_go.Wire.Size.{◌⊕◌, sizeof_int16, sizeof_int32, sizeof_string}
use kafka_go.Wire.Sizes.{Sizes, sizes}
use kafka_go.Wire.Reads.{Reads, last-Reads}
use kafka_go.Wire.Primitives.{int16-Reads}
use kafka_go.Wire.Frame.{Framed, last-Framed, int16-Framed}

pub record HeartbeatRequestV0 : Type 0 where
  pub group_id : List ℕ
  pub generation_id : ℕ
  pub member_id : List ℕ

unfoldable pub size_heartbeat_request_v0 : HeartbeatRequestV0 → ℕ
size_heartbeat_request_v0 t =
    sizeof_string t.group_id ⊕ sizeof_int32 t.generation_id ⊕ sizeof_string t.member_id

unfoldable pub write_heartbeat_request_v0 : HeartbeatRequestV0 → List ℕ
write_heartbeat_request_v0 t =
    write_string t.group_id ++ (write_int32 t.generation_id ++ write_string t.member_id)

pub size_heartbeat_request_v0-Sizes :
    (t : HeartbeatRequestV0) → Sizes (size_heartbeat_request_v0 t) (write_heartbeat_request_v0 t)
unfolding size_heartbeat_request_v0 write_heartbeat_request_v0
size_heartbeat_request_v0-Sizes t = omega sizes

pub record HeartbeatResponseV0 : Type 0 where
  pub error_code : ℕ

unfoldable pub size_heartbeat_response_v0 : HeartbeatResponseV0 → ℕ
size_heartbeat_response_v0 t = sizeof_int16 t.error_code

unfoldable pub write_heartbeat_response_v0 : HeartbeatResponseV0 → List ℕ
write_heartbeat_response_v0 t = write_int16 t.error_code

unfoldable pub read_heartbeat_response_v0 : Reader HeartbeatResponseV0
read_heartbeat_response_v0 = do error_code ← read_int16; pure (record { error_code = error_code })

pub size_heartbeat_response_v0-Sizes :
    (t : HeartbeatResponseV0) → Sizes (size_heartbeat_response_v0 t) (write_heartbeat_response_v0 t)
unfolding size_heartbeat_response_v0 write_heartbeat_response_v0
size_heartbeat_response_v0-Sizes t = omega sizes

-- The fields fit their encodings.
pub record IsHeartbeatResponseV0 (t : HeartbeatResponseV0) : Type 0 where
  pub error_code : t.error_code < 2 ^ 16

pub heartbeat_response_v0-Reads :
    (t : HeartbeatResponseV0)
    → IsHeartbeatResponseV0 t
    → Reads read_heartbeat_response_v0 (write_heartbeat_response_v0 t) t
unfolding read_heartbeat_response_v0 write_heartbeat_response_v0
heartbeat_response_v0-Reads t v = last-Reads _ (int16-Reads t.error_code v.error_code)

pub heartbeat_response_v0-Framed : Framed read_heartbeat_response_v0
unfolding read_heartbeat_response_v0
heartbeat_response_v0-Framed = last-Framed _ int16-Framed
