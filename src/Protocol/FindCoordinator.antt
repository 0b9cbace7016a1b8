-- ===== src/Protocol/FindCoordinator.antt =====
-- findcoordinator.go: the FindCoordinator request and response.
use kafka_go.Prelude.{ℕ, ◌<◌, ◌^◌, List, ◌++◌}
use kafka_go.Wire.Reader.{Reader, pure, ◌>>=◌}
use kafka_go.Wire.Read.{read_int16, read_int32, read_string}
use kafka_go.Wire.Write.{write_int16, write_int32, write_string}
use kafka_go.Wire.Size.{◌⊕◌, sizeof_int16, sizeof_int32, sizeof_string}
use kafka_go.Wire.Sizes.{Sizes, sizes}
use kafka_go.Wire.Reads.{Reads, >>=-Reads, last-Reads}
use kafka_go.Wire.Primitives.{IsString, int16-Reads, int32-Reads, string-Reads}
use kafka_go.Wire.Frame.{Framed, >>=-Framed, last-Framed, int16-Framed, int32-Framed, string-Framed}

pub record FindCoordinatorRequestV0 : Type 0 where
  pub coordinator_key : List ℕ

unfoldable pub size_find_coordinator_request_v0 : FindCoordinatorRequestV0 → ℕ
size_find_coordinator_request_v0 t = sizeof_string t.coordinator_key

unfoldable pub write_find_coordinator_request_v0 : FindCoordinatorRequestV0 → List ℕ
write_find_coordinator_request_v0 t = write_string t.coordinator_key

pub size_find_coordinator_request_v0-Sizes :
    (t : FindCoordinatorRequestV0)
    → Sizes (size_find_coordinator_request_v0 t) (write_find_coordinator_request_v0 t)
unfolding size_find_coordinator_request_v0 write_find_coordinator_request_v0
size_find_coordinator_request_v0-Sizes t = omega sizes

pub record FindCoordinatorResponseCoordinatorV0 : Type 0 where
  pub node_id : ℕ
  pub host : List ℕ
  pub port : ℕ

unfoldable pub size_find_coordinator_response_coordinator_v0 :
    FindCoordinatorResponseCoordinatorV0 → ℕ
size_find_coordinator_response_coordinator_v0 t =
    sizeof_int32 t.node_id ⊕ sizeof_string t.host ⊕ sizeof_int32 t.port

unfoldable pub write_find_coordinator_response_coordinator_v0 :
    FindCoordinatorResponseCoordinatorV0 → List ℕ
write_find_coordinator_response_coordinator_v0 t =
    write_int32 t.node_id ++ (write_string t.host ++ write_int32 t.port)

unfoldable pub read_find_coordinator_response_coordinator_v0 :
    Reader FindCoordinatorResponseCoordinatorV0
read_find_coordinator_response_coordinator_v0 = do
  node_id ← read_int32
  host ← read_string
  port ← read_int32
  pure (record { node_id = node_id; host = host; port = port })

pub size_find_coordinator_response_coordinator_v0-Sizes :
    (t : FindCoordinatorResponseCoordinatorV0)
    → Sizes
        (size_find_coordinator_response_coordinator_v0 t)
        (write_find_coordinator_response_coordinator_v0 t)
unfolding size_find_coordinator_response_coordinator_v0
    write_find_coordinator_response_coordinator_v0
size_find_coordinator_response_coordinator_v0-Sizes t = omega sizes

-- The fields fit their encodings.
pub record IsFindCoordinatorResponseCoordinatorV0 (t : FindCoordinatorResponseCoordinatorV0)
    : Type 0 where
  pub node_id : t.node_id < 2 ^ 32
  pub host : IsString t.host
  pub port : t.port < 2 ^ 32

pub find_coordinator_response_coordinator_v0-Reads :
    (t : FindCoordinatorResponseCoordinatorV0)
    → IsFindCoordinatorResponseCoordinatorV0 t
    → Reads read_find_coordinator_response_coordinator_v0
        (write_find_coordinator_response_coordinator_v0 t)
        t
unfolding read_find_coordinator_response_coordinator_v0
    write_find_coordinator_response_coordinator_v0
find_coordinator_response_coordinator_v0-Reads t v =
    >>=-Reads _ (int32-Reads t.node_id v.node_id)
      (>>=-Reads _ (string-Reads t.host v.host) (last-Reads _ (int32-Reads t.port v.port)))

pub find_coordinator_response_coordinator_v0-Framed :
    Framed read_find_coordinator_response_coordinator_v0
unfolding read_find_coordinator_response_coordinator_v0
find_coordinator_response_coordinator_v0-Framed =
    >>=-Framed _ int32-Framed λ _. >>=-Framed _ string-Framed λ _. last-Framed _ int32-Framed

pub record FindCoordinatorResponseV0 : Type 0 where
  pub error_code : ℕ
  pub coordinator : FindCoordinatorResponseCoordinatorV0

unfoldable pub size_find_coordinator_response_v0 : FindCoordinatorResponseV0 → ℕ
size_find_coordinator_response_v0 t =
    sizeof_int16 t.error_code ⊕ size_find_coordinator_response_coordinator_v0 t.coordinator

unfoldable pub write_find_coordinator_response_v0 : FindCoordinatorResponseV0 → List ℕ
write_find_coordinator_response_v0 t =
    write_int16 t.error_code ++ write_find_coordinator_response_coordinator_v0 t.coordinator

unfoldable pub read_find_coordinator_response_v0 : Reader FindCoordinatorResponseV0
read_find_coordinator_response_v0 = do
  error_code ← read_int16
  coordinator ← read_find_coordinator_response_coordinator_v0
  pure (record { error_code = error_code; coordinator = coordinator })

pub size_find_coordinator_response_v0-Sizes :
    (t : FindCoordinatorResponseV0)
    → Sizes (size_find_coordinator_response_v0 t) (write_find_coordinator_response_v0 t)
unfolding size_find_coordinator_response_v0 write_find_coordinator_response_v0
size_find_coordinator_response_v0-Sizes t =
    omega (sizes, size_find_coordinator_response_coordinator_v0-Sizes t.coordinator)

-- The fields fit their encodings.
pub record IsFindCoordinatorResponseV0 (t : FindCoordinatorResponseV0) : Type 0 where
  pub error_code : t.error_code < 2 ^ 16
  pub coordinator : IsFindCoordinatorResponseCoordinatorV0 t.coordinator

pub find_coordinator_response_v0-Reads :
    (t : FindCoordinatorResponseV0)
    → IsFindCoordinatorResponseV0 t
    → Reads read_find_coordinator_response_v0 (write_find_coordinator_response_v0 t) t
unfolding read_find_coordinator_response_v0 write_find_coordinator_response_v0
find_coordinator_response_v0-Reads t v =
    >>=-Reads _ (int16-Reads t.error_code v.error_code)
      (last-Reads _ (find_coordinator_response_coordinator_v0-Reads t.coordinator v.coordinator))

pub find_coordinator_response_v0-Framed : Framed read_find_coordinator_response_v0
unfolding read_find_coordinator_response_v0
find_coordinator_response_v0-Framed =
    >>=-Framed _ int16-Framed λ _. last-Framed _ find_coordinator_response_coordinator_v0-Framed
