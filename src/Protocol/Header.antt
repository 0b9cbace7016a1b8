-- ===== src/Protocol/Header.antt =====
-- protocol.go: the header of a request.
use kafka_go.Prelude.{ℕ, ◌+◌, List, ◌++◌}
use kafka_go.Wire.Write.{write_int16, write_int32, write_string}
use kafka_go.Wire.Size.{◌⊕◌, sizeof_string}
use kafka_go.Wire.Sizes.{Sizes, sizes}

pub record RequestHeader : Type 0 where
  pub frame_size : ℕ
  pub api_key : ℕ
  pub api_version : ℕ
  pub correlation_id : ℕ
  pub client_id : List ℕ

unfoldable pub size_request_header : RequestHeader → ℕ
size_request_header t = 4 + 2 + 2 + 4 ⊕ sizeof_string t.client_id

unfoldable pub write_request_header : RequestHeader → List ℕ
write_request_header t =
    write_int32 t.frame_size
    ++ (write_int16 t.api_key
        ++ (write_int16 t.api_version
            ++ (write_int32 t.correlation_id ++ write_string t.client_id)))

pub size_request_header-Sizes :
    (t : RequestHeader) → Sizes (size_request_header t) (write_request_header t)
unfolding size_request_header write_request_header
size_request_header-Sizes t = omega sizes
