-- ===== src/Protocol/Frame.antt =====
-- conn.go: a request on the wire is its header and its body, behind their length.
use kafka_go.Prelude.{ℕ, ◌+◌, ◌-◌, ◌%◌, ◌^◌, ◌≡◌, ap, ◌∙◌, List, ◌++◌, length, append_assoc}
use kafka_go.Wire.Write.{write_int16, write_int32, write_string}
use kafka_go.Wire.Size.{◌⊕◌, sizeof_string}
use kafka_go.Wire.Sizes.{sizes, Sizes}
use kafka_go.Protocol.Interface.{Request}
use kafka_go.Protocol.Header.{RequestHeader, size_request_header, write_request_header}

-- int32 `-` on bit patterns.
infixl 65 ◌⊖◌
unfoldable pub ◌⊖◌ : ℕ → ℕ → ℕ
a ⊖ b = (a + 2 ^ 32 - b) % 2 ^ 32

-- `c.requestHeader(...)`, its Size not yet set.
unfoldable pub request_header : ℕ → ℕ → ℕ → List ℕ → RequestHeader
request_header key version id client = record {
  frame_size = 0;
  api_key = key;
  api_version = version;
  correlation_id = id;
  client_id = client;
}

-- `(hdr.size() + size) - 4` for the rest of the request
unfoldable pub frame_header : ℕ → ℕ → ℕ → List ℕ → ℕ → List ℕ
frame_header key version id client size =
    let hdr = request_header key version id client in
    write_request_header (record hdr { frame_size = size_request_header hdr ⊕ size ⊖ 4 })

module _ {A : Type 0} ⦃q : Request A⦄ where
  unfoldable pub write_request : ℕ → ℕ → ℕ → List ℕ → A → List ℕ
  write_request key version id client req =
      frame_header key version id client (q.size req) ++ q.write_to req

-- A frame of the protocol: the length of the body, and the body.
abbrev pub frame : List ℕ → List ℕ
frame body = write_int32 (length body % 2 ^ 32) ++ body

-- The fields of the header behind its length.
abbrev pub header_fields : ℕ → ℕ → ℕ → List ℕ → List ℕ
header_fields key version id client =
    write_int16 key ++ (write_int16 version ++ (write_int32 id ++ write_string client))

pub frame_header-frame :
    (key version id size : ℕ) (client body : List ℕ)
    → Sizes size body
    → frame_header key version id client size ++ body
      ≡ frame (header_fields key version id client ++ body)
unfolding frame_header write_request_header request_header size_request_header ◌⊖◌
frame_header-frame key version id size client body h =
    let fields = header_fields key version id client in
    append_assoc (write_int32 (12 ⊕ sizeof_string client ⊕ size ⊖ 4)) fields body
    ∙ ap (λ (n : ℕ). write_int32 n ++ (fields ++ body)) (omega (sizes, h))

module _ {A : Type 0} ⦃q : Request A⦄ where
  -- A request, of any type whose announced size is the size written, goes out as one frame: the
  -- number of bytes behind its first field, the other header fields, and the body.
  pub write_request-frame :
      (key version id : ℕ) (client : List ℕ) (req : A)
      → write_request key version id client req
        ≡ frame (header_fields key version id client ++ q.write_to req)
  unfolding write_request
  write_request-frame key version id client req =
      frame_header-frame key version id (q.size req) client (q.write_to req) (q.sized req)
